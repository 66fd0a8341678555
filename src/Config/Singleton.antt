-- ===== src/Config/Singleton.antt =====
-- The singleton row of settings: its creation and its changes.
use resaprint.Base.{
  ℕ, ◌≡◌, refl, inl, inr, true, false, none, some, String, List, [], ◌∷◌, ◌++◌, get, update, arith,
  ==_iff, truthy, truthy?, Option-cases, Bool-cases, ◌==◌,
}
use resaprint.Models.{AppSettings, AdminPin}
use resaprint.Patch.{popped}
use resaprint.Database.{Session, returned}
use resaprint.Config.Defs.{
  Env, get_settings, settings_id, default_row, get_or_create_settings, ConfigUpdate, has_null,
  station_exists, updated, update_config,
}

get-behind :
    (row : AppSettings) (rows : List AppSettings)
    → get (λ s. s.id) settings_id rows ≡ none
    → row.id ≡ settings_id
    → get (λ s. s.id) settings_id (rows ++ row ∷ []) ≡ some row
unfolding get
get-behind row [] h e = rw e refl
get-behind row (x ∷ xs) h e = ground (arith, get-behind row xs)

module _ (env : Env) (encrypt : String → String) where
  -- Reading the settings always returns a row, and reading them again returns the same row and
  -- changes nothing, also with other values in the environment.
  pub get_or_create_settings-idempotent :
      (env' : Env) (s : Session)
      → let s' = (get_or_create_settings env encrypt s).1 in
        (row : AppSettings) × ((get_or_create_settings env encrypt s).0 ≡ returned row)
        × (get_or_create_settings env' encrypt s' ≡ (returned row, s'))
  unfolding get_or_create_settings
  get_or_create_settings-idempotent env' s = elim (Option-cases (get_settings s.current)) [
    | inl absent ↦
        let row = default_row env encrypt in
        (row, rw absent refl, rw (absent, get-behind row s.current.app_settings absent refl) refl)
    | inr (row, found) ↦ (row, rw found refl, rw (found, found) refl)
  ]

get-update_self :
    (row : AppSettings) (k : ℕ) (rows : List AppSettings)
    → row.id ≡ k
    → (old : AppSettings) → get (λ s. s.id) k rows ≡ some old
    → get (λ s. s.id) k (update (λ s. s.id) k (λ _. row) rows) ≡ some row
unfolding get update
get-update_self row k [] e old h = cc
get-update_self row k (x ∷ xs) e old h = elim (Bool-cases (x.id == k)) [
  | inl t ↦ let here : (row.id == k) ≡ true = (==_iff row.id k).1 e in rw (t, here) refl
  | inr f ↦ rw (f, f) (get-update_self row k xs e old (rw f at h))
]

get_settings-id :
    (k : ℕ) (rows : List AppSettings) (row : AppSettings)
    → get (λ s. s.id) k rows ≡ some row
    → row.id ≡ k
unfolding get
get_settings-id k [] row h = cc
get_settings-id k (x ∷ xs) row h = elim (Bool-cases (x.id == k)) [
  | inl t ↦ let e : x ≡ row = cc in rw (← e) ((==_iff x.id k).0 t)
  | inr f ↦ get_settings-id k xs row (rw f at h)
]

module _ (env : Env) (encrypt : String → String) where
  -- If a row of settings exists, a change without a password, or with an empty one, keeps the
  -- stored password, whether the change succeeds or is refused.
  pub update_config-keeps_password :
      (admin : AdminPin) (payload : ConfigUpdate) (s : Session) (row : AppSettings)
      → get_settings s.current ≡ some row
      → truthy? (popped payload.imap_password) ≡ false
      → (row' : AppSettings) × (get_settings (update_config env encrypt admin payload s).1.current
          ≡ some row')
        × (row'.imap_password_encrypted ≡ row.imap_password_encrypted)
  unfolding update_config get_or_create_settings
  update_config-keeps_password admin payload s row found blank =
      elim (Bool-cases (has_null payload)) [
        | inl refused ↦ (row, rw (found, refused, found) refl, refl)
        | inr fine ↦ elim (Bool-cases (station_exists payload.auto_print_station_id s.current)) [
          | inl known ↦
              let row' = updated env encrypt payload row in
              let same = get_settings-id settings_id s.current.app_settings row found in
              (
                row',
                rw (found, fine, known)
                    (get-update_self row' settings_id s.current.app_settings same row found),
                kept,
              )
          | inr unknown ↦ (row, rw (found, fine, unknown, found) refl, refl)
        ]
      ]
    where
      kept : (updated env encrypt payload row).imap_password_encrypted ≡ row.imap_password_encrypted
      kept = elim (Option-cases (popped payload.imap_password)) [
        | inl e ↦ rw e refl
        | inr (p, e) ↦ let f : truthy p ≡ false = rw e at blank in rw (e, f) refl
      ]
