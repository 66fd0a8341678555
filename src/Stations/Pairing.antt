-- ===== src/Stations/Pairing.antt =====
-- A pairing and the guard of the agents' routes.
use resaprint.Base.{
  ◌≡◌, refl, sym, subst, ℕ, inl, inr, Bool, true, false, ◌&&◌, some, String, List, [], ◌∷◌, arith,
  All, ltb, truthy, text_eq, eq_iff, select, update, get, Bool-cases, ◌==◌, ==_iff,
}
use resaprint.Base.Lemmas.{get-In, All-imp}
use resaprint.Models.{PrintStation, AdminPin, Time}
use resaprint.Text.{len, take_chars, strip, after_space}
use resaprint.Database.{Session, returned, raised}
use resaprint.Auth.{
  require_station_key, check_station_key, find_station, accept_station, touch_station,
  stations_with_prefix, starts_with_lower, has_prefix, is_usb, key_fits, invalid_key,
}
use resaprint.Stations.Routes.{paired, pair_station, get_print_station}

-- No other row has the id of the row.
abbrev pub UniqueIds : List PrintStation → Type 0
UniqueIds [] = Unit
UniqueIds (s ∷ ss) = All (λ t. (t.id == s.id) ≡ false) ss × UniqueIds ss

module _ (k : ℕ) (f : PrintStation → PrintStation) where
  update-absent :
      (ss : List PrintStation) → All (λ t. (t.id == k) ≡ false) ss → update (λ s. s.id) k f ss ≡ ss
  unfolding update
  update-absent [] h = refl
  update-absent (s ∷ ss) h = rw (h.0, update-absent ss h.1)

  select-none :
      (p : PrintStation → Bool) (ss : List PrintStation)
      → All (λ t. p t ≡ false) ss
      → select p ss ≡ []
  unfolding select
  select-none p [] h = refl
  select-none p (s ∷ ss) h = rw (h.0, select-none p ss h.1)

  -- The only row with a property, where the change gave it that property.
  select-update_one :
      (p : PrintStation → Bool) (ss : List PrintStation) (x : PrintStation)
      → get (λ s. s.id) k ss ≡ some x
      → UniqueIds ss
      → All (λ t. p t ≡ false) ss
      → p (f x) ≡ true
      → select p (update (λ s. s.id) k f ss) ≡ f x ∷ []
  unfolding get update select
  select-update_one p [] x found u not_p yes_p = absurd (cc)
  select-update_one p (s ∷ ss) x found u not_p yes_p = elim (Bool-cases (s.id == k)) [
    | inl t ↦
        let same : s ≡ x = ground arith in
        let e : s.id ≡ k = (==_iff s.id k).0 t in
        let absent : All (λ t. (t.id == k) ≡ false) ss = rw (← e) u.0 in
        rw (t, same, yes_p, update-absent ss absent, select-none p ss not_p.1) refl
    | inr f ↦
        let found' : get (λ s. s.id) k ss ≡ some x = rw f at found in
        rw (f, not_p.0) (select-update_one p ss x found' u.1 not_p.1 yes_p)
  ]

  select-update_none :
      (p : PrintStation → Bool) (ss : List PrintStation)
      → All (λ t. (t.id == k) ≡ false → p t ≡ false) ss
      → ((t : PrintStation) → p (f t) ≡ false)
      → select p (update (λ s. s.id) k f ss) ≡ []
  unfolding update select
  select-update_none p [] others changed = refl
  select-update_none p (s ∷ ss) others changed = elim (Bool-cases (s.id == k)) [
    | inl t ↦ rw (t, changed s) (select-update_none p ss others.1 changed)
    | inr g ↦ rw (g, others.0 g) (select-update_none p ss others.1 changed)
  ]

module _ (hash : String → String) (now : Time) (api_key : String) (admin : AdminPin) where
  stored_rows :
      (k : ℕ) (station : PrintStation) (s : Session)
      → get_print_station k s.current ≡ some station
      → (pair_station hash now api_key admin k s).1.current.print_stations.rows
        ≡ update (λ t. t.id) station.id (paired hash now api_key) s.current.print_stations.rows
  unfolding pair_station
  stored_rows k station s h = rw (h) refl

  module _ (verify : String → String → Bool) (later : Time) where
    -- The guard on a header whose key has a single candidate row.
    guard_on :
        (s : Session) (row : PrintStation) (header : String)
        → truthy header ≡ true
        → starts_with_lower "bearer " header ≡ true
        → strip (after_space header) ≡ api_key
        → ltb (len api_key) 12 ≡ false
        → stations_with_prefix (take_chars 12 api_key) s.current ≡ row ∷ []
        → key_fits verify api_key row ≡ true
        → (require_station_key verify later (some header) s).0
          ≡ returned (record row { last_seen_at = some later })
    unfolding require_station_key check_station_key find_station accept_station touch_station
    guard_on s row header text bearer key long one fits =
        rw (text, bearer, key, long, one, fits) refl

    -- If the pairing of a stored station, the row of an active USB agent, is given a key of at
    -- least twelve characters with a prefix that no row has, which fits its own hash, no empty
    -- text, and ids are unique, then it returns the key and is committed, and the guard lets in a
    -- bearer header with that key and returns the paired row with its last contact dated.
    pub pair_station-opens :
        (k : ℕ) (station : PrintStation) (s : Session) (header : String)
        → get_print_station k s.current ≡ some station
        → UniqueIds s.current.print_stations.rows
        → All (λ t. has_prefix (take_chars 12 api_key) t ≡ false) s.current.print_stations.rows
        → (station.is_active ≡ true) × (is_usb station ≡ true)
        → (truthy (hash api_key) ≡ true) × (verify api_key (hash api_key) ≡ true)
        → ltb (len api_key) 12 ≡ false
        → (truthy header ≡ true)
          × (starts_with_lower "bearer " header ≡ true)
          × (strip (after_space header) ≡ api_key)
        → let s' = (pair_station hash now api_key admin k s).1 in
          ((pair_station hash now api_key admin k s).0
            ≡ returned (record { station_id = station.id; api_key = api_key }))
          × (s'.committed ≡ s'.current)
          × ((require_station_key verify later (some header) s').0
              ≡ returned (record (paired hash now api_key station) { last_seen_at = some later }))
    unfolding pair_station stations_with_prefix
    pair_station-opens k station s header found u fresh (active, usb) (full, fits) long
          (text, bearer, key) =
        let same = (get-In (λ t. t.id) k station s.current.print_stations.rows found).1 in
        let s' = (pair_station hash now api_key admin k s).1 in
        let candidate =
          λ (t : PrintStation). has_prefix (take_chars 12 api_key) t && (is_usb t && t.is_active) in
        let own : text_eq (take_chars 12 api_key) (take_chars 12 api_key) ≡ true =
          (eq_iff (take_chars 12 api_key) (take_chars 12 api_key)).1 refl in
        let one : stations_with_prefix (take_chars 12 api_key) s'.current
            ≡ paired hash now api_key station ∷ [] =
          rw (stored_rows k station s found) (
            select-update_one station.id (paired hash now api_key) candidate
              s.current.print_stations.rows station
              (subst (λ j. get_print_station j s.current ≡ some station) (sym same) found) u
              (All-imp _ (λ t. candidate t ≡ false) s.current.print_stations.rows (λ t e. rw e refl)
                fresh)
              (rw (own, usb, active) refl)) in
        (
          rw found refl,
          rw found refl,
          guard_on s' (paired hash now api_key station) header text bearer key long one
              (rw (full, fits) refl),
        )

    -- After the pairing of a stored station the guard refuses every bearer header whose key has a
    -- prefix that is neither that of the new key nor that of another station's row, so in
    -- particular the key that the station had before if no other row shares its prefix.
    pub pair_station-revokes :
        (k : ℕ) (station : PrintStation) (s : Session) (header : String)
        → get_print_station k s.current ≡ some station
        → text_eq (take_chars 12 api_key) (take_chars 12 (strip (after_space header))) ≡ false
        → All
            (λ t.
              (t.id == station.id) ≡ false
              → has_prefix (take_chars 12 (strip (after_space header))) t ≡ false)
            s.current.print_stations.rows
        → (truthy header ≡ true) × (starts_with_lower "bearer " header ≡ true)
        → (require_station_key verify later
            (some header)
            (pair_station hash now api_key admin k s).1).0
          ≡ raised invalid_key
    unfolding pair_station stations_with_prefix require_station_key check_station_key find_station
    pair_station-revokes k station s header found differs others (text, bearer) =
        let prefix = take_chars 12 (strip (after_space header)) in
        let candidate = λ (t : PrintStation). has_prefix prefix t && (is_usb t && t.is_active) in
        let gone : select candidate
              (pair_station hash now api_key admin k s).1.current.print_stations.rows
            ≡ [] =
          rw (stored_rows k station s found) (
            select-update_none station.id (paired hash now api_key) candidate
              s.current.print_stations.rows
              (All-imp _ (λ t. (t.id == station.id) ≡ false → candidate t ≡ false)
                s.current.print_stations.rows (λ t p e. rw (p e) refl) others)
              (λ t. rw differs refl)) in
        elim (Bool-cases (ltb (len (strip (after_space header))) 12)) [
          | inl short ↦ rw (text, bearer, short) refl
          | inr long ↦ rw (text, bearer, long, gone) refl
        ]
