-- ===== src/Users/Admins.antt =====
-- Changes of the table of users and its active admins.
use resaprint.Base.{
  ℕ, ◌<◌, ◌≡◌, ◌≢◌, refl, ◌⊎◌, inl, inr, Bool, true, List, [], ◌∷◌, arith, In, All, length, select,
  update, ◌==◌, ==_iff, Bool-cases,
}
use resaprint.Base.Lemmas.{
  In-select, In-update, In-update_of, All-delete, In-delete, In-delete_of, In-update_self,
  All-update,
}
use resaprint.Models.{AdminPin, AuditLog}
use resaprint.Database.{Db, Table}
use resaprint.Auth.{is_admin}
use resaprint.Users.Routes.{is_other_active_admin, count_other_active_admins, set_user, remove_user}

abbrev pub IsActiveAdmin : AdminPin → Type 0
IsActiveAdmin p = (is_admin p.role ≡ true) × (p.is_active ≡ true)

-- The primary key is unique, and some active row has the role admin.
pub record HasAdmin (db : Db) : Type 0 where
  pub fresh : All (λ p. p.id < db.admin_pins.next_id) db.admin_pins.rows
  pub unique :
      (p q : AdminPin) → In p db.admin_pins.rows → In q db.admin_pins.rows → p.id ≡ q.id → p ≡ q
  pub admin : AdminPin
  pub listed : In admin db.admin_pins.rows
  pub active : IsActiveAdmin admin

select-nonempty :
    {A : Type 0} (p : A → Bool) (xs : List A)
    → length (select p xs) ≢ 0
    → (x : A) × In x (select p xs)
select-nonempty {A} p xs h = go (select p xs) h
  where
    go : (ys : List A) → length ys ≢ 0 → (x : A) × In x ys
    go [] n = absurd (n refl)
    go (y ∷ ys) n = (y, inl refl)

-- A count above zero names another active admin.
pub others-In :
    (k : ℕ) (db : Db)
    → count_other_active_admins k db ≢ 0
    → (q : AdminPin) × In q db.admin_pins.rows × IsActiveAdmin q × (q.id ≢ k)
unfolding count_other_active_admins
others-In k db n =
    let (q, m) = select-nonempty (is_other_active_admin k) db.admin_pins.rows n in
    let (m', e) = In-select (is_other_active_admin k) q db.admin_pins.rows m in
    (q, m', (ground arith, ground arith), ground arith)

-- Another admin remains, or the changed row is one.
abbrev pub Remains : Db → ℕ → AdminPin → Type 0
Remains db k user' =
    IsActiveAdmin user' ⊎ ((q : AdminPin) × In q db.admin_pins.rows × IsActiveAdmin q × (q.id ≢ k))

module _ (db : Db) (h : HasAdmin db) (user : AdminPin) (listed : In user db.admin_pins.rows) where
  -- The admin that the invariant names is the row itself or another one.
  pub admin-cases :
      IsActiveAdmin user
      ⊎ ((q : AdminPin) × In q db.admin_pins.rows × IsActiveAdmin q × (q.id ≢ user.id))
  admin-cases = elim (Bool-cases (h.admin.id == user.id)) [
    | inl same ↦ inl (rw (← h.unique h.admin user h.listed listed ((==_iff _ _).0 same)) h.active)
    | inr other ↦ inr (h.admin, h.listed, h.active, ground arith)
  ]

  pub set_user-HasAdmin :
      (user' : AdminPin)
      → user'.id ≡ user.id
      → Remains db user.id user'
      → HasAdmin (set_user user.id (λ _. user') db)
  set_user-HasAdmin user' same remains =
      let (admin, m, active) = still remains in
      record {
        fresh =
            All-update (λ p. p.id) user.id (λ p. p.id < db.admin_pins.next_id) (λ _. user')
              db.admin_pins.rows (λ x lt e. rw (same, ← e) lt) h.fresh;
        unique = λ p q mp mq e.
            only p q (In-update (λ p. p.id) user.id (λ _. user') p db.admin_pins.rows mp)
              (In-update (λ p. p.id) user.id (λ _. user') q db.admin_pins.rows mq) e;
        admin = admin;
        listed = m;
        active = active;
      }
    where
      rows : List AdminPin
      rows = update (λ p. p.id) user.id (λ _. user') db.admin_pins.rows

      still : Remains db user.id user' → (p : AdminPin) × In p rows × IsActiveAdmin p
      still (inl active) = (
        user',
        In-update_self (λ p. p.id) user.id (λ _. user') user db.admin_pins.rows listed refl,
        active,
      )
      still (inr (q, m, active, ne)) =
          (q, In-update_of (λ p. p.id) user.id (λ _. user') q db.admin_pins.rows m ne, active)

      Origin : AdminPin → Type 0
      Origin p =
          (In p db.admin_pins.rows × (p.id ≢ user.id))
          ⊎ ((x : AdminPin) × In x db.admin_pins.rows × (x.id ≡ user.id) × (p ≡ user'))

      only : (p q : AdminPin) → Origin p → Origin q → p.id ≡ q.id → p ≡ q
      only p q (inl (mp, _)) (inl (mq, _)) e = h.unique p q mp mq e
      only p q (inl (_, ne)) (inr (x, _, _, is)) e = absurd (ne (rw (e, is) same))
      only p q (inr (x, _, _, is)) (inl (_, ne)) e = absurd (ne (rw (← e, is) same))
      only p q (inr (x, _, _, is)) (inr (y, _, _, is')) e = rw (is, is')

  pub remove_user-HasAdmin :
      (q : AdminPin)
      → In q db.admin_pins.rows
      → IsActiveAdmin q
      → q.id ≢ user.id
      → HasAdmin (remove_user user.id db)
  remove_user-HasAdmin q m active ne = record {
    fresh =
        All-delete (λ p. p.id) user.id (λ p. p.id < db.admin_pins.next_id) db.admin_pins.rows
          h.fresh;
    unique = λ p r mp mr e.
        h.unique p r (In-delete (λ p. p.id) user.id p db.admin_pins.rows mp).0
          (In-delete (λ p. p.id) user.id r db.admin_pins.rows mr).0 e;
    admin = q;
    listed = In-delete_of (λ p. p.id) user.id q db.admin_pins.rows m ne;
    active = active;
  }

-- The audit log does not matter.
pub log-HasAdmin :
    (db : Db) (entries : Table AuditLog)
    → HasAdmin db
    → HasAdmin (record db { audit_log = entries })
log-HasAdmin db entries h = record {
  fresh = h.fresh;
  unique = h.unique;
  admin = h.admin;
  listed = h.listed;
  active = h.active;
}
