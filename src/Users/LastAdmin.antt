-- ===== src/Users/LastAdmin.antt =====
-- Requests on users and the last active admin.
use resaprint.Base.{
  ℕ, ◌≡◌, refl, inl, inr, false, ◌&&◌, String, arith, In, ◌==◌, ==_iff, Bool-cases, Option-cases,
}
use resaprint.Base.Lemmas.{get-In}
use resaprint.Models.{AdminPin}
use resaprint.Database.{Db, request}
use resaprint.Auth.{is_admin}
use resaprint.Users.Routes.{
  UserUpdate, count_other_active_admins, get_user, set_user, remove_user, is_demoting,
  is_deactivating, updated_user, has_null, loses_last_admin, is_last_admin, toggled, update_user,
  delete_user, toggle_user_active_action, toggle_found, apply_toggle, delete_user_action,
  delete_found, apply_delete,
}
use resaprint.Users.Admins.{
  IsActiveAdmin, HasAdmin, others-In, Remains, log-HasAdmin, admin-cases, set_user-HasAdmin,
  remove_user-HasAdmin,
}

module _ (hash_pin : String → String) (payload : UserUpdate) where
  updated_user-id : (user : AdminPin) → (updated_user hash_pin payload user).id ≡ user.id
  updated_user-id user = ground arith

  -- A change that is neither a demotion nor a deactivation keeps an active admin one.
  updated_user-IsActiveAdmin :
      (user : AdminPin)
      → IsActiveAdmin user
      → is_demoting hash_pin payload user ≡ false
      → is_deactivating hash_pin payload user ≡ false
      → IsActiveAdmin (updated_user hash_pin payload user)
  updated_user-IsActiveAdmin user active d a = ground arith

  update-Remains :
      (db : Db) (user : AdminPin)
      → HasAdmin db
      → In user db.admin_pins.rows
      → loses_last_admin hash_pin payload user (count_other_active_admins user.id db) ≡ false
      → Remains db user.id (updated_user hash_pin payload user)
  update-Remains db user h listed guard =
      elim (Bool-cases (count_other_active_admins user.id db == 0)) [
        | inr some_left ↦ inr (others-In user.id db (λ e. cc ((==_iff _ _).1 e)))
        | inl none_left ↦ elim (admin-cases db h user listed) [
          | inl active ↦ inl (updated_user-IsActiveAdmin user active (ground arith) (ground arith))
          | inr q ↦ inr q
        ]
      ]

  -- If the ids of the users are unique and below the sequence's next number and an active admin
  -- exists, then the same holds after `update_user` on any user with any change, also where it is
  -- refused.
  pub update_user-HasAdmin :
      (admin : AdminPin) (k : ℕ) (db : Db)
      → HasAdmin db
      → HasAdmin (request (update_user hash_pin admin k payload) db).1
  unfolding request update_user
  update_user-HasAdmin admin k db h = elim (Option-cases (get_user k db)) [
    | inl missing ↦ rw (missing, request) h
    | inr (user, found) ↦
        let (listed, _) = get-In (λ p. p.id) k user db.admin_pins.rows found in
        elim (Bool-cases
          (loses_last_admin hash_pin payload user (count_other_active_admins user.id db))) [
            | inl last ↦ rw (found, request, last) h
            | inr guarded ↦ elim (Bool-cases (has_null hash_pin payload)) [
              | inl nulls ↦ rw (found, request, guarded, nulls) h
              | inr whole ↦
                  rw (found, request, guarded, whole)
                    (log-HasAdmin _ _ (
                      set_user-HasAdmin db h user listed (updated_user hash_pin payload user)
                        (updated_user-id user) (update-Remains db user h listed guarded)))
            ]
          ]
  ]

module _ (db : Db) (h : HasAdmin db) (user : AdminPin) (listed : In user db.admin_pins.rows) where
  delete-HasAdmin :
      is_last_admin user (count_other_active_admins user.id db) ≡ false
      → HasAdmin (remove_user user.id db)
  delete-HasAdmin guard = elim (Bool-cases (count_other_active_admins user.id db == 0)) [
    | inr some_left ↦
        let (q, m, active, ne) = others-In user.id db (λ e. cc ((==_iff _ _).1 e)) in
        remove_user-HasAdmin db h user listed q m active ne
    | inl none_left ↦ elim (admin-cases db h user listed) [
      | inl active ↦ absurd (ground arith)
      | inr (q, m, active, ne) ↦ remove_user-HasAdmin db h user listed q m active ne
    ]
  ]

  toggle-HasAdmin :
      (is_admin user.role && (user.is_active && count_other_active_admins user.id db == 0)) ≡ false
      → HasAdmin (set_user user.id (λ _. toggled user) db)
  toggle-HasAdmin guard = elim (Bool-cases (count_other_active_admins user.id db == 0)) [
    | inr some_left ↦
        set_user-HasAdmin db h user listed (toggled user) refl
          (inr (others-In user.id db (λ e. cc ((==_iff _ _).1 e))))
    | inl none_left ↦ elim (admin-cases db h user listed) [
      | inl active ↦ absurd (ground arith)
      | inr q ↦ set_user-HasAdmin db h user listed (toggled user) refl (inr q)
    ]
  ]

-- If the ids of the users are unique and below the sequence's next number and an active admin
-- exists, then the same holds after the deletion of any user by the route and by the form, also
-- where it is refused.
pub delete_user-HasAdmin :
    (admin : AdminPin) (k : ℕ) (db : Db)
    → HasAdmin db
    → HasAdmin (request (delete_user admin k) db).1
      × HasAdmin (request (delete_user_action admin k) db).1
unfolding request delete_user delete_user_action delete_found apply_delete
delete_user-HasAdmin admin k db h = elim (Option-cases (get_user k db)) [
  | inl missing ↦ rw (missing, request) (h, h)
  | inr (user, found) ↦
      let (listed, _) = get-In (λ p. p.id) k user db.admin_pins.rows found in
      elim (Bool-cases (is_last_admin user (count_other_active_admins user.id db))) [
        | inl last ↦ rw (found, request, last) (h, h)
        | inr guarded ↦
            let removed = delete-HasAdmin db h user listed guarded in
            let with_log = log-HasAdmin (remove_user user.id db) _ removed in
            rw (found, request, guarded) (with_log, with_log)
      ]
]

-- If the ids of the users are unique and below the sequence's next number and an active admin
-- exists, then the same holds after the form that switches a user on or off, also where it is
-- refused.
pub toggle_user_active-HasAdmin :
    (admin : AdminPin) (k : ℕ) (db : Db)
    → HasAdmin db
    → HasAdmin (request (toggle_user_active_action admin k) db).1
unfolding request toggle_user_active_action toggle_found apply_toggle
toggle_user_active-HasAdmin admin k db h = elim (Option-cases (get_user k db)) [
  | inl missing ↦ rw (missing, request) h
  | inr (user, found) ↦
      let (listed, _) = get-In (λ p. p.id) k user db.admin_pins.rows found in
      elim (Bool-cases
        (is_admin user.role && (user.is_active && count_other_active_admins user.id db == 0))) [
          | inl last ↦ rw (found, request, last) h
          | inr guarded ↦
              rw (found, request, guarded)
                (log-HasAdmin (set_user user.id (λ _. toggled user) db) _
                  (toggle-HasAdmin db h user listed guarded))
        ]
]
