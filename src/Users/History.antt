-- ===== src/Users/History.antt =====
-- Sequences of requests on users.
use resaprint.Base.{
  ℕ, ◌+◌, ◌<◌, ◌≡◌, refl, sym, ap, ◌∙◌, inl, inr, String, List, [], ◌∷◌, In, text_eq, arith,
}
use resaprint.Base.Lemmas.{All-append, All-imp, All-In, In-append, In-append_left, In-select}
use resaprint.Models.{AdminPin, AdminRole}
use resaprint.Database.{Db, request}
use resaprint.Users.Routes.{
  UserCreate, UserUpdate, new_user, insert_user, create_user, update_user, delete_user,
  toggle_user_active_action, delete_user_action,
}
use resaprint.Users.Script.{labelled, one_or_none, reset_pin, save_pin, create_or_update_pin}
use resaprint.Users.Admins.{set_user-HasAdmin, HasAdmin, log-HasAdmin}
use resaprint.Users.LastAdmin.{
  update_user-HasAdmin, delete_user-HasAdmin, toggle_user_active-HasAdmin,
}

-- One request that changes users. The guards have run.
pub data Request : Type 0 where
  create : AdminPin → UserCreate → Request
  update : AdminPin → ℕ → UserUpdate → Request
  delete : AdminPin → ℕ → Request
  toggle_form : AdminPin → ℕ → Request
  delete_form : AdminPin → ℕ → Request
  -- The script, with its default role.
  script : String → String → Request

module _ (hash_pin : String → String) where
  insert_user-HasAdmin :
      (payload : UserCreate) (db : Db)
      → HasAdmin db
      → HasAdmin (insert_user (new_user hash_pin payload) db)
  insert_user-HasAdmin payload db h =
      let rows = db.admin_pins.rows in
      let next = db.admin_pins.next_id in
      let row = new_user hash_pin payload next in
      record {
        fresh =
            All-append (λ p. p.id < next + 1) rows (row ∷ [])
              (All-imp (λ p. p.id < next) (λ p. p.id < next + 1) rows (λ p lt. omega arith) h.fresh)
              (omega arith, tt);
        unique = λ p q mp mq e. elim (In-append p rows (row ∷ []) mp) [
          | inl old_p ↦ elim (In-append q rows (row ∷ []) mq) [
            | inl old_q ↦ h.unique p q old_p old_q e
            | inr (inl new_q) ↦
                let below = All-In (λ p. p.id < next) rows p h.fresh old_p in
                let same : q.id ≡ next = ap (λ r. r.id) new_q in absurd (omega arith)
            | inr (inr none_left) ↦ elim none_left [ ]
          ]
          | inr (inl new_p) ↦ elim (In-append q rows (row ∷ []) mq) [
            | inl old_q ↦
                let below = All-In (λ p. p.id < next) rows q h.fresh old_q in
                let same : p.id ≡ next = ap (λ r. r.id) new_p in absurd (omega arith)
            | inr (inl new_q) ↦ new_p ∙ sym new_q
            | inr (inr none_left) ↦ elim none_left [ ]
          ]
          | inr (inr none_left) ↦ elim none_left [ ]
        ];
        admin = h.admin;
        listed = In-append_left h.admin rows (row ∷ []) h.listed;
        active = h.active;
      }

  unfoldable pub serve : Request → Db → Db
  unfolding request
  serve (create admin payload) db = (request (create_user hash_pin admin payload) db).1
  serve (update admin k payload) db = (request (update_user hash_pin admin k payload) db).1
  serve (delete admin k) db = (request (delete_user admin k) db).1
  serve (toggle_form admin k) db = (request (toggle_user_active_action admin k) db).1
  serve (delete_form admin k) db = (request (delete_user_action admin k) db).1
  serve (script label pin) db =
      (request (create_or_update_pin hash_pin label pin AdminRole.admin) db).1

  unfoldable pub serve_all : List Request → Db → Db
  unfolding serve
  serve_all [] db = db
  serve_all (r ∷ rs) db = serve_all rs (serve r db)

  saved-HasAdmin :
      (label pin : String) (found : List AdminPin) (db : Db)
      → ((p : AdminPin) → In p found → In p db.admin_pins.rows)
      → HasAdmin db
      → HasAdmin (request (save_pin hash_pin label pin AdminRole.admin (one_or_none found)) db).1
  unfolding request
  saved-HasAdmin label pin [] db stored h = insert_user-HasAdmin _ db h
  saved-HasAdmin label pin (p ∷ []) db stored h =
      set_user-HasAdmin db h p (stored p (inl refl)) (reset_pin hash_pin pin AdminRole.admin p) refl
        (inl (refl, refl))
  saved-HasAdmin label pin (p ∷ q ∷ ps) db stored h = h

  create_or_update_pin-HasAdmin :
      (label pin : String) (db : Db)
      → HasAdmin db
      → HasAdmin (request (create_or_update_pin hash_pin label pin AdminRole.admin) db).1
  unfolding create_or_update_pin labelled request
  create_or_update_pin-HasAdmin label pin db h =
      saved-HasAdmin label pin (labelled label db) db
        (λ p m. (In-select (λ p. text_eq p.label label) p db.admin_pins.rows m).0) h

  serve-HasAdmin : (r : Request) (db : Db) → HasAdmin db → HasAdmin (serve r db)
  unfolding serve create_user
  serve-HasAdmin (create admin payload) db h =
      log-HasAdmin (insert_user (new_user hash_pin payload) db) _
        (insert_user-HasAdmin payload db h)
  serve-HasAdmin (update admin k payload) db h = update_user-HasAdmin hash_pin payload admin k db h
  serve-HasAdmin (delete admin k) db h = (delete_user-HasAdmin admin k db h).0
  serve-HasAdmin (toggle_form admin k) db h = toggle_user_active-HasAdmin admin k db h
  serve-HasAdmin (delete_form admin k) db h = (delete_user-HasAdmin admin k db h).1
  serve-HasAdmin (script label pin) db h = create_or_update_pin-HasAdmin label pin db h

  -- If the ids of the users are unique and below the sequence's next number and an active admin
  -- exists, then the same holds after any sequence of requests that create, change, switch on or
  -- off and delete users, by the routes and by the forms, and of runs of the script that makes or
  -- resets a PIN with the role admin.
  pub serve_all-HasAdmin : (rs : List Request) (db : Db) → HasAdmin db → HasAdmin (serve_all rs db)
  unfolding serve_all
  serve_all-HasAdmin [] db h = h
  serve_all-HasAdmin (r ∷ rs) db h = serve_all-HasAdmin rs (serve r db) (serve-HasAdmin r db h)
