-- ===== src/Users/Script.antt =====
-- backend/scripts/create_admin_pin.py: a PIN from the command line, under a label.
use resaprint.Base.{true, Option, none, some, String, List, [], ◌∷◌, select, text_eq}
use resaprint.Models.{AdminPin, AdminRole}
use resaprint.Database.{
  Db, Action, Outcome, returned, raised, other_error, pure, gets, modify, commit, ◌>>=◌, ◌>>◌,
}
use resaprint.Users.Routes.{new_user, insert_user, set_user}

unfoldable pub labelled : String → Db → List AdminPin
unfolding select
labelled label db = select (λ p. text_eq p.label label) db.admin_pins.rows

-- `scalar_one_or_none`
abbrev pub one_or_none : List AdminPin → Outcome (Option AdminPin)
one_or_none [] = returned none
one_or_none (p ∷ []) = returned (some p)
one_or_none (p ∷ q ∷ ps) = raised (other_error "MultipleResultsFound")

module _ (hash_pin : String → String) where
  -- A new hash and role, switched on, the lockout cleared.
  abbrev pub reset_pin : String → AdminRole → AdminPin → AdminPin
  reset_pin pin role existing = record existing {
    pin_hash = hash_pin pin;
    role = role;
    is_active = true;
    failed_attempts = 0;
    locked_until = none;
  }

  abbrev pub save_pin : String → String → AdminRole → Outcome (Option AdminPin) → Action String
  save_pin label pin role (raised e) = λ s. (raised e, s)
  save_pin label pin role (returned (some existing)) = do
    modify (set_user existing.id (λ _. reset_pin pin role existing))
    commit
    pure "Updated"
  save_pin label pin role (returned none) = do
    modify (insert_user (new_user hash_pin (record { label = label; pin = pin; role = role })))
    commit
    pure "Created"

  unfoldable pub create_or_update_pin : String → String → AdminRole → Action String
  unfolding labelled
  create_or_update_pin label pin role =
      gets (labelled label) >>= λ found. save_pin label pin role (one_or_none found)
