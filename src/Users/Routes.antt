-- ===== src/Users/Routes.antt =====
-- The routes and the form actions. bcrypt is the parameter `hash_pin`.
use resaprint.Base.{
  ℕ, Bool, true, false, not, ◌&&◌, ◌||◌, Option, none, some, String, [], ◌∷◌, ◌==◌, if◌then◌else◌,
  length, get, select, update, delete, truthy,
}
use resaprint.Models.{AdminPin, AdminRole, Json}
use resaprint.Database.{
  Db, Action, Exception, http_error, integrity_error, pure, gets, or_raise, modify, commit, unless,
  table_add, ◌>>=◌, ◌>>◌,
}
use resaprint.Audit.{log, log_row}
use resaprint.Auth.{is_admin}
use resaprint.Patch.{Patch, unset, null, value, patch, is_null, popped}

pub record UserCreate : Type 0 where
  pub label : String
  pub pin : String
  pub role : AdminRole

pub record UserUpdate : Type 0 where
  pub label : Patch String
  pub role : Patch AdminRole
  pub is_active : Patch Bool
  pub pin : Patch String

abbrev pub is_other_active_admin : ℕ → AdminPin → Bool
is_other_active_admin exclude_id p = is_admin p.role && (p.is_active && not (p.id == exclude_id))

-- `_count_other_active_admins`
unfoldable pub count_other_active_admins : ℕ → Db → ℕ
unfolding select
count_other_active_admins exclude_id db =
    length (select (is_other_active_admin exclude_id) db.admin_pins.rows)

abbrev pub get_user : ℕ → Db → Option AdminPin
get_user k db = get (λ p. p.id) k db.admin_pins.rows

abbrev pub user_not_found : Exception
user_not_found = http_error 404 "user not found"

abbrev pub find_user : ℕ → Action AdminPin
find_user k = gets (get_user k) >>= λ o. or_raise o user_not_found

abbrev pub set_user : ℕ → (AdminPin → AdminPin) → Db → Db
set_user k f db = record db {
  admin_pins = record db.admin_pins { rows = update (λ p. p.id) k f db.admin_pins.rows };
}

abbrev pub remove_user : ℕ → Db → Db
remove_user k db = record db {
  admin_pins = record db.admin_pins { rows = delete (λ p. p.id) k db.admin_pins.rows };
}

abbrev pub insert_user : (ℕ → AdminPin) → Db → Db
insert_user row db = record db { admin_pins = table_add row db.admin_pins }

module _ (hash_pin : String → String) where
  abbrev pub new_user : UserCreate → ℕ → AdminPin
  new_user payload id = record {
    id = id;
    label = payload.label;
    pin_hash = hash_pin payload.pin;
    role = payload.role;
    is_active = true;
    failed_attempts = 0;
    locked_until = none;
    last_login_at = none;
  }

  unfoldable pub create_user : AdminPin → UserCreate → Action AdminPin
  create_user admin payload = do
    user ← gets (λ db. new_user payload db.admin_pins.next_id)
    modify (insert_user (new_user payload))
    log_row admin.label "user.created" "admin_pin" user.id
    commit
    pure user

  abbrev pub is_demoting : UserUpdate → AdminPin → Bool
  is_demoting payload user = elim payload.role [
    | unset ↦ false
    | null ↦ is_admin user.role
    | value role ↦ not (is_admin role) && is_admin user.role
  ]

  abbrev pub is_deactivating : UserUpdate → AdminPin → Bool
  is_deactivating payload user = elim payload.is_active [
    | unset ↦ false
    | null ↦ false
    | value on ↦ not on && user.is_active
  ]

  -- `if pin:` the new PIN, with the lockout reset.
  abbrev pub with_pin : Option String → AdminPin → AdminPin
  with_pin none user = user
  with_pin (some pin) user =
      if truthy pin
      then record user { pin_hash = hash_pin pin; failed_attempts = 0; locked_until = none }
      else user

  abbrev pub updated_user : UserUpdate → AdminPin → AdminPin
  updated_user payload user = with_pin (popped payload.pin) (record user {
    label = patch payload.label user.label;
    role = patch payload.role user.role;
    is_active = patch payload.is_active user.is_active;
  })

  abbrev pub has_null : UserUpdate → Bool
  has_null payload = is_null payload.label || (is_null payload.role || is_null payload.is_active)

  abbrev pub last_admin : Exception
  last_admin = http_error 400 "cannot demote/deactivate the last active admin user"

  -- `(demoting or deactivating) and count == 0`
  abbrev pub loses_last_admin : UserUpdate → AdminPin → ℕ → Bool
  loses_last_admin payload user others =
      (is_demoting payload user || is_deactivating payload user) && others == 0

  unfoldable pub update_user : AdminPin → ℕ → UserUpdate → Action AdminPin
  unfolding count_other_active_admins
  update_user admin user_id payload = do
    user ← find_user user_id
    others ← gets (count_other_active_admins user.id)
    unless (not (loses_last_admin payload user others)) last_admin
    unless (not (has_null payload)) integrity_error
    modify (set_user user.id (λ _. updated_user payload user))
    log_row admin.label "user.updated" "admin_pin" user.id
    commit
    pure (updated_user payload user)

abbrev pub delete_last_admin : Exception
delete_last_admin = http_error 400 "cannot delete the last active admin user"

abbrev pub is_last_admin : AdminPin → ℕ → Bool
is_last_admin user others = is_admin user.role && others == 0

unfoldable pub delete_user : AdminPin → ℕ → Action (Unit {0})
unfolding count_other_active_admins
delete_user admin user_id = do
  user ← find_user user_id
  others ← gets (count_other_active_admins user.id)
  unless (not (is_last_admin user others)) delete_last_admin
  log admin.label "user.deleted" (some "admin_pin") (some user.id)
      (some (("label", Json.text user.label) ∷ []))
  modify (remove_user user.id)
  commit

-- The form action renders a page with the error, if any.
abbrev pub toggled : AdminPin → AdminPin
toggled user = record user { is_active = not user.is_active }

unfoldable pub apply_toggle : AdminPin → AdminPin → Action (Option String)
apply_toggle admin user = do
  modify (set_user user.id (λ _. toggled user))
  log admin.label "user.updated" (some "admin_pin") (some user.id)
      (some (("is_active", Json.flag (not user.is_active)) ∷ []))
  commit
  pure none

unfoldable pub toggle_found : AdminPin → Option AdminPin → Action (Option String)
unfolding count_other_active_admins apply_toggle
toggle_found admin none = pure none
toggle_found admin (some user) = do
  others ← gets (count_other_active_admins user.id)
  (if is_admin user.role && (user.is_active && others == 0)
      then pure (some "Cannot deactivate the last active admin user.")
      else apply_toggle admin user)

unfoldable pub toggle_user_active_action : AdminPin → ℕ → Action (Option String)
unfolding toggle_found
toggle_user_active_action admin user_id = gets (get_user user_id) >>= toggle_found admin

unfoldable pub apply_delete : AdminPin → AdminPin → Action (Option String)
apply_delete admin user = do
  log admin.label "user.deleted" (some "admin_pin") (some user.id)
      (some (("label", Json.text user.label) ∷ []))
  modify (remove_user user.id)
  commit
  pure none

unfoldable pub delete_found : AdminPin → Option AdminPin → Action (Option String)
unfolding count_other_active_admins apply_delete
delete_found admin none = pure none
delete_found admin (some user) = do
  others ← gets (count_other_active_admins user.id)
  (if is_last_admin user others
      then pure (some "Cannot delete the last active admin user.")
      else apply_delete admin user)

unfoldable pub delete_user_action : AdminPin → ℕ → Action (Option String)
unfolding delete_found
delete_user_action admin user_id = gets (get_user user_id) >>= delete_found admin
