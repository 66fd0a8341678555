-- ===== src/Auth/Guards.antt =====
-- The guards of the routes. itsdangerous is the parameter `loads`: the `admin_pin_id` of a token
-- with a good signature that is not too old.
use resaprint.Base.{
  ◌-◌, ℕ, Bool, true, false, not, ◌&&◌, ◌||◌, Option, none, some, String, List, ltb, text_eq,
  if◌then◌else◌, truthy, AtMostOne, no_row, one_row, many_rows, at_most_one, select, update, ◌==◌,
}
use Prim.Native.Char.{Char, code}
use resaprint.Models.{AdminPin, AdminRole, PrintStation, StationConnectionType, Time}
use resaprint.Database.{
  Db, Action, Exception, http_error, not_authenticated_html, forbidden_html, multiple_results_found,
  pure, raise, gets, modify, commit, ◌>>=◌, ◌>>◌,
}
use resaprint.Text.{len, take_chars, strip, after_space}
use resaprint.Auth.Defs.{active_pins_with_id}

-- The row of `scalar_one_or_none()`, or the exception where there is none.
abbrev pub one_or : {A : Type 0} → Exception → AtMostOne A → Action A
one_or e no_row = raise e
one_or e (one_row a) = pure a
one_or e many_rows = raise multiple_results_found

abbrev pub is_admin : AdminRole → Bool
is_admin AdminRole.admin = true
is_admin AdminRole.reception = false

module _ (loads : String → Option (Option ℕ)) where
  unfoldable pub read_session_token : String → Option ℕ
  read_session_token token = elim (loads token) [ none ↦ none | some admin_pin_id ↦ admin_pin_id ]

  unfoldable pub require_admin_session : Option String → Action AdminPin
  unfolding read_session_token active_pins_with_id
  require_admin_session none = raise (http_error 401 "not authenticated")
  require_admin_session (some cookie) = elim (read_session_token cookie) [
    | none ↦ raise (http_error 401 "invalid or expired session")
    | some k ↦
        gets (λ db. at_most_one (active_pins_with_id k db))
        >>= one_or (http_error 401 "session no longer valid")
  ]

  unfoldable pub require_admin_session_html : Option String → Action AdminPin
  unfolding read_session_token active_pins_with_id
  require_admin_session_html none = raise not_authenticated_html
  require_admin_session_html (some cookie) = elim (read_session_token cookie) [
    | none ↦ raise not_authenticated_html
    | some k ↦ gets (λ db. at_most_one (active_pins_with_id k db)) >>= one_or not_authenticated_html
  ]

  unfoldable pub require_admin_role : Option String → Action AdminPin
  unfolding require_admin_session
  require_admin_role cookie = do
    admin ← require_admin_session cookie
    (if is_admin admin.role then pure admin else raise (http_error 403 "admin role required"))

  unfoldable pub require_admin_role_html : Option String → Action AdminPin
  unfolding require_admin_session_html
  require_admin_role_html cookie = do
    admin ← require_admin_session_html cookie
    (if is_admin admin.role then pure admin else raise forbidden_html)

-- `c.lower()` is the ASCII character `low`, a small letter or no letter.
abbrev pub lowers_to : Char → Char → Bool
lowers_to low c =
    code c == code low
    || (not (ltb (code low) 97) && (not (ltb 122 (code low)) && code c == code low - 32))

-- `s.lower().startswith(prefix)` for such a prefix.
unfoldable pub starts_with_lower : String → String → Bool
starts_with_lower String.[] s = true
starts_with_lower (String.◌∷◌ p ps) String.[] = false
starts_with_lower (String.◌∷◌ p ps) (String.◌∷◌ c s) = lowers_to p c && starts_with_lower ps s

abbrev pub has_prefix : String → PrintStation → Bool
has_prefix prefix s = elim s.api_key_prefix [ none ↦ false | some p ↦ text_eq p prefix ]

abbrev pub is_usb : PrintStation → Bool
is_usb s = elim s.connection_type [
  | StationConnectionType.lan_escpos ↦ false
  | StationConnectionType.usb_agent ↦ true
]

-- `station.api_key_hash` is set, and the key fits it.
abbrev pub key_fits : (String → String → Bool) → String → PrintStation → Bool
key_fits verify api_key s = elim s.api_key_hash [
  | none ↦ false
  | some hash ↦ truthy hash && verify api_key hash
]

unfoldable pub stations_with_prefix : String → Db → List PrintStation
unfolding select
stations_with_prefix prefix db =
    select (λ s. has_prefix prefix s && (is_usb s && s.is_active)) db.print_stations.rows

abbrev pub invalid_key : Exception
invalid_key = http_error 401 "invalid API key"

module _ (verify : String → String → Bool) (now : Time) where
  unfoldable pub touch_station : PrintStation → Action PrintStation
  unfolding update
  touch_station station = do
    modify (λ db. record db {
      print_stations = record db.print_stations {
        rows =
            update (λ s. s.id) station.id (λ s. record s { last_seen_at = some now })
              db.print_stations.rows;
      };
    })
    commit
    pure (record station { last_seen_at = some now })

  unfoldable pub accept_station : String → PrintStation → Action PrintStation
  unfolding touch_station
  accept_station api_key station =
      if key_fits verify api_key station then touch_station station else raise invalid_key

  unfoldable pub find_station : String → Action PrintStation
  unfolding stations_with_prefix
  find_station prefix =
      gets (λ db. at_most_one (stations_with_prefix prefix db)) >>= one_or invalid_key

  unfoldable pub check_station_key : String → Action PrintStation
  unfolding accept_station find_station take_chars len
  check_station_key api_key =
      if ltb (len api_key) 12
      then raise invalid_key
      else find_station (take_chars 12 api_key) >>= accept_station api_key

  unfoldable pub require_station_key : Option String → Action PrintStation
  unfolding check_station_key starts_with_lower strip after_space
  require_station_key none = raise (http_error 401 "missing station API key")
  require_station_key (some authorization) =
      if truthy authorization && starts_with_lower "bearer " authorization
      then check_station_key (strip (after_space authorization))
      else raise (http_error 401 "missing station API key")
