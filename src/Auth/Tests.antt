-- ===== src/Auth/Tests.antt =====
-- Logins and guards on a table of two PINs; here a PIN is its own hash, and a token is the id 1.
use resaprint.Base.{
  update, get, select, ℕ, ◌≡◌, ◌≤◌, refl, true, Option, none, some, String, List, [], ◌∷◌, arith,
  text_eq, any,
}
use resaprint.Models.{AdminPin, AdminRole, PrintStation, StationConnectionType}
use resaprint.Database.{Db, Session, empty_db, returned}
use resaprint.Auth.{
  default_settings, after_success, attempt_login, finish_login, find_match, succeed, fail, login,
  label_of, set_cookie, require_admin_session, read_session_token, active_pins_with_id,
  require_admin_role, require_admin_role_html, is_admin,
}
use resaprint.Auth.Lockout.{
  AllFail, HasKeys, pin_row, IsCounted, times_compared, times_compared-le_threshold,
  attempt_login-failure,
}
use resaprint.Auth.Roles.{
  html_outcome, require_admin_role_html-agrees, Authenticated, require_admin_role_sound,
}
use resaprint.Text.{len, take_chars, strip_left, strip_right, strip, after_space}
use resaprint.Auth.{
  require_station_key, check_station_key, accept_station, find_station, touch_station,
  stations_with_prefix, starts_with_lower,
}
use resaprint.Auth.StationKey.{Opens, require_station_key_sound}

abbrev boss : AdminPin
boss = record {
  id = 1;
  label = "Boss";
  pin_hash = "1234";
  role = AdminRole.admin;
  is_active = true;
  failed_attempts = 0;
  locked_until = none;
  last_login_at = none;
}

abbrev desk : AdminPin
desk = record {
  id = 2;
  label = "Desk";
  pin_hash = "5678";
  role = AdminRole.reception;
  is_active = true;
  failed_attempts = 3;
  locked_until = some 500;
  last_login_at = none;
}

abbrev pins : Db
pins = record empty_db { admin_pins = record { rows = boss ∷ desk ∷ []; next_id = 3 } }

abbrev open_session : Session
open_session = record { committed = pins; current = pins }

abbrev loads : String → Option (Option ℕ)
loads token = some (some 1)

login_run : Unit {0}
unfolding attempt_login finish_login find_match select succeed fail
login_run = tt

-- The PIN of a locked row does not log in, and only the other row counts the failure.
login-locked :
    (attempt_login default_settings text_eq 100 "5678" open_session).1.current.admin_pins.rows
    ≡ record boss { failed_attempts = 1 } ∷ desk ∷ []
unfolding login_run
login-locked = refl

failed_login : (attempt_login default_settings text_eq 100 "0000" open_session).0 ≡ returned none
unfolding login_run
failed_login = refl

-- The token of a login opens the session.
login-opens :
    let result = login default_settings text_eq (λ k. "token") 60 100 "1234" none open_session in
    (result.0 ≡ returned (record { body = label_of boss.label; cookie = set_cookie "token" 60 }))
    × ((require_admin_role loads (some "token") result.1).0 ≡ returned (after_success 100 boss))
unfolding login_run login require_admin_role require_admin_session read_session_token
    active_pins_with_id update
login-opens = (refl, refl)

-- Six wrong PINs in one period: five are tested against the row, then it is locked.
abbrev guesses : List (ℕ × String)
guesses =
    (100, "0000")
    ∷ (101, "0001")
    ∷ (102, "0002")
    ∷ (103, "0003")
    ∷ (104, "0004")
    ∷ (105, "0005")
    ∷ []

guesses_fail : AllFail default_settings text_eq guesses open_session
unfolding login_run
guesses_fail = (refl, (refl, (refl, (refl, (refl, (refl, tt))))))

pins-HasKeys : HasKeys default_settings text_eq 1 open_session
pins-HasKeys = λ p q mp mq e. ground arith

times_compared-le_threshold_example :
    times_compared default_settings text_eq 1 guesses open_session ≤ 5
unfolding get
times_compared-le_threshold_example =
    times_compared-le_threshold default_settings text_eq 1 100 guesses open_session boss
      guesses_fail (omega arith) pins-HasKeys refl (omega arith)

-- The sixth guess is not compared.
five_compared : times_compared default_settings text_eq 1 guesses open_session ≡ 5
unfolding login_run any
five_compared = refl

attempt_login-failure_example :
    let s' = (attempt_login default_settings text_eq 100 "0000" open_session).1 in
    (s'.committed ≡ s'.current)
    × ((k : ℕ) (p : AdminPin)
        → pin_row default_settings text_eq k open_session ≡ some p
        → (p' : AdminPin) × (pin_row default_settings text_eq k s' ≡ some p')
          × IsCounted default_settings 100 p p')
attempt_login-failure_example =
    attempt_login-failure default_settings text_eq 100 "0000" open_session failed_login

require_admin_role_html-agrees_example :
    require_admin_role_html loads none open_session
    ≡ (html_outcome (require_admin_role loads none open_session).0, open_session)
require_admin_role_html-agrees_example = require_admin_role_html-agrees loads none open_session

require_admin_role_sound_example :
    Authenticated loads (some "token") open_session boss × (is_admin boss.role ≡ true)
unfolding require_admin_role
require_admin_role_sound_example =
    require_admin_role_sound loads (some "token") open_session boss refl

-- An agent whose key is its own hash.
abbrev agent : PrintStation
agent = record {
  id = 1;
  name = "desk";
  connection_type = StationConnectionType.usb_agent;
  lan_host = none;
  lan_port = 9100;
  paper_width_cols = 32;
  codepage = "cp437";
  api_key_hash = some "0123456789abcdef";
  api_key_prefix = some "0123456789ab";
  paired_at = some 50;
  is_active = true;
  last_seen_at = none;
}

abbrev agent_session : Session
agent_session =
    let db = record empty_db { print_stations = record { rows = agent ∷ []; next_id = 2 } } in
    record { committed = db; current = db }

agent_enters :
    (require_station_key text_eq 100 (some "Bearer 0123456789abcdef") agent_session).0
    ≡ returned (record agent { last_seen_at = some 100 })
unfolding require_station_key check_station_key accept_station find_station touch_station
    stations_with_prefix starts_with_lower strip after_space strip_left strip_right len take_chars
    select update
agent_enters = refl

require_station_key_sound_example :
    (header : String) × (some "Bearer 0123456789abcdef" ≡ some header)
    × (starts_with_lower "bearer " header ≡ true)
    × (old : PrintStation) × Opens text_eq 100 (strip (after_space header)) agent_session old
    × (record agent { last_seen_at = some 100 } ≡ record old { last_seen_at = some 100 })
require_station_key_sound_example =
    require_station_key_sound text_eq 100 (some "Bearer 0123456789abcdef") agent_session
      (record agent { last_seen_at = some 100 }) agent_enters
