-- ===== src/Stations/Tests.antt =====
-- A station that is created, paired and deleted; here a key is its own hash.
use resaprint.Base.{
  update, get, any, ◌≡◌, refl, Bool, true, none, some, String, List, [], ◌∷◌, text_eq,
}
use resaprint.Models.{AdminPin, AdminRole, PrintStation, StationConnectionType}
use resaprint.Database.{Session, empty_db, returned, raised, integrity_error}
use resaprint.Auth.{require_station_key, invalid_key}
use resaprint.Text.{len, take_chars, strip_left, strip_right, strip, after_space}
use resaprint.Auth.{starts_with_lower}
use resaprint.Stations.{
  PrintStationCreate, create_station, name_taken, pair_station, pair_station_action, no_attribute,
  paired,
}
use resaprint.Stations.Pairing.{pair_station-opens, pair_station-revokes}
use resaprint.Stations.History.{Request, create, pair, delete_form, serve_all, serve_all-IsOwned}
use resaprint.Stations.Owned.{IsOwned}

abbrev boss : AdminPin
boss = record {
  id = 1;
  label = "Boss";
  pin_hash = "1234";
  role = AdminRole.admin;
  is_active = true;
  failed_attempts = 0;
  locked_until = none;
  last_login_at = none;
}

abbrev kitchen : PrintStation
kitchen = record {
  id = 1;
  name = "kitchen";
  connection_type = StationConnectionType.usb_agent;
  lan_host = none;
  lan_port = 9100;
  paper_width_cols = 42;
  codepage = "cp437";
  api_key_hash = some "aaaabbbbccccdddd";
  api_key_prefix = some "aaaabbbbcccc";
  paired_at = some 5;
  is_active = true;
  last_seen_at = none;
}

abbrev kitchen_only : Session
kitchen_only =
    let db = record empty_db { print_stations = record { rows = kitchen ∷ []; next_id = 2 } } in
    record { committed = db; current = db }

text_run : Unit {0}
unfolding starts_with_lower strip after_space strip_left strip_right len take_chars get update
text_run = tt

abbrev hash : String → String
hash key = key

-- Pairing a station that is not there is an unhandled exception in the form action.
pair_absent :
    (pair_station_action hash 9 "0123456789abcdef" boss 7 kitchen_only).0 ≡ raised no_attribute
unfolding text_run pair_station_action
pair_absent = refl

-- The name of a station is unique.
abbrev twin : PrintStationCreate
twin = record {
  name = "kitchen";
  connection_type = StationConnectionType.lan_escpos;
  lan_host = some "10.0.0.5";
  lan_port = 9100;
  paper_width_cols = 42;
  codepage = "cp437";
}

create_twin : (create_station boss twin kitchen_only).0 ≡ raised integrity_error
unfolding create_station name_taken any
create_twin = refl

pair_station-opens_example :
    let s' = (pair_station hash 9 "0123456789abcdef" boss 1 kitchen_only).1 in
    ((pair_station hash 9 "0123456789abcdef" boss 1 kitchen_only).0
      ≡ returned (record { station_id = 1; api_key = "0123456789abcdef" }))
    × (s'.committed ≡ s'.current)
    × ((require_station_key text_eq 10 (some "Bearer 0123456789abcdef") s').0
        ≡ returned (record (paired hash 9 "0123456789abcdef" kitchen) { last_seen_at = some 10 }))
unfolding text_run
pair_station-opens_example =
    pair_station-opens hash 9 "0123456789abcdef" boss text_eq 10 1 kitchen kitchen_only
      "Bearer 0123456789abcdef" refl (tt, tt) (refl, tt) (refl, refl) (refl, refl) refl
      (refl, refl, refl)

pair_station-revokes_example :
    (require_station_key text_eq 10
      (some "Bearer aaaabbbbccccdddd")
      (pair_station hash 9 "0123456789abcdef" boss 1 kitchen_only).1).0
    ≡ raised invalid_key
unfolding text_run
pair_station-revokes_example =
    pair_station-revokes hash 9 "0123456789abcdef" boss text_eq 10 1 kitchen kitchen_only
      "Bearer aaaabbbbccccdddd" refl refl ((λ e. absurd (cc)), tt) (refl, refl)

abbrev text_le : String → String → Bool
text_le a b = true

abbrev day : List Request
day = pair 9 "0123456789abcdef" boss 1 ∷ create boss twin ∷ delete_form boss 1 ∷ []

serve_all-IsOwned_example : IsOwned (serve_all hash text_le day kitchen_only.current)
serve_all-IsOwned_example =
    serve_all-IsOwned hash text_le day kitchen_only.current (record { jobs = tt; settings = tt })
