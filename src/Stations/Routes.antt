-- ===== src/Stations/Routes.antt =====
-- Creating, pairing and deleting stations. `secrets.token_urlsafe(32)` is the parameter `api_key`,
-- bcrypt the parameter `hash`. The name of a station is unique.
use resaprint.Base.{
  ℕ, Bool, true, not, Option, none, some, String, List, [], ◌∷◌, any, get, update, delete, select,
  order_by, text_eq, or_none, ◌==◌, map,
}
use resaprint.Models.{
  PrintStation, StationConnectionType, PrintJob, AppSettings, AdminPin, Time, Json,
}
use resaprint.Database.{
  Db, Action, Exception, http_error, integrity_error, other_error, pure, gets, or_raise, modify,
  commit, unless, table_add, table_delete, table_update, unset_if, ◌>>=◌, ◌>>◌,
}
use resaprint.Audit.{log, log_row}
use resaprint.Text.{take_chars}

pub record PrintStationCreate : Type 0 where
  pub name : String
  pub connection_type : StationConnectionType
  pub lan_host : Option String
  pub lan_port : ℕ
  pub paper_width_cols : ℕ
  pub codepage : String

pub record PairResponse : Type 0 where
  pub station_id : ℕ
  pub api_key : String

abbrev pub get_print_station : ℕ → Db → Option PrintStation
get_print_station k db = get (λ s. s.id) k db.print_stations.rows

abbrev pub print_station_not_found : Exception
print_station_not_found = http_error 404 "station not found"

abbrev pub find_print_station : ℕ → Action PrintStation
find_print_station k = gets (get_print_station k) >>= λ o. or_raise o print_station_not_found

-- `le` is the database's order of texts.
unfoldable pub stations_by_name : (String → String → Bool) → Db → List PrintStation
unfolding order_by
stations_by_name le db = order_by (λ a b. le a.name b.name) db.print_stations.rows

abbrev pub list_stations : (String → String → Bool) → Action (List PrintStation)
list_stations le = gets (stations_by_name le)

unfoldable pub name_taken : String → Db → Bool
unfolding any
name_taken name db = any (λ s. text_eq s.name name) db.print_stations.rows

abbrev pub new_station : PrintStationCreate → ℕ → PrintStation
new_station payload id = record {
  id = id;
  name = payload.name;
  connection_type = payload.connection_type;
  lan_host = payload.lan_host;
  lan_port = payload.lan_port;
  paper_width_cols = payload.paper_width_cols;
  codepage = payload.codepage;
  api_key_hash = none;
  api_key_prefix = none;
  paired_at = none;
  is_active = true;
  last_seen_at = none;
}

abbrev pub insert_station : PrintStationCreate → Db → Db
insert_station payload db = record db {
  print_stations = table_add (new_station payload) db.print_stations;
}

unfoldable pub create_station : AdminPin → PrintStationCreate → Action PrintStation
unfolding name_taken
create_station admin payload = do
  taken ← gets (name_taken payload.name)
  unless (not taken) integrity_error
  station ← gets (λ db. new_station payload db.print_stations.next_id)
  modify (insert_station payload)
  log_row admin.label "station.created" "print_station" station.id
  commit
  pure station

abbrev pub paired : (String → String) → Time → String → PrintStation → PrintStation
paired hash now api_key s = record s {
  api_key_hash = some (hash api_key);
  api_key_prefix = some (take_chars 12 api_key);
  paired_at = some now;
}

abbrev pub set_station : ℕ → (PrintStation → PrintStation) → Db → Db
set_station k f db = record db { print_stations = table_update (λ s. s.id) k f db.print_stations }

-- ON DELETE: the station's jobs go with it, and the settings lose it.
abbrev pub is_of_other : ℕ → PrintJob → Bool
is_of_other k j = not (j.station_id == k)

abbrev pub unset_station : ℕ → AppSettings → AppSettings
unset_station k row = record row { auto_print_station_id = unset_if k row.auto_print_station_id }

unfoldable pub remove_station : ℕ → Db → Db
unfolding select delete
remove_station k db = record db {
  print_stations = table_delete (λ s. s.id) k db.print_stations;
  print_jobs = record db.print_jobs { rows = select (is_of_other k) db.print_jobs.rows };
  app_settings = map (unset_station k) db.app_settings;
}

abbrev pub log_and_remove_station : AdminPin → PrintStation → Action (Unit {0})
log_and_remove_station admin station = do
  log admin.label "station.deleted" (some "print_station") (some station.id)
      (some (("name", Json.text station.name) ∷ []))
  modify (remove_station station.id)
  commit

unfoldable pub delete_station : AdminPin → ℕ → Action (Unit {0})
unfolding remove_station
delete_station admin station_id = find_print_station station_id >>= log_and_remove_station admin

unfoldable pub station_status : ℕ → Action PrintStation
station_status station_id = find_print_station station_id

abbrev pub no_attribute : Exception
no_attribute = other_error "'NoneType' object has no attribute 'api_key_hash'"

module _ (hash : String → String) (now : Time) (api_key : String) where
  abbrev pub store_key : AdminPin → PrintStation → Action (Unit {0})
  store_key admin station = do
    modify (set_station station.id (paired hash now api_key))
    log_row admin.label "station.paired" "print_station" station.id
    commit

  unfoldable pub pair_station : AdminPin → ℕ → Action PairResponse
  unfolding update
  pair_station admin station_id = do
    station ← find_print_station station_id
    store_key admin station
    pure (record { station_id = station.id; api_key = api_key })

  -- The form action assigns to the row without a test; `None` has no such attribute.
  unfoldable pub pair_station_action : AdminPin → ℕ → Action String
  unfolding update
  pair_station_action admin station_id = do
    found ← gets (get_print_station station_id)
    station ← or_raise found no_attribute
    store_key admin station
    pure api_key

abbrev pub form_station : String → StationConnectionType → String → ℕ → PrintStationCreate
form_station name connection_type lan_host lan_port = record {
  name = name;
  connection_type = connection_type;
  lan_host = or_none lan_host;
  lan_port = lan_port;
  paper_width_cols = 42;
  codepage = "cp437";
}

module _ (le : String → String → Bool) where
  -- The page that the form actions end with.
  unfoldable pub create_station_action :
      AdminPin → String → StationConnectionType → String → ℕ → Action (List PrintStation)
  unfolding create_station stations_by_name
  create_station_action admin name connection_type lan_host lan_port =
      create_station admin (form_station name connection_type lan_host lan_port) >> list_stations le

  abbrev pub delete_if_station : AdminPin → Option PrintStation → Action (Unit {0})
  delete_if_station admin none = pure tt
  delete_if_station admin (some station) = log_and_remove_station admin station

  unfoldable pub delete_station_action : AdminPin → ℕ → Action (List PrintStation)
  unfolding remove_station stations_by_name
  delete_station_action admin station_id =
      gets (get_print_station station_id) >>= delete_if_station admin >> list_stations le
