-- ===== src/Stations/History.antt =====
-- Sequences of requests on stations.
use resaprint.Base.{ℕ, refl, Option, none, some, String, List, [], ◌∷◌, not, Bool, true, false}
use resaprint.Models.{PrintStation, AdminPin, Time, StationConnectionType}
use resaprint.Database.{
  Db, Action, integrity_error, gets, request, unless, Holds, Holds-pure, Holds-raise, Holds-gets,
  Holds-modify, Holds-commit, Holds-bind, Holds-then, Holds-or_raise, Holds-request,
}
use resaprint.Audit.{Detail, log}
use resaprint.Stations.Routes.{
  PrintStationCreate, new_station, create_station, paired, pair_station, pair_station_action,
  delete_station, create_station_action, delete_station_action, name_taken, get_print_station,
  find_print_station, store_key, no_attribute, log_and_remove_station, delete_if_station,
  stations_by_name, form_station, print_station_not_found,
}
use resaprint.Stations.Owned.{
  IsOwned, insert_station-IsOwned, set_station-IsOwned, remove_station-IsOwned,
}

-- One request that changes stations. The guards have run.
pub data Request : Type 0 where
  create : AdminPin → PrintStationCreate → Request
  create_form : AdminPin → String → StationConnectionType → String → ℕ → Request
  pair : Time → String → AdminPin → ℕ → Request
  pair_form : Time → String → AdminPin → ℕ → Request
  delete : AdminPin → ℕ → Request
  delete_form : AdminPin → ℕ → Request

abbrev Keeps : {A : Type 0} → Action A → Type 0
Keeps m = Holds IsOwned (λ _. Unit {0}) m

log-Keeps :
    (actor action : String) (entity_type : Option String) (entity_id : Option ℕ) (detail : Detail)
    → Keeps (log actor action entity_type entity_id detail)
log-Keeps actor action entity_type entity_id detail =
    Holds-modify _ (λ db h. record { jobs = h.jobs; settings = h.settings })

gets-Keeps : {A : Type 0} (f : Db → A) → Keeps (gets f)
gets-Keeps f = Holds-gets f (λ db h. tt)

find-Keeps : (k : ℕ) → Keeps (find_print_station k)
find-Keeps k =
    Holds-bind {P = λ _. Unit {0}} (gets-Keeps (get_print_station k))
      (λ o _. Holds-or_raise o print_station_not_found (λ _ _. tt))

create_station-Keeps :
    (admin : AdminPin) (payload : PrintStationCreate) → Keeps (create_station admin payload)
unfolding create_station
create_station-Keeps admin payload =
    Holds-bind {P = λ _. Unit {0}} (gets-Keeps (name_taken payload.name)) λ taken _.
      Holds-then {P = λ _. Unit {0}} (free taken) (
        Holds-bind {P = λ _. Unit {0}}
          (gets-Keeps (λ db. new_station payload db.print_stations.next_id))
          λ station _. Holds-then (Holds-modify _ (insert_station-IsOwned payload)) (
            Holds-then
              (log-Keeps admin.label "station.created" (some "print_station") (some station.id)
                none)
              (Holds-then Holds-commit (Holds-pure station tt))))
  where
    free : (taken : Bool) → Keeps (unless (not taken) integrity_error)
    free true = Holds-raise integrity_error
    free false = Holds-pure tt tt

log_and_remove_station-Keeps :
    (admin : AdminPin) (station : PrintStation) → Keeps (log_and_remove_station admin station)
log_and_remove_station-Keeps admin station =
    Holds-then (log-Keeps _ _ _ _ _)
      (Holds-then (Holds-modify _ (remove_station-IsOwned station.id)) Holds-commit)

module _ (hash : String → String) (now : Time) (api_key : String) (admin : AdminPin) where
  store_key-Keeps : (station : PrintStation) → Keeps (store_key hash now api_key admin station)
  store_key-Keeps station =
      Holds-then
        (Holds-modify _
          (λ db. set_station-IsOwned station.id (paired hash now api_key) db (λ s. refl)))
        (Holds-then (log-Keeps _ _ _ _ _) Holds-commit)

  pair_station-Keeps : (k : ℕ) → Keeps (pair_station hash now api_key admin k)
  unfolding pair_station
  pair_station-Keeps k =
      Holds-bind {P = λ _. Unit {0}} (find-Keeps k)
        (λ station _. Holds-then (store_key-Keeps station) (Holds-pure _ tt))

  pair_station_action-Keeps : (k : ℕ) → Keeps (pair_station_action hash now api_key admin k)
  unfolding pair_station_action
  pair_station_action-Keeps k =
      Holds-bind {P = λ _. Unit {0}} (gets-Keeps (get_print_station k)) λ o _.
        Holds-bind {P = λ _. Unit {0}} (Holds-or_raise o no_attribute (λ _ _. tt))
          (λ station _. Holds-then (store_key-Keeps station) (Holds-pure api_key tt))

module _ (hash : String → String) (le : String → String → Bool) where
  unfoldable pub serve : Request → Db → Db
  unfolding request
  serve (create admin payload) db = (request (create_station admin payload) db).1
  serve (create_form admin name kind host port) db =
      (request (create_station_action le admin name kind host port) db).1
  serve (pair now key admin k) db = (request (pair_station hash now key admin k) db).1
  serve (pair_form now key admin k) db = (request (pair_station_action hash now key admin k) db).1
  serve (delete admin k) db = (request (delete_station admin k) db).1
  serve (delete_form admin k) db = (request (delete_station_action le admin k) db).1

  unfoldable pub serve_all : List Request → Db → Db
  unfolding serve
  serve_all [] db = db
  serve_all (r ∷ rs) db = serve_all rs (serve r db)

  delete_if_station-Keeps :
      (admin : AdminPin) (o : Option PrintStation) → Keeps (delete_if_station le admin o)
  delete_if_station-Keeps admin none = Holds-pure tt tt
  delete_if_station-Keeps admin (some station) = log_and_remove_station-Keeps admin station

  serve-IsOwned : (r : Request) (db : Db) → IsOwned db → IsOwned (serve r db)
  unfolding serve delete_station create_station_action delete_station_action
  serve-IsOwned (create admin payload) db h =
      Holds-request _ db (create_station-Keeps admin payload) h
  serve-IsOwned (create_form admin name kind host port) db h =
      Holds-request _ db
        (Holds-then (create_station-Keeps admin (form_station name kind host port))
          (gets-Keeps (stations_by_name le)))
        h
  serve-IsOwned (pair now key admin k) db h =
      Holds-request _ db (pair_station-Keeps hash now key admin k) h
  serve-IsOwned (pair_form now key admin k) db h =
      Holds-request _ db (pair_station_action-Keeps hash now key admin k) h
  serve-IsOwned (delete admin k) db h =
      Holds-request _ db
        (Holds-bind {P = λ _. Unit {0}} (find-Keeps k)
          (λ station _. log_and_remove_station-Keeps admin station))
        h
  serve-IsOwned (delete_form admin k) db h =
      Holds-request _ db
        (Holds-then
          (Holds-bind {P = λ _. Unit {0}} (gets-Keeps (get_print_station k))
            (λ o _. delete_if_station-Keeps admin o))
          (gets-Keeps (stations_by_name le)))
        h

  -- If every job's station and the settings' station for automatic printing are in the table, then
  -- this holds after any sequence of requests that create, pair and delete stations.
  pub serve_all-IsOwned : (rs : List Request) (db : Db) → IsOwned db → IsOwned (serve_all rs db)
  unfolding serve_all
  serve_all-IsOwned [] db h = h
  serve_all-IsOwned (r ∷ rs) db h = serve_all-IsOwned rs (serve r db) (serve-IsOwned r db h)
