-- ===== src/Stations/Owned.antt =====
-- The stations that jobs and settings refer to, change by change.
use resaprint.Base.{
  ℕ, ◌≡◌, ◌≢◌, inl, inr, Option, none, some, List, [], ◌∷◌, ◌++◌, map, arith, In, All, select,
  update, delete, Bool-cases, ◌==◌, ==_iff,
}
use resaprint.Base.Lemmas.{In-append_left, In-update_of, In-update_self, In-delete_of, All-imp}
use resaprint.Models.{PrintStation, PrintJob, AppSettings}
use resaprint.Database.{Db, unset_if}
use resaprint.Stations.Routes.{
  PrintStationCreate, new_station, insert_station, set_station, is_of_other, unset_station,
  remove_station,
}

-- A row has the id.
abbrev pub HasStation : List PrintStation → ℕ → Type 0
HasStation ss k = (s : PrintStation) × In s ss × (s.id ≡ k)

abbrev pub HasStation? : List PrintStation → Option ℕ → Type 0
HasStation? ss none = Unit
HasStation? ss (some k) = HasStation ss k

-- Each job's station, and the station of the automatic printing, is in the table.
pub record IsOwned (db : Db) : Type 0 where
  pub jobs : All (λ j. HasStation db.print_stations.rows j.station_id) db.print_jobs.rows
  pub settings :
      All (λ row. HasStation? db.print_stations.rows row.auto_print_station_id) db.app_settings

-- A change of the stations that keeps every id in the table.
keep_ids :
    (ss ts : List PrintStation)
    → ((k : ℕ) → HasStation ss k → HasStation ts k)
    → (o : Option ℕ) → HasStation? ss o
    → HasStation? ts o
keep_ids ss ts keep none h = tt
keep_ids ss ts keep (some k) h = keep k h

with_stations :
    (db : Db) (ss : List PrintStation)
    → ((k : ℕ) → HasStation db.print_stations.rows k → HasStation ss k)
    → IsOwned db
    → All (λ j. HasStation ss j.station_id) db.print_jobs.rows
      × All (λ row. HasStation? ss row.auto_print_station_id) db.app_settings
with_stations db ss keep h = (
  All-imp _ _ db.print_jobs.rows (λ j. keep j.station_id) h.jobs,
  All-imp _ _ db.app_settings
      (λ row. keep_ids db.print_stations.rows ss keep row.auto_print_station_id) h.settings,
)

pub insert_station-IsOwned :
    (payload : PrintStationCreate) (db : Db) → IsOwned db → IsOwned (insert_station payload db)
insert_station-IsOwned payload db h =
    let row = new_station payload db.print_stations.next_id in
    let (jobs, settings) =
      with_stations db (db.print_stations.rows ++ row ∷ [])
        (λ k (s, m, e). (s, In-append_left s db.print_stations.rows (row ∷ []) m, e)) h in
    record { jobs = jobs; settings = settings }

pub set_station-IsOwned :
    (k : ℕ) (f : PrintStation → PrintStation) (db : Db)
    → ((s : PrintStation) → (f s).id ≡ s.id)
    → IsOwned db
    → IsOwned (set_station k f db)
set_station-IsOwned k f db keeps h =
    let (jobs, settings) =
      with_stations db (update (λ s. s.id) k f db.print_stations.rows)
        (λ j (s, m, e). elim (Bool-cases (s.id == k)) [
          | inl t ↦
              let same : s.id ≡ k = (==_iff s.id k).0 t in
              (f s, In-update_self (λ s. s.id) k f s db.print_stations.rows m same, rw (keeps s) e)
          | inr g ↦ (s, In-update_of (λ s. s.id) k f s db.print_stations.rows m (ground arith), e)
        ])
        h in
    record { jobs = jobs; settings = settings }

-- Deleting a station.
keep_other :
    (k : ℕ) (ss : List PrintStation) (j : ℕ)
    → j ≢ k
    → HasStation ss j
    → HasStation (delete (λ s. s.id) k ss) j
keep_other k ss j ne (s, m, e) = (s, In-delete_of (λ s. s.id) k s ss m (ground arith), e)

jobs_of_others :
    (k : ℕ) (ss : List PrintStation) (jobs : List PrintJob)
    → All (λ j. HasStation ss j.station_id) jobs
    → All (λ j. HasStation (delete (λ s. s.id) k ss) j.station_id) (select (is_of_other k) jobs)
unfolding select
jobs_of_others k ss [] h = tt
jobs_of_others k ss (j ∷ jobs) h = elim (Bool-cases (j.station_id == k)) [
  | inl t ↦ rw t (jobs_of_others k ss jobs h.1)
  | inr f ↦ rw f (keep_other k ss j.station_id (ground arith) h.0, jobs_of_others k ss jobs h.1)
]

unset-HasStation? :
    (k : ℕ) (ss : List PrintStation) (o : Option ℕ)
    → HasStation? ss o
    → HasStation? (delete (λ s. s.id) k ss) (unset_if k o)
unset-HasStation? k ss none h = tt
unset-HasStation? k ss (some j) h = elim (Bool-cases (j == k)) [
  | inl t ↦ rw t tt
  | inr f ↦ rw f (keep_other k ss j (ground arith) h)
]

settings_of_others :
    (k : ℕ) (ss : List PrintStation) (settings : List AppSettings)
    → All (λ row. HasStation? ss row.auto_print_station_id) settings
    → All
        (λ row. HasStation? (delete (λ s. s.id) k ss) row.auto_print_station_id)
        (map (unset_station k) settings)
settings_of_others k ss [] h = tt
settings_of_others k ss (row ∷ settings) h =
    (unset-HasStation? k ss row.auto_print_station_id h.0, settings_of_others k ss settings h.1)

pub remove_station-IsOwned : (k : ℕ) (db : Db) → IsOwned db → IsOwned (remove_station k db)
unfolding remove_station
remove_station-IsOwned k db h = record {
  jobs = jobs_of_others k db.print_stations.rows db.print_jobs.rows h.jobs;
  settings = settings_of_others k db.print_stations.rows db.app_settings h.settings;
}
