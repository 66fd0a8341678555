-- ===== src/PrintJobs/Dispatch.antt =====
-- Creating a job and sending it to a LAN printer. The socket is the parameter `send`.
use resaprint.Base.{
  ℕ, ◌+◌, Bool, true, false, Option, none, some, String, List, if◌then◌else◌, get, update,
}
use resaprint.Models.{PrintJob, PrintJobStatus, PrintStation, StationConnectionType, Time}
use resaprint.Database.{
  Db, Action, other_error, pure, raise, gets, modify, commit, table_add, ◌>>=◌, ◌>>◌,
}

-- How `send_lan_escpos` ends: normally, with an OSError or a timeout, or with another exception.
pub data SendResult : Type 0 where
  delivered : SendResult
  unreachable : (error : String) → SendResult
  crashed : (error : String) → SendResult

abbrev pub Send : Type 0
Send = Option String → ℕ → Option (List ℕ) → SendResult

abbrev pub is_lan : PrintStation → Bool
is_lan s = elim s.connection_type [
  | StationConnectionType.lan_escpos ↦ true
  | StationConnectionType.usb_agent ↦ false
]

-- What the session writes back of a job whose attributes were assigned.
unfoldable pub save_job : PrintJob → Action (Unit {0})
unfolding update
save_job job = modify (λ db. record db {
  print_jobs = record db.print_jobs {
    rows = update (λ j. j.id) job.id (λ _. job) db.print_jobs.rows;
  };
})

abbrev pub insert_job : (ℕ → PrintJob) → Db → Db
insert_job row db = record db { print_jobs = table_add row db.print_jobs }

abbrev pub add_job : (ℕ → PrintJob) → Action PrintJob
add_job row = do job ← gets (λ db. row db.print_jobs.next_id); modify (insert_job row); pure job

abbrev pub get_job : ℕ → Db → Option PrintJob
get_job k db = get (λ j. j.id) k db.print_jobs.rows

abbrev pub get_station : ℕ → Db → Option PrintStation
get_station k db = get (λ s. s.id) k db.print_stations.rows

module _ (send : Send) (now : Time) where
  -- The job after an attempt, or the exception that is not caught; the attempt is counted before.
  unfoldable pub after_send : SendResult → PrintJob → Action PrintJob
  unfolding save_job
  after_send delivered job =
      let job' = record job {
        attempts = job.attempts + 1;
        status = PrintJobStatus.printed;
        sent_at = some now;
        printed_at = some now;
      } in
      save_job job' >> pure job'
  after_send (unreachable error) job =
      let job' = record job {
        attempts = job.attempts + 1;
        status = PrintJobStatus.failed;
        last_error = some error;
      } in
      save_job job' >> pure job'
  after_send (crashed error) job =
      save_job (record job { attempts = job.attempts + 1 }) >> raise (other_error error)

  unfoldable pub dispatch_lan_job : PrintJob → PrintStation → Action PrintJob
  unfolding after_send
  dispatch_lan_job job station =
      after_send (send station.lan_host station.lan_port job.escpos_bytes) job

  -- `if station.connection_type == lan_escpos: await dispatch_lan_job(...)`
  unfoldable pub dispatch_if_lan : PrintJob → PrintStation → Action PrintJob
  unfolding dispatch_lan_job
  dispatch_if_lan job station = if is_lan station then dispatch_lan_job job station else pure job

  abbrev pub new_job : PrintStation → Option ℕ → String → List ℕ → Option String → ℕ → PrintJob
  new_job station reservation_id payload_text escpos_bytes requested_by id = record {
    id = id;
    reservation_id = reservation_id;
    station_id = station.id;
    status = PrintJobStatus.queued;
    payload_text = payload_text;
    escpos_bytes = some escpos_bytes;
    attempts = 0;
    last_error = none;
    requested_by = requested_by;
    created_at = now;
    sent_at = none;
    printed_at = none;
  }

  unfoldable pub enqueue_print_job :
      PrintStation → Option ℕ → String → List ℕ → Option String → Action PrintJob
  unfolding dispatch_if_lan
  enqueue_print_job station reservation_id payload_text escpos_bytes requested_by = do
    job ← add_job (new_job station reservation_id payload_text escpos_bytes requested_by)
    job' ← dispatch_if_lan job station
    commit
    pure job'
