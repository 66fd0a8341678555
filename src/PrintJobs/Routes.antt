-- ===== src/PrintJobs/Routes.antt =====
-- The routes. The guards of Auth run before them and hand over the `admin` or the `station`.
use resaprint.Base.{
  ℕ, ◌+◌, Bool, true, false, ◌&&◌, Option, none, some, String, List, [], ◌∷◌, map, if◌then◌else◌,
  select, order_by, leb, ◌==◌,
}
use resaprint.Models.{PrintJob, PrintJobStatus, PrintStation, AdminPin, Time, Json}
use resaprint.Database.{
  Db, Action, Exception, http_error, pure, raise, gets, or_raise, modify, commit, ◌>>=◌, ◌>>◌,
}
use resaprint.Audit.{log, log_row}
use resaprint.Text.{splitlines}
use resaprint.Escpos.{ReceiptBuilder, new_builder, line, feed_lines, cut_paper, build}
use resaprint.PrintJobs.Dispatch.{
  Send, save_job, add_job, get_job, get_station, new_job, dispatch_if_lan,
}

abbrev pub same_status : PrintJobStatus → PrintJobStatus → Bool
same_status PrintJobStatus.queued PrintJobStatus.queued = true
same_status PrintJobStatus.sent PrintJobStatus.sent = true
same_status PrintJobStatus.printed PrintJobStatus.printed = true
same_status PrintJobStatus.failed PrintJobStatus.failed = true
same_status PrintJobStatus.cancelled PrintJobStatus.cancelled = true
same_status _ _ = false

abbrev pub status_value : PrintJobStatus → String
status_value PrintJobStatus.queued = "queued"
status_value PrintJobStatus.sent = "sent"
status_value PrintJobStatus.printed = "printed"
status_value PrintJobStatus.failed = "failed"
status_value PrintJobStatus.cancelled = "cancelled"

abbrev pub job_not_found : Exception
job_not_found = http_error 404 "print job not found"

abbrev pub station_not_found : Exception
station_not_found = http_error 404 "station not found or inactive"

-- A filter that may be absent.
abbrev pub passes {ℓ} : {A : Type ℓ} → Option A → (A → Bool) → Bool
passes none p = true
passes (some a) p = p a

unfoldable pub list_print_jobs : Option PrintJobStatus → Option ℕ → Action (List PrintJob)
unfolding select order_by
list_print_jobs status_filter station_id = gets (λ db.
    select
      (λ j.
        passes status_filter (same_status j.status) && passes station_id (λ k. j.station_id == k))
      (order_by (λ a b. leb b.created_at a.created_at) db.print_jobs.rows))

abbrev pub is_waiting : PrintStation → PrintJob → Bool
is_waiting station j = j.station_id == station.id && same_status j.status PrintJobStatus.queued

abbrev pub mark_sent : Time → PrintJob → PrintJob
mark_sent now j = record j { status = PrintJobStatus.sent; sent_at = some now }

abbrev pub mark_if_waiting : Time → PrintStation → PrintJob → PrintJob
mark_if_waiting now station j = if is_waiting station j then mark_sent now j else j

-- The loop over the jobs that were found.
abbrev pub mark_waiting_jobs : Time → PrintStation → Db → Db
mark_waiting_jobs now station db = record db {
  print_jobs = record db.print_jobs { rows = map (mark_if_waiting now station) db.print_jobs.rows };
}

unfoldable pub poll_print_jobs : Time → PrintStation → Action (List PrintJob)
unfolding select
poll_print_jobs now station = do
  jobs ← gets (λ db. select (is_waiting station) db.print_jobs.rows)
  modify (mark_waiting_jobs now station)
  commit
  pure (map (mark_sent now) jobs)

unfoldable pub get_print_job : ℕ → Action PrintJob
get_print_job job_id = do or_raise (← gets (get_job job_id)) job_not_found

-- `station is None or not station.is_active`
abbrev pub active_station : Option PrintStation → Action PrintStation
active_station none = raise station_not_found
active_station (some station) = if station.is_active then pure station else raise station_not_found

unfoldable pub cancel_print_job : AdminPin → ℕ → Action PrintJob
unfolding save_job
cancel_print_job admin job_id = do
  job ← gets (get_job job_id) >>= λ j. or_raise j job_not_found
  let job' = record job { status = PrintJobStatus.cancelled }
  save_job job'
  log_row admin.label "print_job.cancelled" "print_job" job.id
  commit
  pure job'

-- The attributes that `ack_print_job` assigns.
abbrev pub acked : Time → PrintJobStatus → Option String → PrintJob → PrintJob
acked now status error job = record job {
  status = status;
  attempts = job.attempts + 1;
  printed_at = if same_status status PrintJobStatus.printed then some now else job.printed_at;
  last_error = if same_status status PrintJobStatus.failed then error else job.last_error;
}

abbrev pub json_text : Option String → Json
json_text none = Json.null
json_text (some s) = Json.text s

abbrev pub own_job : PrintStation → Option PrintJob → Action PrintJob
own_job station none = raise job_not_found
own_job station (some job) = if job.station_id == station.id then pure job else raise job_not_found

unfoldable pub ack_print_job :
    Time → PrintStation → ℕ → PrintJobStatus → Option String → Action PrintJob
unfolding save_job
ack_print_job now station job_id status error = do
  job ← gets (get_job job_id) >>= own_job station
  let job' = acked now status error job
  save_job job'
  log station.name "print_job.ack" (some "print_job") (some job.id)
      (some (("status", Json.text (status_value status)) ∷ ("error", json_text error) ∷ []))
  commit
  pure job'

module _ (encode : String → String → List ℕ) where
  -- `for line in payload_text.splitlines() or [""]: builder.line(line)`
  unfoldable pub add_lines : List String → ReceiptBuilder → ReceiptBuilder
  unfolding line
  add_lines [] b = b
  add_lines (text ∷ texts) b = add_lines texts (line encode text b)

  abbrev pub or_blank : List String → List String
  or_blank [] = "" ∷ []
  or_blank (text ∷ texts) = text ∷ texts

  unfoldable pub manual_bytes : PrintStation → String → List ℕ
  unfolding add_lines splitlines new_builder feed_lines cut_paper
  manual_bytes station payload_text = build encode (
      cut_paper encode true (
        feed_lines encode 3 (
          add_lines (or_blank (splitlines payload_text))
            (new_builder encode station.codepage false))))

module _ (encode : String → String → List ℕ) (send : Send) (now : Time) where
  unfoldable pub create_manual_print_job : AdminPin → ℕ → String → Action PrintJob
  unfolding manual_bytes dispatch_if_lan
  create_manual_print_job admin station_id payload_text = do
    station ← gets (get_station station_id) >>= active_station
    job ← add_job (
        new_job send now station none payload_text (manual_bytes encode station payload_text)
          (some admin.label))
    job' ← dispatch_if_lan send now job station
    log_row admin.label "print_job.created_manual" "print_job" job.id
    commit
    pure job'

module _ (send : Send) (now : Time) where
  abbrev pub dispatch_if_station : PrintJob → Option PrintStation → Action PrintJob
  dispatch_if_station job none = pure job
  dispatch_if_station job (some station) = dispatch_if_lan send now job station

  unfoldable pub retry_print_job : AdminPin → ℕ → Action PrintJob
  unfolding save_job dispatch_if_lan
  retry_print_job admin job_id = do
    job ← gets (get_job job_id) >>= λ j. or_raise j job_not_found
    let job' = record job { status = PrintJobStatus.queued; last_error = none }
    save_job job'
    station ← gets (get_station job.station_id)
    job'' ← dispatch_if_station job' station
    log_row admin.label "print_job.retried" "print_job" job.id
    commit
    pure job''
