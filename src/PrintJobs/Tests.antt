-- ===== src/PrintJobs/Tests.antt =====
-- Print jobs of a LAN printer and of a USB station.
use resaprint.Base.{
  ℕ, ◌≡◌, ◌⊎◌, refl, true, none, some, String, List, [], ◌∷◌, arith, select, get, update,
}
use resaprint.Models.{
  PrintJob, PrintJobStatus, PrintStation, StationConnectionType, AdminPin, AdminRole,
}
use resaprint.Database.{Db, Session, empty_db, returned, raised, http_error, other_error, request}
use resaprint.PrintJobs.{
  Send, unreachable, crashed, get_job, save_job, after_send, dispatch_lan_job, dispatch_if_lan,
  enqueue_print_job, poll_print_jobs, ack_print_job, retry_print_job, cancel_print_job,
  get_print_job, new_job,
}
use resaprint.PrintJobs.Queue.{poll_print_jobs-drains}
use resaprint.PrintJobs.Delivery.{HasFreshIds, Settled, enqueue_print_job-lan}
use resaprint.PrintJobs.Steps.{IsSound}
use resaprint.PrintJobs.History.{poll, ack, retry, serve_all, serve_all-IsSound}

abbrev station : ℕ → StationConnectionType → PrintStation
station id connection_type = record {
  id = id;
  name = "desk";
  connection_type = connection_type;
  lan_host = some "10.0.0.9";
  lan_port = 9100;
  paper_width_cols = 48;
  codepage = "cp858";
  api_key_hash = none;
  api_key_prefix = none;
  paired_at = none;
  is_active = true;
  last_seen_at = none;
}

abbrev lan : PrintStation
lan = station 1 StationConnectionType.lan_escpos

abbrev usb : PrintStation
usb = station 2 StationConnectionType.usb_agent

abbrev queued_job : ℕ → ℕ → PrintJob
queued_job id station_id = record {
  id = id;
  reservation_id = none;
  station_id = station_id;
  status = PrintJobStatus.queued;
  payload_text = "hello";
  escpos_bytes = some (27 ∷ 64 ∷ []);
  attempts = 0;
  last_error = none;
  requested_by = some "Boss";
  created_at = 50;
  sent_at = none;
  printed_at = none;
}

-- One job waits for the USB station, one for another.
abbrev queue : Db
queue = record empty_db {
  print_jobs = record { rows = queued_job 1 2 ∷ queued_job 2 3 ∷ []; next_id = 3 };
}

abbrev open_session : Session
open_session = record { committed = queue; current = queue }

-- No printer answers.
abbrev send : Send
send host port bytes = unreachable "connection refused"

abbrev encode : String → String → List ℕ
encode codepage text = []

abbrev boss : AdminPin
boss = record {
  id = 1;
  label = "Boss";
  pin_hash = "1234";
  role = AdminRole.admin;
  is_active = true;
  failed_attempts = 0;
  locked_until = none;
  last_login_at = none;
}

abbrev failed_job : PrintJob
failed_job = record (queued_job 3 1) {
  status = PrintJobStatus.failed;
  attempts = 1;
  created_at = 100;
  last_error = some "connection refused";
}

jobs_run : Unit {0}
unfolding request select get update enqueue_print_job dispatch_if_lan dispatch_lan_job after_send
    save_job poll_print_jobs ack_print_job retry_print_job cancel_print_job get_print_job
jobs_run = tt

polled :
    (poll_print_jobs 100 usb open_session).0
    ≡ returned (record (queued_job 1 2) { status = PrintJobStatus.sent; sent_at = some 100 } ∷ [])
unfolding jobs_run
polled = refl

-- The station of job 1 is another one.
foreign_ack :
    (request (ack_print_job 100 lan 1 PrintJobStatus.printed none) queue).0
    ≡ raised (http_error 404 "print job not found")
unfolding jobs_run
foreign_ack = refl

-- An agent may acknowledge a job with any status, and it is then handed out again.
ack_queued :
    (poll_print_jobs 300 usb
      (ack_print_job 200 usb 1 PrintJobStatus.queued none
        (poll_print_jobs 100 usb open_session).1).1).0
    ≡ returned (
        record (queued_job 1 2) { status = PrintJobStatus.sent; sent_at = some 300; attempts = 1 }
        ∷ [])
unfolding jobs_run
ack_queued = refl

poll_print_jobs-drains_example :
    let s' = (poll_print_jobs 100 usb open_session).1 in
    (s'.committed ≡ s'.current) × ((poll_print_jobs 200 usb s').0 ≡ returned [])
poll_print_jobs-drains_example = poll_print_jobs-drains 100 usb 200 open_session

queue-HasFreshIds : HasFreshIds queue
queue-HasFreshIds = (omega arith, (omega arith, tt))

enqueued :
    (enqueue_print_job send 100 lan none "hello" (27 ∷ 64 ∷ []) (some "Boss") open_session).0
    ≡ returned failed_job
unfolding jobs_run
enqueued = refl

enqueue_print_job-lan_example :
    let result =
      enqueue_print_job send 100 lan none "hello" (27 ∷ 64 ∷ []) (some "Boss") open_session in
    let answer = send lan.lan_host lan.lan_port (some (27 ∷ 64 ∷ [])) in
    ((error : String) × (answer ≡ crashed error)
      × (result.0 ≡ raised (other_error error))
      × (result.1.committed ≡ queue)
      × (get_job queue.print_jobs.next_id result.1.current
          ≡ some
              (record (new_job send 100 lan none "hello"
                (27 ∷ 64 ∷ [])
                (some "Boss")
                queue.print_jobs.next_id) { attempts = 1 })))
    ⊎ ((job : PrintJob) × (result.0 ≡ returned job)
        × Settled answer job
        × (job.attempts ≡ 1)
        × (get_job job.id result.1.committed ≡ some job))
enqueue_print_job-lan_example =
    enqueue_print_job-lan send 100 lan none "hello" (27 ∷ 64 ∷ []) (some "Boss") open_session
      queue-HasFreshIds refl

queue-IsSound : IsSound queue
queue-IsSound = record { fresh = queue-HasFreshIds; dated = (λ e. cc, (λ e. cc, tt)) }

serve_all-IsSound_example : IsSound (
    serve_all encode send
      (poll 100 usb ∷ ack 110 usb 1 PrintJobStatus.printed none ∷ retry 120 boss 2 ∷ [])
      queue)
serve_all-IsSound_example =
    serve_all-IsSound encode send
      (poll 100 usb ∷ ack 110 usb 1 PrintJobStatus.printed none ∷ retry 120 boss 2 ∷ []) queue
      queue-IsSound
