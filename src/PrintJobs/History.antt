-- ===== src/PrintJobs/History.antt =====
-- Sequences of requests on print jobs.
use resaprint.Base.{ℕ, Option, String, List, [], ◌∷◌}
use resaprint.Models.{PrintJobStatus, PrintStation, AdminPin, Time}
use resaprint.Database.{Db, request, Holds-request}
use resaprint.PrintJobs.Dispatch.{Send, enqueue_print_job}
use resaprint.PrintJobs.Routes.{
  poll_print_jobs, cancel_print_job, ack_print_job, create_manual_print_job, retry_print_job,
}
use resaprint.PrintJobs.Steps.{
  IsSound, enqueue_print_job-Holds, create_manual_print_job-Holds, poll_print_jobs-Holds,
  ack_print_job-Holds, retry_print_job-Holds, cancel_print_job-Holds,
}

-- One request that concerns print jobs. The guards have run; a refused guard changes no job.
pub data Request : Type 0 where
  enqueue : Time → PrintStation → Option ℕ → String → List ℕ → Option String → Request
  create_manual : Time → AdminPin → ℕ → String → Request
  poll : Time → PrintStation → Request
  ack : Time → PrintStation → ℕ → PrintJobStatus → Option String → Request
  retry : Time → AdminPin → ℕ → Request
  cancel : AdminPin → ℕ → Request

module _ (encode : String → String → List ℕ) (send : Send) where
  unfoldable pub serve : Request → Db → Db
  unfolding request
  serve (enqueue now station reservation_id text bytes by) db =
      (request (enqueue_print_job send now station reservation_id text bytes by) db).1
  serve (create_manual now admin k text) db =
      (request (create_manual_print_job encode send now admin k text) db).1
  serve (poll now station) db = (request (poll_print_jobs now station) db).1
  serve (ack now station k status error) db =
      (request (ack_print_job now station k status error) db).1
  serve (retry now admin k) db = (request (retry_print_job send now admin k) db).1
  serve (cancel admin k) db = (request (cancel_print_job admin k) db).1

  unfoldable pub serve_all : List Request → Db → Db
  unfolding serve
  serve_all [] db = db
  serve_all (r ∷ rs) db = serve_all rs (serve r db)

  serve-IsSound : (r : Request) (db : Db) → IsSound db → IsSound (serve r db)
  unfolding serve
  serve-IsSound (enqueue now station reservation_id text bytes by) db h =
      Holds-request _ db (enqueue_print_job-Holds send now station reservation_id text bytes by) h
  serve-IsSound (create_manual now admin k text) db h =
      Holds-request _ db (create_manual_print_job-Holds send now encode admin k text) h
  serve-IsSound (poll now station) db h = Holds-request _ db (poll_print_jobs-Holds now station) h
  serve-IsSound (ack now station k status error) db h =
      Holds-request _ db (ack_print_job-Holds now station k status error) h
  serve-IsSound (retry now admin k) db h =
      Holds-request _ db (retry_print_job-Holds send now admin k) h
  serve-IsSound (cancel admin k) db h = Holds-request _ db (cancel_print_job-Holds admin k) h

  -- If the ids of the jobs are below the sequence's next number and every printed job is dated,
  -- then this holds after any sequence of requests on jobs, whatever the printers and the agents
  -- answer.
  pub serve_all-IsSound : (rs : List Request) (db : Db) → IsSound db → IsSound (serve_all rs db)
  unfolding serve_all
  serve_all-IsSound [] db h = h
  serve_all-IsSound (r ∷ rs) db h = serve_all-IsSound rs (serve r db) (serve-IsSound r db h)
