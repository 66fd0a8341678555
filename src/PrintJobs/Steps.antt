-- ===== src/PrintJobs/Steps.antt =====
-- Each request on print jobs, step by step: fresh ids and dated jobs.
use resaprint.Base.{
  ℕ, ◌+◌, ◌<◌, ◌≡◌, ◌≢◌, refl, Option, none, some, String, List, [], ◌∷◌, map, arith, All, select,
  ◌==◌,
}
use resaprint.Base.Lemmas.{All-append, All-map, All-update, All-In, All-imp, get-In}
use resaprint.Models.{PrintJob, PrintJobStatus, PrintStation, AdminPin, Time}
use resaprint.Database.{
  Db, gets, pure, or_raise, ◌>>◌, Holds, Holds-pure, Holds-raise, Holds-gets, Holds-modify,
  Holds-commit, Holds-bind, Holds-then, Holds-if, other_error,
}
use resaprint.Audit.{Detail, log}
use resaprint.PrintJobs.Dispatch.{
  Send, SendResult, delivered, unreachable, crashed, is_lan, save_job, insert_job, add_job, get_job,
  get_station, new_job, after_send, dispatch_lan_job, dispatch_if_lan, enqueue_print_job,
}
use resaprint.PrintJobs.Routes.{
  is_waiting, mark_sent, mark_if_waiting, mark_waiting_jobs, poll_print_jobs, cancel_print_job,
  acked, ack_print_job, own_job, job_not_found, active_station, create_manual_print_job,
  manual_bytes, dispatch_if_station, retry_print_job,
}

-- A printed job has the time at which it was printed.
abbrev pub IsDated : PrintJob → Type 0
IsDated j = j.status ≡ PrintJobStatus.printed → j.printed_at ≢ none

-- Ids are given once, and every printed job is dated.
pub record IsSound (db : Db) : Type 0 where
  pub fresh : All (λ j. j.id < db.print_jobs.next_id) db.print_jobs.rows
  pub dated : All IsDated db.print_jobs.rows

queued-IsDated : (j : PrintJob) → j.status ≡ PrintJobStatus.queued → IsDated j
queued-IsDated j q e = absurd (cc)

log-Holds :
    (actor action : String) (entity_type : Option String) (entity_id : Option ℕ) (detail : Detail)
    → Holds IsSound (λ _. Unit) (log actor action entity_type entity_id detail)
log-Holds actor action entity_type entity_id detail =
    Holds-modify _ (λ db h. record { fresh = h.fresh; dated = h.dated })

save_job-Holds : (job : PrintJob) → IsDated job → Holds IsSound (λ _. Unit) (save_job job)
unfolding save_job
save_job-Holds job d = Holds-modify _ (λ db h. record {
  fresh =
      All-update (λ j. j.id) job.id (λ j. j.id < db.print_jobs.next_id) (λ _. job)
        db.print_jobs.rows (λ x lt same. rw (← same) lt) h.fresh;
  dated = All-update (λ j. j.id) job.id IsDated (λ _. job) db.print_jobs.rows (λ x _ _. d) h.dated;
})

add_job-Holds :
    (row : ℕ → PrintJob)
    → ((k : ℕ) → (row k).id ≡ k)
    → ((k : ℕ) → IsDated (row k))
    → Holds IsSound IsDated (add_job row)
add_job-Holds row same d =
    Holds-bind {P = IsDated}
      (Holds-gets (λ db. row db.print_jobs.next_id) (λ db h. d db.print_jobs.next_id))
      λ job dj.
        Holds-then
          (Holds-modify (insert_job row) (λ db h. record {
            fresh =
                All-append (λ j. j.id < db.print_jobs.next_id + 1) db.print_jobs.rows
                  (row db.print_jobs.next_id ∷ [])
                  (All-imp (λ j. j.id < db.print_jobs.next_id)
                    (λ j. j.id < db.print_jobs.next_id + 1) db.print_jobs.rows (λ j lt. omega arith)
                    h.fresh)
                  (rw (same db.print_jobs.next_id) (omega arith), tt);
            dated =
                All-append IsDated db.print_jobs.rows (row db.print_jobs.next_id ∷ []) h.dated
                  (d db.print_jobs.next_id, tt);
          }))
          (Holds-pure job dj)

found-IsDated :
    (k : ℕ) (db : Db) → IsSound db → (job : PrintJob) → get_job k db ≡ some job → IsDated job
found-IsDated k db h job e =
    All-In IsDated db.print_jobs.rows job h.dated (get-In (λ j. j.id) k job db.print_jobs.rows e).0

abbrev IsDated? : Option PrintJob → Type 0
IsDated? none = Unit
IsDated? (some job) = IsDated job

get_job-IsDated? : (k : ℕ) (db : Db) → IsSound db → IsDated? (get_job k db)
get_job-IsDated? k db h = go (get_job k db) refl
  where
    go : (o : Option PrintJob) → get_job k db ≡ o → IsDated? o
    go none e = tt
    go (some job) e = found-IsDated k db h job e

read_job-Holds : (k : ℕ) → Holds IsSound IsDated? (gets (get_job k))
read_job-Holds k = Holds-gets _ (λ db h. get_job-IsDated? k db h)

or_raise-Holds :
    (o : Option PrintJob) → IsDated? o → Holds IsSound IsDated (or_raise o job_not_found)
or_raise-Holds none d = Holds-raise job_not_found
or_raise-Holds (some job) d = Holds-pure job d

own_job-Holds :
    (station : PrintStation) (o : Option PrintJob)
    → IsDated? o
    → Holds IsSound IsDated (own_job station o)
own_job-Holds station none d = Holds-raise job_not_found
own_job-Holds station (some job) d =
    Holds-if (job.station_id == station.id) (λ _. Holds-pure job d) (λ _. Holds-raise job_not_found)

save_and_return : (job : PrintJob) → IsDated job → Holds IsSound IsDated (save_job job >> pure job)
save_and_return job d = Holds-then (save_job-Holds job d) (Holds-pure job d)

module _ (send : Send) (now : Time) where
  after_send-Holds :
      (r : SendResult) (job : PrintJob)
      → IsDated job
      → Holds IsSound IsDated (after_send send now r job)
  unfolding after_send
  after_send-Holds delivered job d = save_and_return _ (λ e n. cc)
  after_send-Holds (unreachable error) job d = save_and_return _ (λ e n. cc)
  after_send-Holds (crashed error) job d =
      Holds-then (save_job-Holds (record job { attempts = job.attempts + 1 }) d)
        (Holds-raise (other_error error))

  dispatch_if_lan-Holds :
      (job : PrintJob) (station : PrintStation)
      → IsDated job
      → Holds IsSound IsDated (dispatch_if_lan send now job station)
  unfolding dispatch_if_lan dispatch_lan_job
  dispatch_if_lan-Holds job station d =
      Holds-if (is_lan station) (λ _. after_send-Holds _ job d) (λ _. Holds-pure job d)

  pub enqueue_print_job-Holds :
      (station : PrintStation) (reservation_id : Option ℕ) (payload_text : String)
      (escpos_bytes : List ℕ) (requested_by : Option String)
      → Holds IsSound IsDated
          (enqueue_print_job send now station reservation_id payload_text escpos_bytes requested_by)
  unfolding enqueue_print_job
  enqueue_print_job-Holds station reservation_id payload_text escpos_bytes requested_by =
      let row = new_job send now station reservation_id payload_text escpos_bytes requested_by in
      Holds-bind (add_job-Holds row (λ k. refl) (λ k. queued-IsDated (row k) refl)) λ job d.
        Holds-bind (dispatch_if_lan-Holds job station d)
          λ job' d'. Holds-then Holds-commit (Holds-pure job' d')

  pub retry_print_job-Holds :
      (admin : AdminPin) (k : ℕ) → Holds IsSound IsDated (retry_print_job send now admin k)
  unfolding retry_print_job
  retry_print_job-Holds admin k = Holds-bind (Holds-bind (read_job-Holds k) or_raise-Holds) λ job d.
      let job' = record job { status = PrintJobStatus.queued; last_error = none } in
      let d' = queued-IsDated job' refl in
      Holds-then (save_job-Holds job' d') (
        Holds-bind {P = λ _. Unit {0}} (Holds-gets (get_station job.station_id) (λ _ _. tt))
          λ station _. Holds-bind (dispatched job' station d') λ job' d'.
            Holds-then
              (log-Holds admin.label "print_job.retried" (some "print_job") (some job.id) none)
              (Holds-then Holds-commit (Holds-pure job' d')))
    where
      dispatched :
          (job : PrintJob) (station : Option PrintStation)
          → IsDated job
          → Holds IsSound IsDated (dispatch_if_station send now job station)
      dispatched job none d = Holds-pure job d
      dispatched job (some station) d = dispatch_if_lan-Holds job station d

  pub create_manual_print_job-Holds :
      (encode : String → String → List ℕ) (admin : AdminPin) (k : ℕ) (text : String)
      → Holds IsSound IsDated (create_manual_print_job encode send now admin k text)
  unfolding create_manual_print_job
  create_manual_print_job-Holds encode admin k text =
      Holds-bind {P = λ _. Unit {0}}
        (Holds-bind {P = λ _. Unit {0}} (Holds-gets (get_station k) (λ _ _. tt)) (λ o _. active o))
        λ station _.
          let row =
            new_job send now station none text (manual_bytes encode station text)
              (some admin.label) in
          Holds-bind (add_job-Holds row (λ k. refl) (λ k. queued-IsDated (row k) refl)) λ job d.
            Holds-bind (dispatch_if_lan-Holds job station d) λ job' d'.
              Holds-then
                (log-Holds admin.label "print_job.created_manual" (some "print_job") (some job.id)
                  none)
                (Holds-then Holds-commit (Holds-pure job' d'))
    where
      active : (o : Option PrintStation) → Holds IsSound (λ _. Unit {0}) (active_station o)
      active none = Holds-raise _
      active (some station) =
          Holds-if station.is_active (λ _. Holds-pure station tt) (λ _. Holds-raise _)

pub cancel_print_job-Holds :
    (admin : AdminPin) (k : ℕ) → Holds IsSound IsDated (cancel_print_job admin k)
unfolding cancel_print_job
cancel_print_job-Holds admin k = Holds-bind (Holds-bind (read_job-Holds k) or_raise-Holds) λ job d.
    Holds-then (save_job-Holds _ (λ e. cc))
      (Holds-then (log-Holds _ _ _ _ _) (Holds-then Holds-commit (Holds-pure _ (λ e. cc))))

acked-IsDated :
    (now : Time) (status : PrintJobStatus) (error : Option String) (job : PrintJob)
    → IsDated (acked now status error job)
acked-IsDated now status error job e = ground arith

pub ack_print_job-Holds :
    (now : Time) (station : PrintStation) (k : ℕ) (status : PrintJobStatus) (error : Option String)
    → Holds IsSound IsDated (ack_print_job now station k status error)
unfolding ack_print_job
ack_print_job-Holds now station k status error =
    Holds-bind (Holds-bind (read_job-Holds k) (own_job-Holds station)) λ job d.
      Holds-then (save_job-Holds _ (acked-IsDated now status error job)) (
        Holds-then (log-Holds _ _ _ _ _)
          (Holds-then Holds-commit (Holds-pure _ (acked-IsDated now status error job))))

pub poll_print_jobs-Holds :
    (now : Time) (station : PrintStation)
    → Holds IsSound (λ _. Unit {0}) (poll_print_jobs now station)
unfolding poll_print_jobs
poll_print_jobs-Holds now station =
    Holds-bind {P = λ _. Unit {0}}
      (Holds-gets (λ db. select (is_waiting station) db.print_jobs.rows) (λ _ _. tt))
      λ jobs _.
        Holds-then
          (Holds-modify (mark_waiting_jobs now station) (λ db h. record {
            fresh =
                All-map (λ j. j.id < db.print_jobs.next_id) (mark_if_waiting now station)
                  db.print_jobs.rows (λ j lt. ground arith) h.fresh;
            dated =
                All-map IsDated (mark_if_waiting now station) db.print_jobs.rows
                  (λ j d. ground arith) h.dated;
          }))
          (Holds-then Holds-commit (Holds-pure (map (mark_sent now) jobs) tt))
