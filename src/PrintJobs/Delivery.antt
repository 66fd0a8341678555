-- ===== src/PrintJobs/Delivery.antt =====
-- What becomes of a new job.
use resaprint.Base.{
  ℕ, ◌+◌, ◌<◌, ◌≡◌, refl, sym, ◌⊎◌, inl, inr, true, false, Option, none, some, String, List, [],
  ◌∷◌, ◌++◌, arith, All,
}
use resaprint.Base.Lemmas.{get-append_new, update-append_new}
use resaprint.Models.{PrintJob, PrintJobStatus, PrintStation, Time}
use resaprint.Database.{
  Db, Session, Action, pure, commit, table_add, ◌>>=◌, ◌>>◌, >>=-returned, Outcome, returned,
  raised, other_error,
}
use resaprint.PrintJobs.Dispatch.{
  Send, SendResult, delivered, unreachable, crashed, is_lan, save_job, get_job, new_job, after_send,
  dispatch_lan_job, dispatch_if_lan, enqueue_print_job,
}

-- The ids that are in use are below the sequence's next number.
abbrev pub HasFreshIds : Db → Type 0
HasFreshIds db = All (λ j. j.id < db.print_jobs.next_id) db.print_jobs.rows

-- What the sender's answer makes of the job.
abbrev pub Settled : SendResult → PrintJob → Type 0
Settled delivered job = (job.status ≡ PrintJobStatus.printed) × (job.last_error ≡ none)
Settled (unreachable error) job =
    (job.status ≡ PrintJobStatus.failed) × (job.last_error ≡ some error)
Settled (crashed error) job = ⊥

after_send-Settled :
    (send : Send) (now : Time) (r : SendResult) (job job' : PrintJob) (t : Session)
    → job.last_error ≡ none
    → job.attempts ≡ 0
    → (after_send send now r job t).0 ≡ returned job'
    → Settled r job'
      × (job'.attempts ≡ 1)
      × (job'.id ≡ job.id)
      × ((after_send send now r job t).1 ≡ (save_job job' t).1)
unfolding after_send
after_send-Settled send now delivered job job' t e a h =
    let e' : record job {
      attempts = job.attempts + 1;
      status = PrintJobStatus.printed;
      sent_at = some now;
      printed_at = some now;
    }
        ≡ job' =
      cc in
    rw (← e') ((refl, e), omega arith, refl, refl)
after_send-Settled send now (unreachable error) job job' t e a h =
    let e' : record job {
      attempts = job.attempts + 1;
      status = PrintJobStatus.failed;
      last_error = some error;
    }
        ≡ job' =
      cc in
    rw (← e') ((refl, refl), omega arith, refl, refl)
after_send-Settled send now (crashed error) job job' t e a h = absurd (cc)

module _ (send : Send) (now : Time) (station : PrintStation) where
  abbrev finish_enqueue : PrintJob → Action PrintJob
  finish_enqueue job = commit >> pure job

  dispatch-lan :
      (job : PrintJob) (t : Session)
      → is_lan station ≡ true
      → dispatch_if_lan send now job station t
        ≡ after_send send now (send station.lan_host station.lan_port job.escpos_bytes) job t
  unfolding dispatch_if_lan dispatch_lan_job
  dispatch-lan job t lan = rw lan

  -- A saved job is the one that is found under its id.
  get_job-save_job :
      (job0 job : PrintJob) (rows : List PrintJob) (t : Session)
      → t.current.print_jobs.rows ≡ rows ++ job0 ∷ []
      → All (λ j. j.id < job0.id) rows
      → job.id ≡ job0.id
      → get_job job.id (save_job job t).1.current ≡ some job
  unfolding save_job
  get_job-save_job job0 job rows t e fresh same =
      let fresh' : All (λ j. j.id < job.id) rows = rw same fresh in
      rw (e, update-append_new (λ j. j.id) job.id (λ _. job) rows job0 fresh' (sym same))
        (get-append_new (λ j. j.id) job.id rows job fresh' refl)

  dispatched_lem :
      (job0 job : PrintJob) (rows : List PrintJob) (t : Session)
      → t.current.print_jobs.rows ≡ rows ++ job0 ∷ []
      → All (λ j. j.id < job0.id) rows
      → job0.last_error ≡ none
      → job0.attempts ≡ 0
      → is_lan station ≡ true
      → ((dispatch_if_lan send now job0 station >>= finish_enqueue) t).0 ≡ returned job
      → Settled (send station.lan_host station.lan_port job0.escpos_bytes) job
        × (job.attempts ≡ 1)
        × (get_job job.id ((dispatch_if_lan send now job0 station >>= finish_enqueue) t).1.committed
            ≡ some job)
  dispatched_lem job0 job rows t e fresh clean untried lan h =
      let (job', sent, rest) =
        >>=-returned (dispatch_if_lan send now job0 station) finish_enqueue t h in
      let sent' : (after_send send now (send station.lan_host station.lan_port job0.escpos_bytes)
            job0 t).0
          ≡ returned job' =
        rw (dispatch-lan job0 t lan) at sent in
      let (settled, tried, same, saved) =
        after_send-Settled send now (send station.lan_host station.lan_port job0.escpos_bytes) job0
          job' t clean untried sent' in
      let h' : returned job' ≡ returned job = rw rest at h in
      let same_job : job' ≡ job = cc in
      rw (rest, dispatch-lan job0 t lan, saved, ← same_job)
        (settled, tried, get_job-save_job job0 job' rows t e fresh same)

module _ (send : Send) (now : Time) (station : PrintStation) (reservation_id : Option ℕ)
    (payload_text : String) (escpos_bytes : List ℕ) (requested_by : Option String) (s : Session)
    (fresh : HasFreshIds s.current) where
  abbrev result : Outcome PrintJob × Session
  result =
      enqueue_print_job send now station reservation_id payload_text escpos_bytes requested_by s

  abbrev answer : SendResult
  answer = send station.lan_host station.lan_port (some escpos_bytes)

  lan_returned :
      (job : PrintJob)
      → is_lan station ≡ true
      → result.0 ≡ returned job
      → Settled answer job × (job.attempts ≡ 1) × (get_job job.id result.1.committed ≡ some job)
  unfolding enqueue_print_job dispatch_if_lan dispatch_lan_job
  lan_returned job lan h =
      let row = new_job send now station reservation_id payload_text escpos_bytes requested_by in
      dispatched_lem send now station (row s.current.print_jobs.next_id) job
        s.current.print_jobs.rows
        (record s {
          current = record s.current { print_jobs = table_add row s.current.print_jobs };
        })
        refl fresh refl refl lan h

  abbrev created : PrintJob
  created =
      new_job send now station reservation_id payload_text escpos_bytes requested_by
        s.current.print_jobs.next_id

  lan_sent :
      (r : SendResult)
      → answer ≡ r
      → is_lan station ≡ true
      → ((error : String) × (r ≡ crashed error)
          × (result.0 ≡ raised (other_error error))
          × (result.1.committed ≡ s.committed)
          × (get_job created.id result.1.current ≡ some (record created { attempts = 1 })))
        ⊎ ((job : PrintJob) × (result.0 ≡ returned job))
  unfolding enqueue_print_job dispatch_if_lan dispatch_lan_job after_send
  lan_sent delivered e lan =
      let job = record created {
        attempts = 1;
        status = PrintJobStatus.printed;
        sent_at = some now;
        printed_at = some now;
      } in
      inr (job, rw (lan, e) refl)
  lan_sent (unreachable error) e lan =
      let job = record created {
        attempts = 1;
        status = PrintJobStatus.failed;
        last_error = some error;
      } in
      inr (job, rw (lan, e) refl)
  lan_sent (crashed error) e lan = inl (
    error,
    refl,
    rw (lan, e) refl,
    rw (lan, e) refl,
    rw (lan, e)
        (get_job-save_job send now station created (record created { attempts = 1 })
          s.current.print_jobs.rows
          (record s {
            current = record s.current {
              print_jobs =
                  table_add
                    (new_job send now station reservation_id payload_text escpos_bytes requested_by)
                    s.current.print_jobs;
            };
          })
          refl fresh refl),
  )

  -- If the ids of the jobs are below the sequence's next number, then a job for a LAN printer ends
  -- in one of two ways. Either the socket ends in an exception that is not caught, which is raised,
  -- nothing is committed, and the session still has the job, queued, with one attempt; or the job
  -- is returned, printed or failed as the socket answered, after one attempt, and is committed.
  pub enqueue_print_job-lan :
      is_lan station ≡ true
      → ((error : String) × (answer ≡ crashed error)
          × (result.0 ≡ raised (other_error error))
          × (result.1.committed ≡ s.committed)
          × (get_job created.id result.1.current ≡ some (record created { attempts = 1 })))
        ⊎ ((job : PrintJob) × (result.0 ≡ returned job)
            × Settled answer job
            × (job.attempts ≡ 1)
            × (get_job job.id result.1.committed ≡ some job))
  enqueue_print_job-lan lan = elim (lan_sent answer refl lan) [
    | inl failed ↦ inl failed
    | inr (job, sent) ↦
        let (settled, tried, saved) = lan_returned job lan sent in
        inr (job, sent, settled, tried, saved)
  ]

  -- If the ids of the jobs are below the sequence's next number, a job for a USB agent is returned
  -- queued and untried, and is committed.
  pub enqueue_print_job-usb :
      is_lan station ≡ false
      → (job : PrintJob) × (result.0 ≡ returned job)
        × (job.status ≡ PrintJobStatus.queued)
        × (job.attempts ≡ 0)
        × (get_job job.id result.1.committed ≡ some job)
  unfolding enqueue_print_job dispatch_if_lan
  enqueue_print_job-usb usb =
      let row = new_job send now station reservation_id payload_text escpos_bytes requested_by in
      let job = row s.current.print_jobs.next_id in
      rw usb (
        job,
        refl,
        refl,
        refl,
        get-append_new (λ j. j.id) job.id s.current.print_jobs.rows job fresh refl,
      )
