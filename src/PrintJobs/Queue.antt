-- ===== src/PrintJobs/Queue.antt =====
-- The poll of a USB agent.
use resaprint.Base.{◌≡◌, refl, inl, inr, false, List, [], ◌∷◌, map, arith, In, select, Bool-cases}
use resaprint.Models.{PrintJob, PrintStation, Time}
use resaprint.Database.{Session, returned}
use resaprint.PrintJobs.Routes.{is_waiting, mark_if_waiting, poll_print_jobs}

module _ (now : Time) (station : PrintStation) where
  nothing_waiting :
      (jobs : List PrintJob)
      → select (is_waiting station) (map (mark_if_waiting now station) jobs) ≡ []
  unfolding select
  nothing_waiting [] = refl
  nothing_waiting (j ∷ jobs) = elim (Bool-cases (is_waiting station j)) [
    | inl t ↦ ground (arith, nothing_waiting jobs)
    | inr f ↦ rw (f, f) (nothing_waiting jobs)
  ]

  In-mark_if_waiting :
      (j : PrintJob) (jobs : List PrintJob)
      → In j jobs
      → is_waiting station j ≡ false
      → In j (map (mark_if_waiting now station) jobs)
  In-mark_if_waiting j [] m f = elim m [ ]
  In-mark_if_waiting j (x ∷ xs) m f = elim m [
    | inl e ↦ inl (rw (← e, f))
    | inr n ↦ inr (In-mark_if_waiting j xs n f)
  ]

  -- A poll commits what it changed, and the station's next poll, at any time, returns no job.
  pub poll_print_jobs-drains :
      (later : Time) (s : Session)
      → let s' = (poll_print_jobs now station s).1 in
        (s'.committed ≡ s'.current) × ((poll_print_jobs later station s').0 ≡ returned [])
  unfolding poll_print_jobs
  poll_print_jobs-drains later s = (refl, rw (nothing_waiting s.current.print_jobs.rows))

  -- A poll leaves every job unchanged that is another station's or is not queued.
  pub poll_print_jobs-frame :
      (j : PrintJob) (s : Session)
      → In j s.current.print_jobs.rows
      → is_waiting station j ≡ false
      → In j (poll_print_jobs now station s).1.current.print_jobs.rows
  unfolding poll_print_jobs
  poll_print_jobs-frame j s m f = In-mark_if_waiting j s.current.print_jobs.rows m f
