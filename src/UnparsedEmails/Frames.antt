-- ===== src/UnparsedEmails/Frames.antt =====
-- Storing what an email says, and printing it, leave the unparsed emails alone.
use resaprint.Base.{
  ℕ, ◌≡◌, refl, inl, ap, Bool, true, false, Option, none, some, String, List, truthy,
}
use resaprint.Models.{
  UnparsedEmail, Reservation, ReservationStatus, AppSettings, PrintStation, PrintJob, Time,
}
use resaprint.Database.{
  Db, Action, Outcome, put_reservation, modify, other_error, Frames, Frames-pure, Frames-raise,
  Frames-gets, Frames-modify, Frames-commit, Frames-or_raise, Frames-bind, Frames-then, Frames-if,
  Frames-try, Frames-unless,
}
use resaprint.Audit.{Detail, log}
use resaprint.RoomAssignment.{assign_rooms_for_reservation}
use resaprint.Config.{Env, get_or_create_settings, existing_or_new, get_settings}
use resaprint.Receipt.{build_reservation_receipt}
use resaprint.PrintJobs.{
  SendResult, delivered, unreachable, crashed, is_lan, enqueue_print_job, dispatch_if_lan,
  dispatch_lan_job, after_send, new_job, add_job, insert_job, save_job, get_station,
}
use resaprint.EmailIngest.{
  ParsedReservation, ReservationParser, FetchedEmail, Services, create_reservation_from_parsed,
  assign_if_enabled, cancel_or_create, cancel_by_ref, apply_cancellation_email, ingest, outcome,
  auto_print, auto_print_at, auto_print_if, print_detail, maybe_auto_print, get_reservation,
  get_room, latest_with_ref, add_reservation, insert_reservation, refused, new_reservation, cancel,
}

abbrev pub emails : Db → List UnparsedEmail
emails db = db.unparsed_emails.rows

-- A view of the database that only the emails and the reservations decide.
module _ {X : Type 0} (view : Db → X)
    (same : (db db' : Db)
      → db.unparsed_emails ≡ db'.unparsed_emails
      → db.reservations ≡ db'.reservations
      → view db ≡ view db') where
  pub log-Leaves :
      (actor action : String) (entity_type : Option String) (entity_id : Option ℕ) (detail : Detail)
      → Frames view (log actor action entity_type entity_id detail)
  log-Leaves actor action entity_type entity_id detail = Frames-modify _ (λ db. same _ _ refl refl)

  pub outcome-Leaves : {A : Type 0} (r : Outcome A) → Frames view (outcome r)
  outcome-Leaves r = record { keeps = λ s. (refl, inl refl) }

  add_job-Leaves : (row : ℕ → PrintJob) → Frames view (add_job row)
  add_job-Leaves row = Frames-bind (Frames-gets (λ db. row db.print_jobs.next_id)) (λ job.
      Frames-then (Frames-modify (insert_job row) (λ db. same _ _ refl refl)) (Frames-pure job))

  module _ (env : Env) (services : Services) (now : Time) where
    pub settings-Leaves : Frames view (get_or_create_settings env services.encrypt)
    unfolding get_or_create_settings
    settings-Leaves = Frames-bind (Frames-gets get_settings) found
      where
        found : (o : Option AppSettings) → Frames view (existing_or_new env services.encrypt o)
        found none =
            Frames-then (Frames-modify _ (λ db. same _ _ refl refl))
              (Frames-then Frames-commit (Frames-pure _))
        found (some row) = Frames-pure row

    after_send-Leaves :
        (r : SendResult) (job : PrintJob) → Frames view (after_send services.send now r job)
    unfolding after_send save_job
    after_send-Leaves delivered job =
        Frames-then (Frames-modify _ (λ db. same _ _ refl refl)) (Frames-pure _)
    after_send-Leaves (unreachable error) job =
        Frames-then (Frames-modify _ (λ db. same _ _ refl refl)) (Frames-pure _)
    after_send-Leaves (crashed error) job =
        Frames-then (Frames-modify _ (λ db. same _ _ refl refl)) (Frames-raise _)

    enqueue-Leaves :
        (station : PrintStation) (k : Option ℕ) (text : String) (bytes : List ℕ)
        (by : Option String)
        → Frames view (enqueue_print_job services.send now station k text bytes by)
    unfolding enqueue_print_job dispatch_if_lan dispatch_lan_job
    enqueue-Leaves station k text bytes by =
        Frames-bind (add_job-Leaves (new_job services.send now station k text bytes by)) λ job.
          Frames-bind
            (Frames-if (is_lan station)
              (after_send-Leaves (services.send station.lan_host station.lan_port job.escpos_bytes)
                job)
              (Frames-pure job))
            (λ job'. Frames-then Frames-commit (Frames-pure job'))

    auto_print-Leaves :
        (row : AppSettings) (station : PrintStation) (k : ℕ)
        → Frames view (auto_print env services now row station k)
    unfolding auto_print
    auto_print-Leaves row station k = Frames-bind (Frames-gets (get_reservation k)) λ found.
        Frames-bind (Frames-or_raise found (other_error "NoResultFound")) λ r.
          Frames-bind (Frames-gets get_room) λ room_of.
            Frames-bind
              (outcome-Leaves (
                build_reservation_receipt services.encode services.formats room_of r station
                  (some row)))
              λ receipt.
                Frames-bind
                  (enqueue-Leaves station (some r.id) receipt.0 receipt.1
                    (some "system (auto-print)"))
                  λ job.
                    Frames-then
                      (log-Leaves "system" "print_job.auto_printed" (some "print_job") (some job.id)
                        (print_detail env services now r.id station.id))
                      Frames-commit

    auto_print_at-Leaves :
        (row : AppSettings) (k : ℕ) (o : Option PrintStation)
        → Frames view (auto_print_at env services now row k o)
    auto_print_at-Leaves row k none = Frames-then (log-Leaves _ _ _ _ _) Frames-commit
    auto_print_at-Leaves row k (some station) =
        Frames-if station.is_active
          (Frames-try (auto_print-Leaves row station k) (λ e. Frames-pure tt))
          (Frames-then (log-Leaves _ _ _ _ _) Frames-commit)

    auto_print_if-Leaves :
        (row : AppSettings) (k : ℕ) (on : Bool) (o : Option ℕ)
        → Frames view (auto_print_if env services now row k on o)
    auto_print_if-Leaves row k true (some j) =
        Frames-bind (Frames-gets (get_station j)) (auto_print_at-Leaves row k)
    auto_print_if-Leaves row k true none = Frames-pure tt
    auto_print_if-Leaves row k false (some j) = Frames-pure tt
    auto_print_if-Leaves row k false none = Frames-pure tt

    pub maybe_auto_print-Leaves : (k : ℕ) → Frames view (maybe_auto_print env services now k)
    unfolding maybe_auto_print
    maybe_auto_print-Leaves k =
        Frames-bind settings-Leaves
          (λ row. auto_print_if-Leaves row k row.auto_print_enabled row.auto_print_station_id)

abbrev Leaves : {A : Type 0} → Action A → Type 0
Leaves m = Frames emails m

pub emails-same :
    (db db' : Db)
    → db.unparsed_emails ≡ db'.unparsed_emails
    → db.reservations ≡ db'.reservations
    → emails db ≡ emails db'
emails-same db db' e f = ap (λ t. t.rows) e

put-Leaves : (k : ℕ) (f : Reservation → Reservation) → Leaves (modify (put_reservation k f))
put-Leaves k f = Frames-modify (put_reservation k f) (λ db. refl)

add_reservation-Leaves : (row : ℕ → Reservation) → Leaves (add_reservation row)
add_reservation-Leaves row =
    Frames-bind (Frames-gets (λ db. row db.reservations.next_id))
      (λ r. Frames-then (Frames-modify (insert_reservation row) (λ db. refl)) (Frames-pure r))

module _ (env : Env) (services : Services) (now : Time) where
  assign-Leaves :
      (on : Bool) (r : Reservation)
      → Leaves (assign_if_enabled env services.encrypt services.le now on r)
  assign-Leaves false r = Frames-pure r
  assign-Leaves true r =
      Frames-bind (Frames-gets (λ db. assign_rooms_for_reservation services.le db r))
        (λ assigned. Frames-then (put-Leaves r.id (λ _. assigned)) (Frames-pure assigned))

  create-Leaves :
      (parsed : ParsedReservation) (slug body : String) (status : ReservationStatus)
      → Leaves (
          create_reservation_from_parsed env services.encrypt services.le services.accepts now
            parsed slug body status)
  unfolding create_reservation_from_parsed
  create-Leaves parsed slug body status =
      Frames-bind (Frames-gets (λ db. db.next_room_line_id)) λ line_id.
        Frames-bind (add_reservation-Leaves (new_reservation now parsed slug body status line_id))
          λ r. Frames-then (Frames-unless (services.accepts r) refused) (
            Frames-bind (settings-Leaves emails emails-same env services now)
              (λ row. assign-Leaves row.room_auto_assign_enabled r))

  cancel_or_create-Leaves :
      (parser : ReservationParser) (parsed : ParsedReservation) (body : String)
      (o : Option Reservation)
      → Leaves (
          cancel_or_create env services.encrypt services.le services.accepts now parser parsed body
            o)
  cancel_or_create-Leaves parser parsed body (some r) =
      Frames-then (put-Leaves r.id cancel) (Frames-pure (cancel r))
  cancel_or_create-Leaves parser parsed body none =
      create-Leaves parsed parser.slug body ReservationStatus.cancelled

  cancel_by_ref-Leaves :
      (parser : ReservationParser) (parsed : ParsedReservation) (body : String)
      (ref : Option String)
      → Leaves (
          cancel_by_ref env services.encrypt services.le services.accepts now parser parsed body
            ref)
  cancel_by_ref-Leaves parser parsed body none = Frames-raise _
  cancel_by_ref-Leaves parser parsed body (some ref) =
      Frames-if (truthy ref)
        (Frames-bind (Frames-gets (latest_with_ref ref))
          (cancel_or_create-Leaves parser parsed body))
        (Frames-raise _)

  pub ingest-Leaves :
      (parser : ReservationParser) (fetched : FetchedEmail) (cancels : Bool)
      → Frames emails (ingest env services now parser fetched cancels)
  unfolding apply_cancellation_email
  ingest-Leaves parser fetched true =
      Frames-bind
        (outcome-Leaves emails emails-same
          (parser.parse fetched.subject fetched.body fetched.content_type))
        (λ parsed. cancel_by_ref-Leaves parser parsed fetched.body parsed.external_ref)
  ingest-Leaves parser fetched false =
      Frames-bind
        (outcome-Leaves emails emails-same
          (parser.parse fetched.subject fetched.body fetched.content_type))
        (λ parsed. create-Leaves parsed parser.slug fetched.body ReservationStatus.confirmed)
