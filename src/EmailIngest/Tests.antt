-- ===== src/EmailIngest/Tests.antt =====
-- Four emails: a booking, an unreadable email, and a cancellation.
use resaprint.Base.{
  ◌≡◌, refl, true, none, some, List, [], ◌∷◌, map, select, order_by, get, update, ℕ, inl, inr, In,
  ◌≢◌, false,
}
use resaprint.Models.{
  Reservation, ReservationStatus, PrintJobStatus, StationConnectionType, UnparsedEmailStatus,
}
use resaprint.Database.{Db, Session, empty_db, returned, parser_error}
use resaprint.Config.{get_or_create_settings, default_row}
use resaprint.Receipt.{build_reservation_receipt}
use resaprint.PrintJobs.{
  crashed, enqueue_print_job, dispatch_if_lan, dispatch_lan_job, after_send, save_job,
}
use resaprint.EmailIngest.{
  FetchedEmail, seen, Services, find, latest_with_ref, cancel, apply_cancellation_email,
  process_email, auto_print, create_reservation_from_parsed, new_reservation, number_lines,
  record_unparsed, maybe_auto_print,
}
use resaprint.EmailIngest.Samples.{env, services, booking, web, web_cancel, registry, email}
use resaprint.EmailIngest.Failure.{pending_row, process_email-set_aside}
use resaprint.EmailIngest.Cancellation.{apply_cancellation_email-idempotent, IsNewest}

abbrev fresh : Session
fresh = record { committed = empty_db; current = empty_db }

ingest_run : Unit {0}
unfolding process_email find get_or_create_settings create_reservation_from_parsed new_reservation
    number_lines record_unparsed maybe_auto_print apply_cancellation_email latest_with_ref select
    order_by get update
ingest_run = tt

-- What processing the emails one after another leaves behind; their marks are not looked at.
abbrev processed_by : Services → List FetchedEmail → Session → Session
processed_by server [] s = s
processed_by server (fetched ∷ emails) s =
    processed_by server emails (process_email env server 5 registry fetched s).1

abbrev inbox : List FetchedEmail
inbox =
    email "1" "booking" "R1"
    ∷ email "2" "booking" "?"
    ∷ email "3" "cancelled" "R1"
    ∷ email "4" "news" ""
    ∷ []

processed_statuses :
    map (λ r. r.status) (processed_by services inbox fresh).committed.reservations.rows
    ≡ ReservationStatus.cancelled ∷ []
unfolding ingest_run
processed_statuses = refl

-- A database that takes no reservation: the email is set aside.
abbrev full_disk : Services
full_disk = record services { accepts = λ r. false }

refused_booking :
    let result = process_email env full_disk 5 registry (email "1" "booking" "R1") fresh in
    (result.0 ≡ returned seen)
    × (result.1.committed.reservations.rows ≡ [])
    × (map (λ e. e.status) result.1.committed.unparsed_emails.rows
        ≡ UnparsedEmailStatus.pending ∷ [])
unfolding ingest_run
refused_booking = (refl, refl, refl)

found_web : find registry "booking" "?" "text/plain" ≡ returned (some web)
unfolding ingest_run
found_web = refl

process_email-set_aside_example :
    let result = process_email env services 5 registry (email "2" "booking" "?") fresh in
    (result.0 ≡ returned seen)
    × (result.1.current.reservations ≡ fresh.committed.reservations)
    × (result.1.current.unparsed_emails.rows
        ≡ pending_row 5 (email "2" "booking" "?") "no reference" "web" 1 ∷ [])
    × (result.1.committed ≡ result.1.current)
process_email-set_aside_example =
    process_email-set_aside env services 5 registry (email "2" "booking" "?") web
      (parser_error "no reference") fresh found_web refl refl

-- The session behind the first email.
abbrev booked : Session
booked = (process_email env services 5 registry (email "1" "booking" "R1") fresh).1

abbrev ann : Reservation
ann = new_reservation 5 booking "web" "R1" ReservationStatus.confirmed 1 1

ann-IsNewest : IsNewest "R1" ann booked.current.reservations.rows
unfolding ingest_run
ann-IsNewest = record {
  stored = inl refl;
  bears = refl;
  newest = λ x m e. elim m [ inl same ↦ inl same | inr n ↦ elim n [ ] ];
}

apply_cancellation_email-idempotent_example :
    let cancel_again = λ (now : ℕ).
      apply_cancellation_email env services.encrypt services.le services.accepts now web_cancel
        "cancelled" "R1" "text/plain" in
    let result = cancel_again 6 booked in
    let rows = result.1.current.reservations.rows in
    (result.0 ≡ returned (cancel ann))
    × In (cancel ann) rows
    × (map (λ r. r.id) rows ≡ map (λ r. r.id) booked.current.reservations.rows)
    × ((x : Reservation) → In x booked.current.reservations.rows → x.id ≢ ann.id → In x rows)
    × (cancel_again 7 result.1 ≡ (returned (cancel ann), result.1))
apply_cancellation_email-idempotent_example =
    apply_cancellation_email-idempotent env services.encrypt services.le services.accepts web_cancel
      "cancelled" "R1" "text/plain" 6 7 booked booking "R1" ann refl refl refl ann-IsNewest

-- A station whose socket fails with an exception that `dispatch_lan_job` does not catch.
abbrev crashing : Services
crashing = record services { send = λ host port bytes. crashed "label too long" }

abbrev printing_db : Db
printing_db = record empty_db {
  app_settings =
      record (default_row env services.encrypt) {
        auto_print_enabled = true;
        auto_print_station_id = some 1;
      }
      ∷ [];
  print_stations = record {
    rows =
        record {
          id = 1;
          name = "desk";
          connection_type = StationConnectionType.lan_escpos;
          lan_host = some "bad";
          lan_port = 9100;
          paper_width_cols = 32;
          codepage = "cp858";
          api_key_hash = none;
          api_key_prefix = none;
          paired_at = none;
          is_active = true;
          last_seen_at = none;
        }
        ∷ [];
    next_id = 2;
  };
}

abbrev two_emails : List FetchedEmail
two_emails = email "1" "booking" "R1" ∷ email "2" "news" "" ∷ []

-- The job of the failed printing is stored by the commit for the next email, and stays queued.
crashed_print_stored :
    map {B = PrintJobStatus × ℕ}
      (λ j. (j.status, j.attempts))
      (processed_by crashing two_emails
        (record { committed = printing_db; current = printing_db })).committed.print_jobs.rows
    ≡ (PrintJobStatus.queued, 1) ∷ []
unfolding ingest_run auto_print build_reservation_receipt enqueue_print_job dispatch_if_lan
    dispatch_lan_job after_send save_job
crashed_print_stored = refl
