-- ===== src/EmailIngest/Process.antt =====
-- One email from the registry to the mailbox, and the printing of what came of it. A path ends
-- with an IMAP call, which may raise; it returns the mark of that call.
use Prim.Native.String.{◌++◌ as append_text}
use resaprint.Base.{
  ℕ, Bool, true, false, Option, none, some, String, List, [], ◌∷◌, get, if◌then◌else◌,
}
use resaprint.Models.{
  Reservation, Room, ReservationStatus, UnparsedEmail, AppSettings, PrintStation, Time, Json,
}
use resaprint.Database.{
  Db, Action, Outcome, Exception, parser_error, other_error, pure, gets, or_raise, commit, rollback,
  try_except, ◌>>=◌, ◌>>◌,
}
use resaprint.Audit.{log}
use resaprint.Config.{Env, get_or_create_settings}
use resaprint.Receipt.{Formats, build_reservation_receipt}
use resaprint.PrintJobs.{Send, enqueue_print_job, get_station}
use resaprint.EmailIngest.Registry.{ReservationParser, is_cancellation, find}
use resaprint.EmailIngest.Create.{
  FetchedEmail, outcome, create_reservation_from_parsed, apply_cancellation_email, record_unparsed,
}

pub data Mark : Type 0 where
  -- `_mark_seen_sync`: left in the folder, flagged as seen.
  seen : Mark
  -- `_mark_processed_sync`: moved to the folder of processed emails.
  processed : Mark

-- Code that the handler calls and that is not in the repository: the cipher, the order of texts,
-- the codecs, Python's formatting, the socket, `str` of an exception, whether the database takes a row
-- that is inserted, and what the IMAP server answers to the mark of an email.
pub record Services : Type 0 where
  pub encrypt : String → String
  pub le : String → String → Bool
  pub encode : String → String → List ℕ
  pub formats : Formats
  pub send : Send
  pub text_of : Exception → String
  pub accepts : Reservation → Bool
  pub accepts_email : UnparsedEmail → Bool
  pub mark : Mark → String → Outcome (Unit {0})

abbrev pub get_room : Db → Option ℕ → Option Room
get_room db none = none
get_room db (some k) = get (λ room. room.id) k db.rooms.rows

abbrev pub get_reservation : ℕ → Db → Option Reservation
get_reservation k db = get (λ r. r.id) k db.reservations.rows

module _ (env : Env) (services : Services) (now : Time) where
  abbrev pub print_detail : ℕ → ℕ → Option (List (String × Json))
  print_detail reservation_id station_id =
      some (
        ("reservation_id", Json.number reservation_id)
        ∷ ("station_id", Json.number station_id)
        ∷ [])

  -- The body of the `try` in `maybe_auto_print`.
  unfoldable pub auto_print : AppSettings → PrintStation → ℕ → Action (Unit {0})
  unfolding build_reservation_receipt enqueue_print_job
  auto_print app_settings station reservation_id = do
    found ← gets (get_reservation reservation_id)
    reservation ← or_raise found (other_error "NoResultFound")
    room_of ← gets get_room
    receipt ← outcome (
        build_reservation_receipt services.encode services.formats room_of reservation station
          (some app_settings))
    job ←
        enqueue_print_job services.send now station (some reservation.id) receipt.0 receipt.1
          (some "system (auto-print)")
    log "system" "print_job.auto_printed" (some "print_job") (some job.id)
        (print_detail reservation.id station.id)
    commit

  abbrev pub skip_auto_print : ℕ → Action (Unit {0})
  skip_auto_print reservation_id = do
    log "system" "print_job.auto_print_skipped" (some "reservation") (some reservation_id)
        (some (("reason", Json.text "auto-print station missing or inactive") ∷ []))
    commit

  -- A failure is logged and swallowed, without a rollback.
  abbrev pub auto_print_at : AppSettings → ℕ → Option PrintStation → Action (Unit {0})
  auto_print_at app_settings reservation_id none = skip_auto_print reservation_id
  auto_print_at app_settings reservation_id (some station) =
      if station.is_active
      then try_except (auto_print app_settings station reservation_id) (λ e. pure tt)
      else skip_auto_print reservation_id

  abbrev pub auto_print_if : AppSettings → ℕ → Bool → Option ℕ → Action (Unit {0})
  auto_print_if app_settings reservation_id true (some k) =
      gets (get_station k) >>= auto_print_at app_settings reservation_id
  auto_print_if app_settings reservation_id _ _ = pure tt

  unfoldable pub maybe_auto_print : ℕ → Action (Unit {0})
  unfolding get_or_create_settings auto_print
  maybe_auto_print reservation_id = do
    app_settings ← get_or_create_settings env services.encrypt
    auto_print_if app_settings reservation_id app_settings.auto_print_enabled
        app_settings.auto_print_station_id

  -- The body of the `try` in `_process_email`.
  abbrev pub ingest : ReservationParser → FetchedEmail → Bool → Action Reservation
  ingest parser fetched true =
      apply_cancellation_email env services.encrypt services.le services.accepts now parser
        fetched.subject fetched.body fetched.content_type
  ingest parser fetched false =
      outcome (parser.parse fetched.subject fetched.body fetched.content_type) >>= λ parsed.
      create_reservation_from_parsed env services.encrypt services.le services.accepts now parsed
        parser.slug fetched.body ReservationStatus.confirmed

  abbrev pub reason_of : Exception → String
  reason_of (parser_error message) = message
  reason_of e = append_text "unexpected error: " (services.text_of e)

  abbrev pub set_aside : ReservationParser → FetchedEmail → Exception → Action (Option Reservation)
  set_aside parser fetched e = do
    rollback
    record_unparsed services.accepts_email now fetched (reason_of e) (some parser.slug)
    commit
    pure none

  abbrev pub ingested_action : Bool → String
  ingested_action true = "reservation.cancelled_by_email"
  ingested_action false = "reservation.ingested"

  -- The call in an executor, for the email's uid.
  abbrev pub mark_email : FetchedEmail → Mark → Action Mark
  mark_email fetched mark = outcome (services.mark mark fetched.uid) >> pure mark

  abbrev pub finish : ReservationParser → FetchedEmail → Option Reservation → Action Mark
  finish parser fetched none = mark_email fetched seen
  finish parser fetched (some reservation) = do
    log "system" (ingested_action (is_cancellation parser.kind)) (some "reservation")
        (some reservation.id)
        (some
          (("parser_slug", Json.text parser.slug) ∷ ("subject", Json.text fetched.subject) ∷ []))
    commit
    maybe_auto_print reservation.id
    mark_email fetched processed

  abbrev pub process_with : FetchedEmail → Option ReservationParser → Action Mark
  process_with fetched none = do
    record_unparsed services.accepts_email now fetched "no matching parser" none
    commit
    mark_email fetched seen
  process_with fetched (some parser) =
      try_except (ingest parser fetched (is_cancellation parser.kind) >>= λ r. pure (some r))
        (set_aside parser fetched)
      >>= finish parser fetched

  -- `_process_email`
  unfoldable pub process_email : List ReservationParser → FetchedEmail → Action Mark
  unfolding find maybe_auto_print record_unparsed apply_cancellation_email
      create_reservation_from_parsed
  process_email registry fetched =
      outcome (find registry fetched.subject fetched.body fetched.content_type)
      >>= process_with fetched
