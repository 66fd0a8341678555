-- ===== src/EmailIngest/Create.antt =====
-- A reservation from a parsed email, a cancellation, and an email that nobody could parse.
use resaprint.Base.{
  ℕ, suc, ◌+◌, Bool, true, false, Option, none, some, String, List, [], ◌∷◌, select, first,
  order_by, leb, length, text_eq, truthy, if◌then◌else◌,
}
use resaprint.Models.{
  Reservation, RoomLine, ReservationStatus, UnparsedEmail, UnparsedEmailStatus, Time, Json,
}
use resaprint.Database.{
  Db, Action, Outcome, Exception, parser_error, other_error, pure, raise, gets, modify, unless,
  table_add, put_reservation, ◌>>=◌, ◌>>◌,
}
use resaprint.Audit.{log}
use resaprint.RoomAssignment.{assign_rooms_for_reservation}
use resaprint.Config.{Env, get_or_create_settings}
use resaprint.EmailIngest.Registry.{RoomLineDto, ParsedReservation, ReservationParser}

pub record FetchedEmail : Type 0 where
  pub uid : String
  pub subject : String
  pub body : String
  pub content_type : String

-- What a call returned or raised.
abbrev pub outcome : {A : Type 0} → Outcome A → Action A
outcome r s = (r, s)

-- `enumerate(parsed.room_lines)`, with the ids that the sequence gives.
unfoldable pub number_lines : ℕ → ℕ → List RoomLineDto → List RoomLine
number_lines id index [] = []
number_lines id index (l ∷ ls) =
    record {
      id = id;
      sort_order = index;
      room_type = l.room_type;
      nights = l.nights;
      price_per_night = l.price_per_night;
      price_total = l.price_total;
      assigned_room_id = none;
    }
    ∷ number_lines (suc id) (suc index) ls

-- `parsed.extra_fields or None`
abbrev pub fields_or_none : List (String × Json) → Option (List (String × Json))
fields_or_none [] = none
fields_or_none (f ∷ fs) = some (f ∷ fs)

abbrev pub insert_reservation : (ℕ → Reservation) → Db → Db
insert_reservation row db = record db {
  reservations = table_add row db.reservations;
  next_room_line_id = db.next_room_line_id + length (row db.reservations.next_id).room_lines;
}

abbrev pub add_reservation : (ℕ → Reservation) → Action Reservation
add_reservation row = do
  reservation ← gets (λ db. row db.reservations.next_id)
  modify (insert_reservation row)
  pure reservation

unfoldable pub new_reservation :
    Time → ParsedReservation → String → String → ReservationStatus → ℕ → ℕ → Reservation
unfolding number_lines
new_reservation now parsed parser_slug raw_body status line_id id = record {
  id = id;
  external_ref = parsed.external_ref;
  source_channel = parsed.source_channel;
  parser_slug = some parser_slug;
  guest_name = parsed.guest_name;
  guest_email = parsed.guest_email;
  guest_phone = parsed.guest_phone;
  checkin = parsed.checkin;
  checkout = parsed.checkout;
  room_type = parsed.room_type;
  guests_adults = parsed.guests_adults;
  guests_children = parsed.guests_children;
  price_total = parsed.price_total;
  price_currency = parsed.price_currency;
  status = status;
  raw_source_text = some raw_body;
  extra_fields = fields_or_none parsed.extra_fields;
  assigned_room_id = none;
  created_at = now;
  room_lines = number_lines line_id 0 parsed.room_lines;
}

-- Reservations by `external_ref`, the last one first.
abbrev pub has_ref : String → Reservation → Bool
has_ref ref r = elim r.external_ref [ none ↦ false | some other ↦ text_eq other ref ]

abbrev pub newest_first : Reservation → Reservation → Bool
newest_first a b = leb b.created_at a.created_at

unfoldable pub latest_with_ref : String → Db → Option Reservation
unfolding select order_by
latest_with_ref ref db = first (order_by newest_first (select (has_ref ref) db.reservations.rows))

abbrev pub cancel : Reservation → Reservation
cancel r = record r { status = ReservationStatus.cancelled }

-- A row that does not fit its table, for instance a text that is too long for its column.
abbrev pub refused : Exception
refused = other_error "DBAPIError"

module _ (env : Env) (encrypt : String → String) (le : String → String → Bool) (now : Time) where
  abbrev pub assign_if_enabled : Bool → Reservation → Action Reservation
  assign_if_enabled false reservation = pure reservation
  assign_if_enabled true reservation = do
    assigned ← gets (λ db. assign_rooms_for_reservation le db reservation)
    modify (put_reservation reservation.id (λ _. assigned))
    pure assigned

module _ (env : Env) (encrypt : String → String) (le : String → String → Bool)
    (accepts : Reservation → Bool) (now : Time) where
  -- The `flush` raises if the database refuses the row, which stays in the session until a rollback.
  unfoldable pub create_reservation_from_parsed :
      ParsedReservation → String → String → ReservationStatus → Action Reservation
  unfolding new_reservation get_or_create_settings assign_rooms_for_reservation
  create_reservation_from_parsed parsed parser_slug raw_body status = do
    line_id ← gets (λ db. db.next_room_line_id)
    reservation ← add_reservation (new_reservation now parsed parser_slug raw_body status line_id)
    unless (accepts reservation) refused
    app_settings ← get_or_create_settings env encrypt
    assign_if_enabled env encrypt le now app_settings.room_auto_assign_enabled reservation

  abbrev pub cancel_or_create :
      ReservationParser → ParsedReservation → String → Option Reservation → Action Reservation
  cancel_or_create parser parsed body (some r) = do
    modify (put_reservation r.id cancel)
    pure (cancel r)
  cancel_or_create parser parsed body none =
      create_reservation_from_parsed parsed parser.slug body ReservationStatus.cancelled

  -- The reservation that the email's reference names, cancelled, or a new cancelled one.
  abbrev pub cancel_by_ref :
      ReservationParser → ParsedReservation → String → Option String → Action Reservation
  cancel_by_ref parser parsed body none =
      raise (parser_error "cancellation email has no reservation reference (external_ref)")
  cancel_by_ref parser parsed body (some ref) =
      if truthy ref
      then gets (latest_with_ref ref) >>= cancel_or_create parser parsed body
      else raise (parser_error "cancellation email has no reservation reference (external_ref)")

  unfoldable pub apply_cancellation_email :
      ReservationParser → String → String → String → Action Reservation
  unfolding latest_with_ref create_reservation_from_parsed
  apply_cancellation_email parser subject body content_type =
      outcome (parser.parse subject body content_type) >>= λ parsed.
      cancel_by_ref parser parsed body parsed.external_ref

-- The row of an email that nobody could parse.
abbrev pub unparsed_row : Time → FetchedEmail → String → Option String → ℕ → UnparsedEmail
unparsed_row now fetched reason parser_slug id = record {
  id = id;
  subject = fetched.subject;
  body = fetched.body;
  content_type = fetched.content_type;
  reason = reason;
  parser_slug = parser_slug;
  status = UnparsedEmailStatus.pending;
  resolved_reservation_id = none;
  created_at = now;
  resolved_at = none;
}

-- `_record_unparsed`
unfoldable pub record_unparsed :
    (UnparsedEmail → Bool) → Time → FetchedEmail → String → Option String → Action (Unit {0})
record_unparsed accepts_email now fetched reason parser_slug = do
  id ← gets (λ db. db.unparsed_emails.next_id)
  modify (λ db. record db {
    unparsed_emails = table_add (unparsed_row now fetched reason parser_slug) db.unparsed_emails;
  })
  unless (accepts_email (unparsed_row now fetched reason parser_slug id)) refused
  log "system" "email.unparsed" (some "unparsed_email") (some id) (
      some (
        ("subject", Json.text fetched.subject)
        ∷ ("parser_slug", (elim parser_slug [ none ↦ Json.null | some slug ↦ Json.text slug ]))
        ∷ ("reason", Json.text reason)
        ∷ []))
