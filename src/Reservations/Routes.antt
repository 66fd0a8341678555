-- ===== src/Reservations/Routes.antt =====
-- Creating, changing, cancelling, deleting and printing reservations. The guards of Auth run before
-- the routes and hand over the `admin`. `like` stands for the database's ILIKE.
use resaprint.Base.{
  ℕ, Bool, true, false, not, ◌&&◌, ◌||◌, Option, none, some, String, List, [], ◌∷◌, select,
  order_by, leb, text_eq, truthy,
}
use resaprint.Models.{Reservation, ReservationStatus, AdminPin, Date, Decimal, Time, Json}
use resaprint.Database.{
  Action, Exception, http_error, integrity_error, pure, gets, or_raise, modify, commit, unless,
  put_reservation, ◌>>=◌, ◌>>◌,
}
use resaprint.Audit.{log, log_row}
use resaprint.Patch.{Patch, unset, null, value, patch, patch_option, is_null}
use resaprint.RoomAssignment.{assign_rooms_for_reservation}
use resaprint.Config.{Env, get_or_create_settings}
use resaprint.Receipt.{Formats, build_reservation_receipt}
use resaprint.PrintJobs.{Send, enqueue_print_job, get_station, active_station, passes, status_value}
use resaprint.EmailIngest.{
  outcome, add_reservation, assign_if_enabled, get_reservation, get_room, cancel,
}

pub record ReservationCreate : Type 0 where
  pub external_ref : Option String
  pub source_channel : String
  pub guest_name : String
  pub guest_email : Option String
  pub guest_phone : Option String
  pub checkin : Date
  pub checkout : Date
  pub room_type : Option String
  pub guests_adults : ℕ
  pub guests_children : ℕ
  pub price_total : Option Decimal
  pub price_currency : String

pub record ReservationUpdate : Type 0 where
  pub guest_name : Patch String
  pub guest_email : Patch String
  pub guest_phone : Patch String
  pub checkin : Patch Date
  pub checkout : Patch Date
  pub room_type : Patch String
  pub guests_adults : Patch ℕ
  pub guests_children : Patch ℕ
  pub price_total : Patch Decimal
  pub price_currency : Patch String
  pub status : Patch ReservationStatus

abbrev pub reservation_not_found : Exception
reservation_not_found = http_error 404 "reservation not found"

abbrev pub find_reservation : ℕ → Action Reservation
find_reservation k = gets (get_reservation k) >>= λ r. or_raise r reservation_not_found

abbrev pub same_status : ReservationStatus → ReservationStatus → Bool
same_status ReservationStatus.pending ReservationStatus.pending = true
same_status ReservationStatus.confirmed ReservationStatus.confirmed = true
same_status ReservationStatus.cancelled ReservationStatus.cancelled = true
same_status ReservationStatus.manual ReservationStatus.manual = true
same_status _ _ = false

-- What a search text is compared with.
abbrev pub matches : (String → String → Bool) → Option String → Reservation → Bool
matches like none r = true
matches like (some q) r =
    not (truthy q)
    || (like q r.guest_name
        || (in_option r.guest_email
            || (in_option r.guest_phone || (in_option r.external_ref || in_option r.room_type))))
  where
    in_option : Option String → Bool
    in_option none = false
    in_option (some text) = like q text

unfoldable pub list_reservations :
    (String → String → Bool)
    → Option ReservationStatus
    → Option String
    → Option Date
    → Option Date
    → Option String
    → Action (List Reservation)
unfolding select order_by
list_reservations like status_filter source_channel checkin_from checkin_to q = gets (λ db.
    select
      (λ r.
        passes status_filter (same_status r.status)
        && (passes source_channel (text_eq r.source_channel)
            && (passes checkin_from (λ d. leb d r.checkin)
                && (passes checkin_to (λ d. leb r.checkin d) && matches like q r))))
      (order_by (λ a b. leb b.created_at a.created_at) db.reservations.rows))

abbrev pub manual_reservation : Time → ReservationCreate → ℕ → Reservation
manual_reservation now payload id = record {
  id = id;
  external_ref = payload.external_ref;
  source_channel = payload.source_channel;
  parser_slug = none;
  guest_name = payload.guest_name;
  guest_email = payload.guest_email;
  guest_phone = payload.guest_phone;
  checkin = payload.checkin;
  checkout = payload.checkout;
  room_type = payload.room_type;
  guests_adults = payload.guests_adults;
  guests_children = payload.guests_children;
  price_total = payload.price_total;
  price_currency = payload.price_currency;
  status = ReservationStatus.manual;
  raw_source_text = none;
  extra_fields = none;
  assigned_room_id = none;
  created_at = now;
  room_lines = [];
}

module _ (env : Env) (encrypt : String → String) (le : String → String → Bool) (now : Time) where
  unfoldable pub create_reservation : AdminPin → ReservationCreate → Action Reservation
  unfolding get_or_create_settings assign_rooms_for_reservation
  create_reservation admin payload = do
    reservation ← add_reservation (manual_reservation now payload)
    app_settings ← get_or_create_settings env encrypt
    assigned ←
        assign_if_enabled env encrypt le now app_settings.room_auto_assign_enabled reservation
    log_row admin.label "reservation.created_manual" "reservation" reservation.id
    commit
    pure assigned

abbrev pub updated_reservation : ReservationUpdate → Reservation → Reservation
updated_reservation p r = record r {
  guest_name = patch p.guest_name r.guest_name;
  guest_email = patch_option p.guest_email r.guest_email;
  guest_phone = patch_option p.guest_phone r.guest_phone;
  checkin = patch p.checkin r.checkin;
  checkout = patch p.checkout r.checkout;
  room_type = patch_option p.room_type r.room_type;
  guests_adults = patch p.guests_adults r.guests_adults;
  guests_children = patch p.guests_children r.guests_children;
  price_total = patch_option p.price_total r.price_total;
  price_currency = patch p.price_currency r.price_currency;
  status = patch p.status r.status;
}

-- The columns that may not be null.
abbrev pub has_null_field : ReservationUpdate → Bool
has_null_field p =
    is_null p.guest_name
    || (is_null p.checkin
        || (is_null p.checkout
            || (is_null p.guests_adults
                || (is_null p.guests_children || (is_null p.price_currency || is_null p.status)))))

abbrev pub field :
    {A : Type 0} → String → (A → Json) → Patch A → List (String × Json) → List (String × Json)
field name json unset rest = rest
field name json null rest = (name, Json.null) ∷ rest
field name json (value a) rest = (name, json a) ∷ rest

abbrev pub reservation_status_value : ReservationStatus → String
reservation_status_value ReservationStatus.pending = "pending"
reservation_status_value ReservationStatus.confirmed = "confirmed"
reservation_status_value ReservationStatus.cancelled = "cancelled"
reservation_status_value ReservationStatus.manual = "manual"

-- `payload.model_dump(exclude_unset=True, mode="json")`
abbrev pub update_detail : ReservationUpdate → List (String × Json)
update_detail p = field "guest_name" Json.text p.guest_name (
    field "guest_email" Json.text p.guest_email (
      field "guest_phone" Json.text p.guest_phone (
        field "checkin" Json.date p.checkin (
          field "checkout" Json.date p.checkout (
            field "room_type" Json.text p.room_type (
              field "guests_adults" Json.number p.guests_adults (
                field "guests_children" Json.number p.guests_children (
                  field "price_total" Json.decimal p.price_total (
                    field "price_currency" Json.text p.price_currency (
                      field "status" (λ s. Json.text (reservation_status_value s)) p.status
                        []))))))))))

unfoldable pub update_reservation : AdminPin → ℕ → ReservationUpdate → Action Reservation
update_reservation admin reservation_id payload = do
  reservation ← find_reservation reservation_id
  unless (not (has_null_field payload)) integrity_error
  modify (put_reservation reservation.id (updated_reservation payload))
  log admin.label "reservation.manual_override" (some "reservation") (some reservation.id)
      (some (update_detail payload))
  commit
  pure (updated_reservation payload reservation)

unfoldable pub cancel_reservation : AdminPin → ℕ → Action Reservation
cancel_reservation admin reservation_id = do
  reservation ← find_reservation reservation_id
  modify (put_reservation reservation.id cancel)
  log_row admin.label "reservation.cancelled" "reservation" reservation.id
  commit
  pure (cancel reservation)

module _ (encode : String → String → List ℕ) (formats : Formats) (send : Send) (env : Env)
    (encrypt : String → String) (now : Time) where
  unfoldable pub print_reservation : AdminPin → ℕ → ℕ → Action (ℕ × String)
  unfolding get_or_create_settings build_reservation_receipt enqueue_print_job
  print_reservation admin reservation_id station_id = do
    reservation ← find_reservation reservation_id
    station ← gets (get_station station_id) >>= active_station
    app_settings ← get_or_create_settings env encrypt
    room_of ← gets get_room
    receipt ←
        outcome
          (build_reservation_receipt encode formats room_of reservation station (some app_settings))
    job ←
        enqueue_print_job send now station (some reservation.id) receipt.0 receipt.1
          (some admin.label)
    log admin.label "print_job.created" (some "print_job") (some job.id) (
        some (
          ("reservation_id", Json.number reservation.id)
          ∷ ("station_id", Json.number station.id)
          ∷ []))
    commit
    pure (job.id, status_value job.status)
