-- ===== src/AdminUi/Booking.antt =====
-- The forms for a new reservation and for a walk-in. Python's formatting of a date as DDMMYY and of
-- a number with two digits are parameters.
use Prim.Native.String.{◌++◌ as append_text}
use resaprint.Base.{
  ℕ, ◌+◌, ◌-◌, ◌%◌, Bool, true, ◌&&◌, Option, none, some, String, [], ◌∷◌, length, select, leb,
  text_eq, truthy, or_none, if◌then◌else◌,
}
use resaprint.Models.{Reservation, Room, AdminPin, Date, Decimal, Time, Json}
use resaprint.Database.{Db, Action, pure, gets, commit, ◌>>=◌, ◌>>◌}
use resaprint.Audit.{log}
use resaprint.Text.{strip}
use resaprint.RoomAssignment.{assign_rooms_for_reservation}
use resaprint.Config.{Env, get_or_create_settings}
use resaprint.EmailIngest.{add_reservation, assign_if_enabled, get_room}
use resaprint.Reservations.{ReservationCreate, manual_reservation, json_id}

pub record ReservationForm : Type 0 where
  pub guest_name : String
  pub source_channel : String
  pub checkin : Date
  pub checkout : Date
  pub room_type : String
  pub guests_adults : ℕ
  pub guests_children : ℕ
  pub price_total : String
  pub price_currency : String
  pub guest_email : String
  pub guest_phone : String
  pub external_ref : String

-- `text.strip() or None`
unfoldable pub strip_or_none : String → Option String
unfolding strip
strip_or_none text = or_none (strip text)

abbrev pub channel_or_manual : Option String → String
channel_or_manual none = "manual"
channel_or_manual (some channel) = channel

module _ (decimal : String → Option Decimal) where
  -- A price that does not parse is left out.
  unfoldable pub parsed_price : String → Option Decimal
  unfolding strip
  parsed_price price_total = if truthy (strip price_total) then decimal price_total else none

  unfoldable pub form_payload : ReservationForm → ReservationCreate
  unfolding strip_or_none parsed_price
  form_payload form = record {
    external_ref = strip_or_none form.external_ref;
    source_channel = channel_or_manual (strip_or_none form.source_channel);
    guest_name = form.guest_name;
    guest_email = strip_or_none form.guest_email;
    guest_phone = strip_or_none form.guest_phone;
    checkin = form.checkin;
    checkout = form.checkout;
    room_type = strip_or_none form.room_type;
    guests_adults = form.guests_adults;
    guests_children = form.guests_children;
    price_total = parsed_price form.price_total;
    price_currency = form.price_currency;
  }

  -- The id of the reservation, whose page is shown next.
  unfoldable pub create_reservation_action :
      Env
      → (String → String)
      → (String → String → Bool)
      → Time
      → AdminPin
      → ReservationForm
      → Action ℕ
  unfolding form_payload get_or_create_settings assign_rooms_for_reservation
  create_reservation_action env encrypt le now admin form = do
    reservation ← add_reservation (manual_reservation now (form_payload form))
    app_settings ← get_or_create_settings env encrypt
    assigned ←
        assign_if_enabled env encrypt le now app_settings.room_auto_assign_enabled reservation
    log admin.label "reservation.created_manual" (some "reservation") (some reservation.id)
        (some (("source_channel", Json.text reservation.source_channel) ∷ []))
    commit
    pure reservation.id

-- `date.weekday()`: day 1 was a Monday.
abbrev pub weekday : Date → ℕ
weekday d = (d + 6) % 7

abbrev pub monday_of : Date → Date
monday_of today = today - weekday today

abbrev pub is_walkin : Date → Reservation → Bool
is_walkin monday r =
    text_eq r.source_channel "01" && (leb monday r.checkin && leb r.checkin (monday + 6))

unfoldable pub count_walkins : Date → Db → ℕ
unfolding select
count_walkins today db = length (select (is_walkin (monday_of today)) db.reservations.rows)

pub record WalkinForm : Type 0 where
  pub guest_name : String
  pub checkout : Date
  pub room_id : ℕ
  pub price_total : String
  pub guests_adults : ℕ
  pub guests_children : ℕ

module _ (decimal : String → Option Decimal) (ddmmyy : Date → String)
    (two_digits : ℕ → String) where
  -- `_next_walkin_ref`
  unfoldable pub next_walkin_ref : Date → Db → String
  unfolding count_walkins
  next_walkin_ref today db = append_text (ddmmyy today) (two_digits (count_walkins today db + 1))

  abbrev pub category_of : Option Room → Option String
  category_of none = none
  category_of (some room) = some room.category

  abbrev pub id_of : Option Room → Option ℕ
  id_of none = none
  id_of (some room) = some room.id

  unfoldable pub walkin_reservation :
      Time → Date → WalkinForm → Option Room → String → ℕ → Reservation
  unfolding parsed_price
  walkin_reservation now today form room ref id =
      record (manual_reservation now
        (record {
          external_ref = some ref;
          source_channel = "01";
          guest_name = form.guest_name;
          guest_email = none;
          guest_phone = none;
          checkin = today;
          checkout = form.checkout;
          room_type = category_of room;
          guests_adults = form.guests_adults;
          guests_children = form.guests_children;
          price_total = parsed_price decimal form.price_total;
          price_currency = "EUR";
        })
        id) { assigned_room_id = id_of room }

  unfoldable pub create_walkin_action : Time → Date → AdminPin → WalkinForm → Action ℕ
  unfolding next_walkin_ref walkin_reservation
  create_walkin_action now today admin form = do
    room ← gets (λ db. get_room db (some form.room_id))
    ref ← gets (next_walkin_ref today)
    reservation ← add_reservation (walkin_reservation now today form room ref)
    log admin.label "reservation.created_manual" (some "reservation") (some reservation.id) (
        some (
          ("source_channel", Json.text "01")
          ∷ ("walkin", Json.flag true)
          ∷ ("room_id", json_id (id_of room))
          ∷ []))
    commit
    pure reservation.id
