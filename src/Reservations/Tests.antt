-- ===== src/Reservations/Tests.antt =====
-- Requests on a hotel with a cancelled and a confirmed reservation.
use resaprint.Base.{
  ◌≡◌, refl, true, false, none, some, List, [], ◌∷◌, arith, get, delete, select, ℕ, Option, String,
  inl, inr, ap,
}
use resaprint.Models.{Room, Reservation, ReservationStatus, AdminPin, AdminRole, Decimal}
use resaprint.Database.{Db, empty_db, request}
use resaprint.EmailIngest.{get_reservation}
use resaprint.Reservations.{
  ReservationCreate, manual_reservation, delete_reservation_action, apply_delete,
  create_reservation,
}
use resaprint.EmailIngest.Samples.{env, services, registry, email}
use resaprint.Config.{get_or_create_settings}
use resaprint.AdminUi.{WalkinForm}
use resaprint.Parsers.Samples.{toy, inn}
use resaprint.Reservations.Planned.{IsPlanned}
use resaprint.Reservations.History.{
  Request, create, cancel, reassign, delete as delete_request, receive, reparse, delete_room,
  serve_all, serve_all-IsPlanned, walkin, AllFitting, serve,
}
use resaprint.Reservations.Deletion.{delete_reservation-keeps_active}

abbrev boss : AdminPin
boss = record {
  id = 1;
  label = "Boss";
  pin_hash = "1234";
  role = AdminRole.admin;
  is_active = true;
  failed_attempts = 0;
  locked_until = none;
  last_login_at = none;
}

abbrev payload : ReservationCreate
payload = record {
  external_ref = none;
  source_channel = "manual";
  guest_name = "Ann";
  guest_email = none;
  guest_phone = none;
  checkin = 10;
  checkout = 12;
  room_type = none;
  guests_adults = 1;
  guests_children = 0;
  price_total = none;
  price_currency = "EUR";
}

abbrev confirmed : Reservation
confirmed = record (manual_reservation 0 payload 1) { assigned_room_id = some 7 }

abbrev cancelled : Reservation
cancelled = record (manual_reservation 0 payload 2) {
  status = ReservationStatus.cancelled;
  assigned_room_id = some 7;
}

abbrev seven : Room
seven = record {
  id = 7;
  room_number = "7";
  category = "double";
  floor = none;
  is_active = true;
  notes = none;
}

abbrev hotel : Db
hotel = record empty_db {
  reservations = record { rows = confirmed ∷ cancelled ∷ []; next_id = 3 };
  rooms = record { rows = seven ∷ []; next_id = 8 };
  parser_field_mappings = record { rows = inn ∷ []; next_id = 2 };
}

deletion_run : Unit {0}
unfolding request delete_reservation_action apply_delete get delete select
deletion_run = tt

deleted : (request (delete_reservation_action boss 2) hotel).1.reservations.rows ≡ confirmed ∷ []
unfolding deletion_run
deleted = refl

found_confirmed : get_reservation 1 hotel ≡ some confirmed
unfolding get
found_confirmed = refl

delete_reservation-keeps_active_example :
    get_reservation 1 (request (delete_reservation_action boss 2) hotel).1 ≡ some confirmed
delete_reservation-keeps_active_example =
    delete_reservation-keeps_active boss 2 hotel confirmed found_confirmed refl

hotel-IsPlanned : IsPlanned hotel.reservations
hotel-IsPlanned = record {
  fresh = omega arith;
  consistent = record {
    apart = λ r s mr ms ne ar as_active o k hr hs. ground arith;
    distinct = λ r m active. ground arith;
  };
}

-- A walk-in for another week than the stays of the hotel.
abbrev guest : WalkinForm
guest = record {
  guest_name = "Eva";
  checkout = 21;
  room_id = 7;
  price_total = "";
  guests_adults = 1;
  guests_children = 0;
}

abbrev no_decimal : String → Option Decimal
no_decimal text = none

abbrev no_text : ℕ → String
no_text n = ""

abbrev requests : List Request
requests =
    create 5 boss payload
    ∷ walkin 5 20 boss guest
    ∷ receive 6 registry (email "1" "booking" "R1")
    ∷ receive 6 registry (email "2" "cancelled" "R1")
    ∷ receive 6 registry (email "3" "news" "")
    ∷ reassign boss 1
    ∷ cancel boss 1
    ∷ delete_request boss 2
    ∷ reparse 7 boss 1 false
    ∷ delete_room boss 7
    ∷ []

-- What the requests before the walk-in leave of the stays.
created_then : Unit {0}
unfolding serve request create_reservation get_or_create_settings
created_then = tt

requests-AllFitting : AllFitting env services toy no_decimal no_text no_text requests hotel
unfolding created_then get
requests-AllFitting = (
  tt,
  (
    λ s (m, _, (_, late), _, _). elim m [
      | inl e ↦ let c : s.checkout ≡ 12 = ap (λ r. r.checkout) e in absurd (omega arith)
      | inr (inl e) ↦ let c : s.checkout ≡ 12 = ap (λ r. r.checkout) e in absurd (omega arith)
      | inr (inr (inl e)) ↦ let c : s.checkout ≡ 12 = ap (λ r. r.checkout) e in absurd (omega arith)
      | inr (inr (inr n)) ↦ elim n [ ]
    ],
    (tt, (tt, (tt, (tt, (tt, (tt, (tt, (tt, tt)))))))),
  ),
)

serve_all-IsPlanned_example :
    IsPlanned (serve_all env services toy no_decimal no_text no_text requests hotel).reservations
serve_all-IsPlanned_example =
    serve_all-IsPlanned env services toy no_decimal no_text no_text requests hotel
      requests-AllFitting hotel-IsPlanned
