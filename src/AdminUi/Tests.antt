-- ===== src/AdminUi/Tests.antt =====
-- A small house with a room, a desk printer, an arrival and walk-ins.
use Prim.Native.String.{◌++◌ as append_text}
use resaprint.Base.{
  ℕ, zero, suc, ◌≡◌, refl, ◌↔◌, true, false, Option, none, some, String, List, [], ◌∷◌, In, get,
  update, delete, select, map, arith,
}
use resaprint.Models.{
  Reservation, ReservationStatus, Room, AdminPin, AdminRole, PrintStation, StationConnectionType,
  Decimal,
}
use resaprint.Database.{Db, Session, empty_db, request}
use resaprint.Config.{get_or_create_settings}
use resaprint.RoomAssignment.{is_cancelled}
use resaprint.PrintJobs.{enqueue_print_job, dispatch_if_lan}
use resaprint.Receipt.{build_reservation_receipt}
use resaprint.EmailIngest.{get_room}
use resaprint.EmailIngest.Samples.{env, services}
use resaprint.Reservations.{
  delete_reservation_action, apply_delete, update_reservation_status_action, change_status,
}
use resaprint.AdminUi.{
  WalkinForm, count_walkins, create_walkin_action, next_walkin_ref, walkin_reservation, id_of,
  SheetRow, legacy_row, sheet_context, assign_and_print_action, reservation_print_action,
  print_loaded, parsed_price,
}
use resaprint.AdminUi.Weeks.{week_of, walkins_of, create_walkin_action-counts}
use resaprint.AdminUi.Arrivals.{IsRowOf, sheet_context-rows}

abbrev boss : AdminPin
boss = record {
  id = 1;
  label = "Boss";
  pin_hash = "1234";
  role = AdminRole.admin;
  is_active = true;
  failed_attempts = 0;
  locked_until = none;
  last_login_at = none;
}

abbrev room_seven : Room
room_seven = record {
  id = 7;
  room_number = "101";
  category = "single";
  floor = none;
  notes = none;
  is_active = true;
}

abbrev desk_printer : PrintStation
desk_printer = record {
  id = 1;
  name = "desk";
  connection_type = StationConnectionType.usb_agent;
  lan_host = none;
  lan_port = 9100;
  paper_width_cols = 32;
  codepage = "cp437";
  api_key_hash = none;
  api_key_prefix = none;
  paired_at = none;
  is_active = true;
  last_seen_at = none;
}

abbrev guest : WalkinForm
guest = record {
  guest_name = "Ana";
  checkout = 12;
  room_id = 7;
  price_total = "";
  guests_adults = 1;
  guests_children = 0;
}

abbrev house : Db
house = record empty_db {
  rooms = record { rows = room_seven ∷ []; next_id = 8 };
  print_stations = record { rows = desk_printer ∷ []; next_id = 2 };
}

abbrev house_open : Session
house_open = record { committed = house; current = house }

abbrev no_decimal : String → Option Decimal
no_decimal text = none

abbrev day_text : ℕ → String
day_text day = "210726"

abbrev ordinal : ℕ → String
ordinal n = elim n [ zero ↦ "00" | suc m ↦ elim m [ zero ↦ "01" | suc k ↦ "02" ] ]

abbrev walk_in : Db → Db
walk_in db = (request (create_walkin_action no_decimal day_text ordinal 5 10 boss guest) db).1

walk_run : Unit {0}
unfolding create_walkin_action walkin_reservation next_walkin_ref count_walkins parsed_price request
    get update delete select
walk_run = tt

-- The reference of a walk-in is given again once an earlier one of the week is deleted.
abbrev ref_of : Reservation → Option String
ref_of r = r.external_ref

abbrev after_deletion : Db
after_deletion =
    let two = walk_in (walk_in house) in
    let cancelled =
      (request (update_reservation_status_action boss 1 (some ReservationStatus.cancelled))
        two).1 in
    walk_in (request (delete_reservation_action boss 1) cancelled).1

walkin_refs_collide :
    map ref_of after_deletion.reservations.rows
    ≡ some (append_text "210726" "02") ∷ some (append_text "210726" "02") ∷ []
unfolding walk_run delete_reservation_action apply_delete update_reservation_status_action
    change_status
walkin_refs_collide = refl

create_walkin_action-counts_example :
    let s' = (create_walkin_action no_decimal day_text ordinal 5 10 boss guest house_open).1 in
    let walkins = λ (t : Session). walkins_of (week_of 10) t.current.reservations.rows in
    (s'.committed ≡ s'.current)
    × (walkins s' ≡ suc (walkins house_open))
    × ((r : Reservation) × In r s'.current.reservations.rows
        × (r.external_ref ≡ some (append_text (day_text 10) (ordinal (walkins s'))))
        × (r.assigned_room_id ≡ id_of no_decimal day_text ordinal (get_room house (some 7))))
create_walkin_action-counts_example =
    create_walkin_action-counts no_decimal day_text ordinal 5 10 boss guest house_open (omega arith)

abbrev full : Db
full = walk_in house

abbrev ana_row : SheetRow
ana_row =
    legacy_row
      (walkin_reservation no_decimal day_text ordinal 5 10 guest (some room_seven) "21072601" 1)

sheet_context-rows_example : In ana_row (sheet_context (λ a b. true) 10 full).rows ↔ (
    (r : Reservation) × In r full.reservations.rows
    × (r.checkin ≡ 10)
    × (is_cancelled r.status ≡ false)
    × IsRowOf ana_row r)
sheet_context-rows_example = sheet_context-rows (λ a b. true) 10 full ana_row

-- The printed receipt does not show the room that is assigned with it: it is the receipt of the
-- reservation as it was.
abbrev unroomed : Session
unroomed =
    let db = record house {
      reservations = record {
        rows =
            record (walkin_reservation no_decimal day_text ordinal 5 10 guest (some room_seven) "1"
              1) { assigned_room_id = none }
            ∷ [];
        next_id = 2;
      };
    } in
    record { committed = db; current = db }

abbrev printed : Session → List String
printed s = map (λ j. j.payload_text) s.current.print_jobs.rows

receipt_of_before :
    printed (assign_and_print_action env services 9 (λ text. some 7) boss 1 10 "7" "" 1 unroomed).1
    ≡ printed (reservation_print_action env services 9 boss 1 1 unroomed).1
unfolding walk_run assign_and_print_action reservation_print_action print_loaded
    get_or_create_settings enqueue_print_job dispatch_if_lan build_reservation_receipt
receipt_of_before = refl
