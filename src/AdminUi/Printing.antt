-- ===== src/AdminUi/Printing.antt =====
-- The forms that print a reservation.
use resaprint.Base.{
  ℕ, Bool, true, not, ◌||◌, Option, none, some, String, List, [], ◌∷◌, get, truthy, or_none,
  if◌then◌else◌,
}
use resaprint.Models.{Reservation, RoomLine, PrintStation, AdminPin, Date, Time, Json, PrintJob}
use resaprint.Database.{
  Action, Outcome, returned, raised, integrity_error, other_error, pure, gets, modify, commit,
  unless, put_reservation, ◌>>=◌, ◌>>◌,
}
use resaprint.Audit.{log}
use resaprint.Config.{Env, get_or_create_settings}
use resaprint.Receipt.{build_reservation_receipt}
use resaprint.PrintJobs.{enqueue_print_job, get_station, status_value}
use resaprint.EmailIngest.{Services, outcome, get_reservation, get_room}
use resaprint.Reservations.{set_room, room_exists, json_id, json_text}
use resaprint.AdminUi.Sheet.{SheetContext, sheet_context}

abbrev pub active_or_none : Option PrintStation → Option PrintStation
active_or_none none = none
active_or_none (some station) = if station.is_active then some station else none

module _ (env : Env) (services : Services) (now : Time) where
  -- The receipt of what was loaded, queued and logged.
  unfoldable pub print_loaded : AdminPin → Reservation → PrintStation → Action PrintJob
  unfolding get_or_create_settings build_reservation_receipt enqueue_print_job
  print_loaded admin loaded station = do
    app_settings ← get_or_create_settings env services.encrypt
    room_of ← gets get_room
    receipt ← outcome (
        build_reservation_receipt services.encode services.formats room_of loaded station
          (some app_settings))
    job ←
        enqueue_print_job services.send now station (some loaded.id) receipt.0 receipt.1
          (some admin.label)
    log admin.label "print_job.created" (some "print_job") (some job.id) (
        some
          (("reservation_id", Json.number loaded.id) ∷ ("station_id", Json.number station.id) ∷ []))
    commit
    pure job

  abbrev pub print_found :
      AdminPin → Option Reservation → Option PrintStation → Action (Option (ℕ × String))
  print_found admin (some reservation) (some station) = do
    job ← print_loaded admin reservation station
    pure (some (job.id, status_value job.status))
  print_found admin _ _ = pure none

  -- The id and the status of the job, or nothing where the page says that something is missing.
  unfoldable pub reservation_print_action : AdminPin → ℕ → ℕ → Action (Option (ℕ × String))
  unfolding print_loaded
  reservation_print_action admin reservation_id station_id = do
    reservation ← gets (get_reservation reservation_id)
    station ← gets (get_station station_id)
    print_found admin reservation (active_or_none station)

  module _ (int : String → Option ℕ) where
    -- `int(text)`
    abbrev pub int_or_raise : String → Outcome ℕ
    int_or_raise text = elim (int text) [
      | none ↦ raised (other_error "invalid literal for int()")
      | some k ↦ returned k
    ]

    -- `int(room_id) if room_id else None`
    abbrev pub room_id_value : String → Outcome (Option ℕ)
    room_id_value text =
        if truthy text
        then elim (int_or_raise text) [ raised e ↦ raised e | returned k ↦ returned (some k) ]
        else returned none

    -- The line with the id; the id is read only where there is a line to compare it with.
    abbrev pub line_named : String → List RoomLine → Outcome (Option RoomLine)
    line_named text [] = returned none
    line_named text (l ∷ ls) = elim (int_or_raise text) [
      | raised e ↦ raised e
      | returned k ↦ returned (get (λ l. l.id) k (l ∷ ls))
    ]

    -- The room is assigned to the line or to the reservation, where there is such a line.
    abbrev pub assign_to : Option ℕ → Reservation → Option RoomLine → Action (Unit {0})
    assign_to room_id reservation none = pure tt
    assign_to room_id reservation (some l) =
        modify (put_reservation reservation.id (set_room room_id (some l.id)))

    abbrev pub assign_by_form : Option ℕ → String → Reservation → Action (Unit {0})
    assign_by_form room_id line_text reservation =
        if truthy line_text
        then outcome (line_named line_text reservation.room_lines) >>= assign_to room_id reservation
        else modify (put_reservation reservation.id (set_room room_id none))

    -- The foreign key of the room that was assigned, at the flush.
    abbrev pub sets_room : String → Reservation → Bool
    sets_room line_text reservation = elim (line_named line_text reservation.room_lines) [
      | returned none ↦ not (truthy line_text)
      | returned (some l) ↦ true
      | raised e ↦ not (truthy line_text)
    ]

    -- The receipt is that of the reservation as it was loaded: assigning a room's id does not
    -- change the room that SQLAlchemy loaded with the reservation.
    abbrev pub assign_and_print :
        AdminPin → String → String → Option Reservation → Option PrintStation → Action (Unit {0})
    assign_and_print admin room_text line_text (some reservation) (some station) = do
      room_id ← outcome (room_id_value room_text)
      assign_by_form room_id line_text reservation
      log admin.label "reservation.room_assigned_manually" (some "reservation")
          (some reservation.id)
          (some
            (("room_id", json_id room_id) ∷ ("room_line_id", json_text (or_none line_text)) ∷ []))
      exists ← gets (room_exists room_id)
      unless (exists || not (sets_room line_text reservation)) integrity_error
      print_loaded admin reservation station
      pure tt
    assign_and_print admin room_text line_text _ _ = pure tt

    unfoldable pub assign_and_print_action :
        AdminPin → ℕ → Date → String → String → ℕ → Action SheetContext
    unfolding print_loaded sheet_context
    assign_and_print_action admin reservation_id sheet_date room_id room_line_id station_id = do
      reservation ← gets (get_reservation reservation_id)
      station ← gets (get_station station_id)
      assign_and_print admin room_id room_line_id reservation (active_or_none station)
      gets (sheet_context services.le sheet_date)
