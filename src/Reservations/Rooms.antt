-- ===== src/Reservations/Rooms.antt =====
-- The rooms of a reservation, by hand and anew, its status on the form, and its deletion.
use resaprint.Base.{
  ℕ, Bool, true, false, Option, none, some, String, List, [], ◌∷◌, map, get, delete, is_some,
  if◌then◌else◌, ◌==◌,
}
use resaprint.Models.{
  Reservation, RoomLine, ReservationStatus, AdminPin, PrintJob, UnparsedEmail, Json,
}
use resaprint.Database.{
  Db, Action, http_error, pure, gets, modify, commit, unless, put_reservation, unset_if, ◌>>=◌,
  ◌>>◌,
}
use resaprint.Audit.{log, log_row}
use resaprint.RoomAssignment.{is_cancelled, reassign_rooms_for_reservation}
use resaprint.EmailIngest.{get_reservation, get_room}
use resaprint.Reservations.Routes.{find_reservation, same_status, reservation_status_value}

unfoldable pub reassign_room : (String → String → Bool) → AdminPin → ℕ → Action Reservation
unfolding reassign_rooms_for_reservation
reassign_room le admin reservation_id = do
  reservation ← find_reservation reservation_id
  assigned ← gets (λ db. reassign_rooms_for_reservation le db reservation)
  modify (λ db. put_reservation reservation.id (reassign_rooms_for_reservation le db) db)
  log_row admin.label "reservation.room_reassigned" "reservation" reservation.id
  commit
  pure assigned

abbrev pub room_exists : Option ℕ → Db → Bool
room_exists none db = true
room_exists (some k) db = is_some (get_room db (some k))

abbrev pub line_exists : Option ℕ → Reservation → Bool
line_exists none r = true
line_exists (some k) r = is_some (get (λ l. l.id) k r.room_lines)

unfoldable pub set_line_room : ℕ → Option ℕ → List RoomLine → List RoomLine
set_line_room k room_id [] = []
set_line_room k room_id (l ∷ ls) =
    let rest = set_line_room k room_id ls in
    if l.id == k then record l { assigned_room_id = room_id } ∷ ls else l ∷ rest

abbrev pub set_room : Option ℕ → Option ℕ → Reservation → Reservation
set_room room_id none r = record r { assigned_room_id = room_id }
set_room room_id (some k) r = record r { room_lines = set_line_room k room_id r.room_lines }

abbrev pub json_id : Option ℕ → Json
json_id none = Json.null
json_id (some k) = Json.number k

unfoldable pub assign_room_manually : AdminPin → ℕ → Option ℕ → Option ℕ → Action Reservation
unfolding set_line_room
assign_room_manually admin reservation_id room_id room_line_id = do
  reservation ← find_reservation reservation_id
  exists ← gets (room_exists room_id)
  unless exists (http_error 404 "room not found")
  unless (line_exists room_line_id reservation)
      (http_error 404 "room line not found on this reservation")
  modify (put_reservation reservation.id (set_room room_id room_line_id))
  log admin.label "reservation.room_assigned_manually" (some "reservation") (some reservation.id)
      (some (("room_id", json_id room_id) ∷ ("room_line_id", json_id room_line_id) ∷ []))
  commit
  pure (set_room room_id room_line_id reservation)

-- The text of the form, where it is a status.
abbrev pub with_status : ReservationStatus → Reservation → Reservation
with_status status r = record r { status = status }

unfoldable pub change_status : AdminPin → ReservationStatus → Reservation → Action (Unit {0})
change_status admin status reservation = do
  modify (put_reservation reservation.id (with_status status))
  log admin.label "reservation.status_changed" (some "reservation") (some reservation.id) (
      some (
        ("from", Json.text (reservation_status_value reservation.status))
        ∷ ("to", Json.text (reservation_status_value status))
        ∷ []))
  commit

abbrev pub change_if : AdminPin → Option ReservationStatus → Option Reservation → Action (Unit {0})
change_if admin (some status) (some reservation) =
    if same_status status reservation.status
    then pure tt
    else change_status admin status reservation
change_if admin _ _ = pure tt

unfoldable pub update_reservation_status_action :
    AdminPin → ℕ → Option ReservationStatus → Action (Unit {0})
unfolding change_status
update_reservation_status_action admin reservation_id status =
    gets (get_reservation reservation_id) >>= change_if admin status

-- `db.delete(reservation)`: its room lines go with it; the jobs and emails that name it keep a null.
abbrev pub unset_job : ℕ → PrintJob → PrintJob
unset_job k j = record j { reservation_id = unset_if k j.reservation_id }

abbrev pub unset_email : ℕ → UnparsedEmail → UnparsedEmail
unset_email k e = record e { resolved_reservation_id = unset_if k e.resolved_reservation_id }

abbrev pub remove_reservation : ℕ → Db → Db
remove_reservation k db = record db {
  reservations = record db.reservations { rows = delete (λ r. r.id) k db.reservations.rows };
  print_jobs = record db.print_jobs { rows = map (unset_job k) db.print_jobs.rows };
  unparsed_emails = record db.unparsed_emails {
    rows = map (unset_email k) db.unparsed_emails.rows;
  };
}

abbrev pub json_text : Option String → Json
json_text none = Json.null
json_text (some s) = Json.text s

unfoldable pub apply_delete : AdminPin → Reservation → Action Bool
apply_delete admin reservation = do
  log admin.label "reservation.deleted" (some "reservation") (some reservation.id) (
      some (
        ("guest_name", Json.text reservation.guest_name)
        ∷ ("external_ref", json_text reservation.external_ref)
        ∷ []))
  modify (remove_reservation reservation.id)
  commit
  pure true

abbrev pub delete_if : AdminPin → Option Reservation → Action Bool
delete_if admin none = pure false
delete_if admin (some reservation) =
    if is_cancelled reservation.status then apply_delete admin reservation else pure false

-- Whether the reservation was deleted; otherwise its page is shown again.
unfoldable pub delete_reservation_action : AdminPin → ℕ → Action Bool
unfolding apply_delete
delete_reservation_action admin reservation_id =
    gets (get_reservation reservation_id) >>= delete_if admin
