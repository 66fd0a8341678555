-- ===== src/Reservations/Consistency.antt =====
-- The requests that cancel, reassign and delete a reservation, and the stored reservations.
use resaprint.Base.{
  ℕ, ◌<◌, ◌≡◌, ◌∙◌, inl, inr, Bool, true, false, Option, none, some, String, List, In, update,
  delete,
}
use resaprint.Base.Lemmas.{In-update, In-delete, All-update, All-delete}
use resaprint.Models.{Reservation, AdminPin}
use resaprint.Database.{
  Db, put_reservation, Holds, Holds-pure, Holds-gets, Holds-modify, Holds-commit, Holds-bind,
  Holds-then, Holds-if, Holds-or_raise,
}
use resaprint.RoomAssignment.{is_cancelled, reassign_rooms_for_reservation}
use resaprint.RoomAssignment.Occupied.{IsActive}
use resaprint.RoomAssignment.Consistent.{IsConsistent}
use resaprint.RoomAssignment.Assignment.{reassign_rooms-IsAssignment}
use resaprint.EmailIngest.{cancel, get_reservation}
use resaprint.Reservations.Routes.{find_reservation, reservation_not_found, cancel_reservation}
use resaprint.Reservations.Rooms.{
  reassign_room, remove_reservation, apply_delete, delete_if, delete_reservation_action,
}
use resaprint.Reservations.Planned.{put-IsPlanned}
use resaprint.Reservations.Created.{Planned, log-Planned}

-- Fewer active reservations stay consistent.
IsConsistent-sub :
    (rs ss : List Reservation)
    → ((r : Reservation) → In r ss → IsActive r → In r rs)
    → IsConsistent rs
    → IsConsistent ss
IsConsistent-sub rs ss sub c = record {
  apart = λ r s mr ms ne ar as_active o j.
      c.apart r s (sub r mr ar) (sub s ms as_active) ne ar as_active o j;
  distinct = λ r m active. c.distinct r (sub r m active) active;
}

pub cancel-Planned : (k : ℕ) (db : Db) → Planned db → Planned (put_reservation k cancel db)
cancel-Planned k db h = record {
  fresh =
      All-update (λ r. r.id) k (λ r. r.id < db.reservations.next_id) cancel db.reservations.rows
        (λ r lt e. lt) h.fresh;
  consistent =
      IsConsistent-sub db.reservations.rows (update (λ r. r.id) k cancel db.reservations.rows) kept
        h.consistent;
}
  where
    kept :
        (r : Reservation)
        → In r (update (λ r. r.id) k cancel db.reservations.rows)
        → IsActive r
        → In r db.reservations.rows
    kept r m active = elim (In-update (λ r. r.id) k cancel r db.reservations.rows m) [
      | inl (old, _) ↦ old
      | inr (x, _, _, e) ↦ absurd (let inactive : true ≡ false = rw e at active in cc)
    ]

reassign-Planned :
    (le : String → String → Bool) (k : ℕ) (db : Db)
    → Planned db
    → Planned (put_reservation k (reassign_rooms_for_reservation le db) db)
reassign-Planned le k db =
    put-IsPlanned db k (reassign_rooms_for_reservation le db)
      (λ r _ _. reassign_rooms-IsAssignment le db r)
      (λ r e. (reassign_rooms-IsAssignment le db r).same_id ∙ e)

remove-Planned : (k : ℕ) (db : Db) → Planned db → Planned (remove_reservation k db)
remove-Planned k db h = record {
  fresh =
      All-delete (λ r. r.id) k (λ r. r.id < db.reservations.next_id) db.reservations.rows h.fresh;
  consistent =
      IsConsistent-sub db.reservations.rows (delete (λ r. r.id) k db.reservations.rows)
        (λ r m _. (In-delete (λ r. r.id) k r db.reservations.rows m).0) h.consistent;
}

Holds-find : (k : ℕ) → Holds Planned (λ _. Unit {0}) (find_reservation k)
Holds-find k =
    Holds-bind {P = λ _. Unit {0}} (Holds-gets (get_reservation k) (λ _ _. tt))
      (λ r _. Holds-or_raise r reservation_not_found (λ _ _. tt))

pub cancel_reservation-Planned :
    (admin : AdminPin) (k : ℕ) → Holds Planned (λ _. Unit {0}) (cancel_reservation admin k)
unfolding cancel_reservation
cancel_reservation-Planned admin k = Holds-bind (Holds-find k) λ r _.
    Holds-then (Holds-modify (put_reservation r.id cancel) (cancel-Planned r.id)) (
      Holds-then
        (log-Planned admin.label "reservation.cancelled" (some "reservation") (some r.id) none)
        (Holds-then Holds-commit (Holds-pure (cancel r) tt)))

pub reassign_room-Planned :
    (le : String → String → Bool) (admin : AdminPin) (k : ℕ)
    → Holds Planned (λ _. Unit {0}) (reassign_room le admin k)
unfolding reassign_room
reassign_room-Planned le admin k = Holds-bind (Holds-find k) λ r _.
    Holds-bind {P = λ _. Unit {0}}
      (Holds-gets (λ db. reassign_rooms_for_reservation le db r) (λ _ _. tt))
      λ assigned _.
        Holds-then
          (Holds-modify (λ db. put_reservation r.id (reassign_rooms_for_reservation le db) db)
            (reassign-Planned le r.id))
          (Holds-then
            (log-Planned admin.label "reservation.room_reassigned" (some "reservation") (some r.id)
              none)
            (Holds-then Holds-commit (Holds-pure assigned tt)))

pub delete_reservation-Planned :
    (admin : AdminPin) (k : ℕ) → Holds Planned (λ _. Unit {0}) (delete_reservation_action admin k)
unfolding delete_reservation_action apply_delete
delete_reservation-Planned admin k =
    Holds-bind {P = λ _. Unit {0}} (Holds-gets (get_reservation k) (λ _ _. tt)) (λ o _. found o)
  where
    found : (o : Option Reservation) → Holds Planned (λ _. Unit {0}) (delete_if admin o)
    found none = Holds-pure false tt
    found (some r) =
        Holds-if (is_cancelled r.status)
          (λ _. Holds-then (log-Planned _ _ _ _ _) (
            Holds-then (Holds-modify (remove_reservation r.id) (remove-Planned r.id))
              (Holds-then Holds-commit (Holds-pure true tt))))
          (λ _. Holds-pure false tt)
