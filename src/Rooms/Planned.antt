-- ===== src/Rooms/Planned.antt =====
-- The deletion of a room and the stored reservations, which forget the room.
use resaprint.Base.{
  ℕ, ◌<◌, inl, inr, Option, none, some, List, [], ◌∷◌, ◌++◌, map, In, Bool-cases, get, ◌==◌,
}
use resaprint.Base.Lemmas.{All-map, In-map}
use resaprint.Models.{Room, Reservation, RoomLine, AdminPin, Json}
use resaprint.Database.{
  Db, unset_if, Holds, Holds-gets, Holds-modify, Holds-commit, Holds-bind, Holds-then,
  Holds-or_raise,
}
use resaprint.RoomAssignment.{option_list, line_rooms, some_values}
use resaprint.RoomAssignment.Occupied.{rooms_of}
use resaprint.RoomAssignment.Lines.{Distinct}
use resaprint.Reservations.Created.{Planned, log-Planned}
use resaprint.Rooms.Routes.{
  delete_room, find_room, room_not_found, remove_room, unset_room, unset_line,
}
use resaprint.Rooms.Deletion.{In-unset_lines, In-unset_room, some_values-option}

module _ (k : ℕ) where
  -- Forgetting the room in front of rooms that forgot it.
  unset-Distinct :
      (o : Option ℕ) (xs ys : List ℕ)
      → ((j : ℕ) → In j ys → In j xs)
      → (Distinct xs → Distinct ys)
      → Distinct (option_list o ++ xs)
      → Distinct (option_list (unset_if k o) ++ ys)
  unset-Distinct none xs ys sub rest d = rest d
  unset-Distinct (some i) xs ys sub rest d = elim (Bool-cases (i == k)) [
    | inl t ↦ rw t (rest d.1)
    | inr f ↦ rw f ((λ m. d.0 (sub i m)), rest d.1)
  ]

  lines-Distinct :
      (ls : List RoomLine)
      → Distinct (line_rooms ls)
      → Distinct (line_rooms (map (unset_line k) ls))
  lines-Distinct [] d = tt
  lines-Distinct (l ∷ ls) d =
      let rest = map (λ l. l.assigned_room_id) ls in
      let rest' = map (λ l. l.assigned_room_id) (map (unset_line k) ls) in
      rw (some_values-option k (unset_if k l.assigned_room_id) rest') (
        unset-Distinct l.assigned_room_id (some_values rest) (some_values rest')
          (λ j m. (In-unset_lines k j ls m).0) (lines-Distinct ls)
          (rw (some_values-option k l.assigned_room_id rest) at d))

  unset_room-Distinct :
      (r : Reservation) → Distinct (rooms_of r) → Distinct (rooms_of (unset_room k r))
  unset_room-Distinct r =
      unset-Distinct r.assigned_room_id (line_rooms r.room_lines)
        (line_rooms (map (unset_line k) r.room_lines))
        (λ j m. (In-unset_lines k j r.room_lines m).0) (lines-Distinct r.room_lines)

  remove_room-Planned : (db : Db) → Planned db → Planned (remove_room k db)
  remove_room-Planned db h = record {
    fresh =
        All-map (λ r. r.id < db.reservations.next_id) (unset_room k) db.reservations.rows
          (λ r lt. lt) h.fresh;
    consistent = record {
      apart = λ r s mr ms ne ar as_active o j hr hs.
          let (r0, i, e) = In-map (unset_room k) r db.reservations.rows mr in
          let (s0, i', e') = In-map (unset_room k) s db.reservations.rows ms in
          h.consistent.apart r0 s0 i i' (λ same. ne (rw (e, e') same)) (rw e at ar)
            (rw e' at as_active) (rw (e, e') at o) j (In-unset_room k j r0 (rw e at hr)).0
            (In-unset_room k j s0 (rw e' at hs)).0;
      distinct = λ r m active.
          let (r0, i, e) = In-map (unset_room k) r db.reservations.rows m in
          rw e (unset_room-Distinct r0 (h.consistent.distinct r0 i (rw e at active)));
    };
  }

find_room-Planned : (k : ℕ) → Holds Planned (λ _. Unit {0}) (find_room k)
find_room-Planned k =
    Holds-bind {P = λ _. Unit {0}}
      (Holds-gets (λ db. get (λ (r : Room). r.id) k db.rooms.rows) (λ _ _. tt))
      (λ o _. Holds-or_raise o room_not_found (λ _ _. tt))

pub delete_room-Planned :
    (admin : AdminPin) (k : ℕ) → Holds Planned (λ _. Unit {0}) (delete_room admin k)
unfolding delete_room
delete_room-Planned admin k = Holds-bind (find_room-Planned k) λ (room : Room) _.
    Holds-then
      (log-Planned admin.label "room.deleted" (some "room") (some room.id)
        (some (("room_number", Json.text room.room_number) ∷ [])))
      (Holds-then (Holds-modify (remove_room room.id) (remove_room-Planned room.id)) Holds-commit)
