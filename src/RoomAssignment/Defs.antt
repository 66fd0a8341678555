-- ===== src/RoomAssignment/Defs.antt =====
-- The occupied rooms, the search and the assignment.
use resaprint.Base.{
  ℕ, Bool, true, false, not, ◌&&◌, ◌||◌, Option, none, some, String, List, [], ◌∷◌, ◌++◌, map,
  text_eq, ltb, ◌==◌, if◌then◌else◌, truthy?, is_none, select, first, order_by,
}
use resaprint.Models.{Reservation, RoomLine, Room, ReservationStatus, Date}
use resaprint.Database.{Db}

abbrev pub is_cancelled : ReservationStatus → Bool
is_cancelled ReservationStatus.cancelled = true
is_cancelled _ = false

-- The values of a nullable column that are not null.
abbrev pub some_values : List (Option ℕ) → List ℕ
some_values [] = []
some_values (none ∷ xs) = some_values xs
some_values (some x ∷ xs) = x ∷ some_values xs

-- `id != exclude`, where an id to exclude is given.
abbrev pub is_other : Option ℕ → ℕ → Bool
is_other none k = true
is_other (some j) k = not (k == j)

-- The condition that both queries of `_occupied_room_ids` put on the reservation.
abbrev pub is_stay : Date → Date → Option ℕ → Reservation → Bool
is_stay checkin checkout exclude r =
    not (is_cancelled r.status)
    && (ltb r.checkin checkout && (ltb checkin r.checkout && is_other exclude r.id))

abbrev pub line_rooms : List RoomLine → List ℕ
line_rooms ls = some_values (map (λ l. l.assigned_room_id) ls)

-- The join of the room lines to their reservations.
unfoldable pub joined_room_ids : List Reservation → List ℕ
joined_room_ids [] = []
joined_room_ids (r ∷ rs) = line_rooms r.room_lines ++ joined_room_ids rs

-- `_occupied_room_ids`; the set is a list, read only through `contains`.
unfoldable pub occupied_room_ids : Db → Date → Date → Option ℕ → List ℕ
unfolding select joined_room_ids
occupied_room_ids db checkin checkout exclude =
    let stays = select (is_stay checkin checkout exclude) db.reservations.rows in
    some_values (map (λ r. r.assigned_room_id) stays) ++ joined_room_ids stays

abbrev pub contains : ℕ → List ℕ → Bool
contains k [] = false
contains k (j ∷ js) = j == k || contains k js

abbrev pub by_room_number : (String → String → Bool) → Room → Room → Bool
by_room_number le a b = le a.room_number b.room_number

-- The rooms that `find_free_room` may choose.
abbrev pub is_free : String → List ℕ → List ℕ → Room → Bool
is_free category occupied taken room =
    text_eq room.category category
    && (room.is_active && (not (contains room.id occupied) && not (contains room.id taken)))

abbrev pub clear_line : RoomLine → RoomLine
clear_line l = record l { assigned_room_id = none }

abbrev pub clear_rooms : Reservation → Reservation
clear_rooms r = record r { assigned_room_id = none; room_lines = map clear_line r.room_lines }

abbrev pub room_id : Option Room → Option ℕ
room_id none = none
room_id (some room) = some room.id

-- `assigned_this_call.add(room.id)`, where there is a room.
abbrev pub add_room : Option ℕ → List ℕ → List ℕ
add_room none taken = taken
add_room (some k) taken = k ∷ taken

module _ (le : String → String → Bool) (db : Db) where
  unfoldable pub find_free_room : String → Date → Date → Option ℕ → List ℕ → Option Room
  unfolding select order_by occupied_room_ids
  find_free_room category checkin checkout exclude taken =
      let occupied = occupied_room_ids db checkin checkout exclude in
      first (order_by (by_room_number le) (select (is_free category occupied taken) db.rooms.rows))

  -- The room that a line has behind its turn in the loop: its own, or a free one.
  unfoldable pub line_room : Reservation → List ℕ → RoomLine → Option ℕ
  unfolding find_free_room
  line_room r taken l = elim l.assigned_room_id [
    | some k ↦ some k
    | none ↦ room_id (find_free_room l.room_type r.checkin r.checkout (some r.id) taken)
  ]

  -- The loop over `reservation.room_lines`, with `assigned_this_call` as `taken`.
  unfoldable pub assign_lines : Reservation → List ℕ → List RoomLine → List RoomLine
  unfolding line_room
  assign_lines r taken [] = []
  assign_lines r taken (l ∷ ls) =
      let room = line_room r taken l in
      record l { assigned_room_id = room } ∷ assign_lines r (add_room room taken) ls

  -- The reservation without room lines: its own room type.
  unfoldable pub assign_single : Reservation → Option String → Reservation
  unfolding find_free_room
  assign_single r none = r
  assign_single r (some category) =
      if truthy? (some category) && is_none r.assigned_room_id
      then record r {
        assigned_room_id = room_id (find_free_room category r.checkin r.checkout (some r.id) []);
      }
      else r

  -- The queries exclude the reservation itself, so it does not matter that the changes of the loop
  -- are flushed before the next query.
  unfoldable pub assign_by_lines : Reservation → List RoomLine → Reservation
  unfolding assign_lines assign_single
  assign_by_lines r [] = assign_single r r.room_type
  assign_by_lines r (l ∷ ls) = record r { room_lines = assign_lines r [] (l ∷ ls) }

  unfoldable pub assign_rooms_for_reservation : Reservation → Reservation
  unfolding assign_by_lines
  assign_rooms_for_reservation r = assign_by_lines r r.room_lines

  unfoldable pub reassign_rooms_for_reservation : Reservation → Reservation
  unfolding assign_rooms_for_reservation
  reassign_rooms_for_reservation r = assign_rooms_for_reservation (clear_rooms r)
