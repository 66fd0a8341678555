-- ===== src/RoomAssignment/Plan.antt =====
-- Who is in which room on a day, and the grid of the room plan. A dict is an association list in
-- which a later write of a key comes first. The queries have no ORDER BY: both are taken to
-- give the rows in the same order.
use resaprint.Base.{
  ℕ, zero, suc, ◌+◌, ◌-◌, max, min, Bool, not, ◌&&◌, Option, none, some, String, List, [], ◌∷◌,
  ◌++◌, ltb, leb, ◌==◌, if◌then◌else◌, select,
}
use resaprint.Models.{Reservation, Date}
use resaprint.Database.{Db}
use resaprint.RoomAssignment.Defs.{is_cancelled, line_rooms}

-- A row of the query: the room that is assigned, and its reservation.
abbrev pub Assigned : Type 0
Assigned = ℕ × Reservation

abbrev pub with_reservation : Reservation → List ℕ → List Assigned
with_reservation r [] = []
with_reservation r (k ∷ ks) = (k, r) ∷ with_reservation r ks

abbrev pub option_list : Option ℕ → List ℕ
option_list none = []
option_list (some k) = k ∷ []

-- The rows of the reservation query, and those of the room line query.
unfoldable pub reservation_rows : List Reservation → List Assigned
reservation_rows [] = []
reservation_rows (r ∷ rs) =
    with_reservation r (option_list r.assigned_room_id) ++ reservation_rows rs

unfoldable pub room_line_rows : List Reservation → List Assigned
room_line_rows [] = []
room_line_rows (r ∷ rs) = with_reservation r (line_rooms r.room_lines) ++ room_line_rows rs

unfoldable pub assigned_rows : List Reservation → List Assigned
unfolding reservation_rows room_line_rows
assigned_rows rs = reservation_rows rs ++ room_line_rows rs

abbrev pub is_present : Date → Reservation → Bool
is_present day r = not (is_cancelled r.status) && (leb r.checkin day && ltb day r.checkout)

-- `occupied[room_id] = guest_name` for each row in turn.
unfoldable pub write_guests : List (ℕ × String) → List Assigned → List (ℕ × String)
write_guests acc [] = acc
write_guests acc ((k, r) ∷ rows) = write_guests ((k, r.guest_name) ∷ acc) rows

unfoldable pub rooms_occupied_on_date : Db → Date → List (ℕ × String)
unfolding assigned_rows select write_guests
rooms_occupied_on_date db day =
    write_guests [] (assigned_rows (select (is_present day) db.reservations.rows))

-- The cell of a room and a day: the reservation's id and the guest's name.
abbrev pub Cell : Type 0
Cell = ℕ × Date × (ℕ × String)

abbrev pub is_between : Date → Date → Reservation → Bool
is_between start_date end_date r =
    not (is_cancelled r.status) && (ltb r.checkin end_date && ltb start_date r.checkout)

-- `while day < last_day: grid[room_id][day] = ...; day += timedelta(days=1)`, by the days left.
unfoldable pub write_days : ℕ → ℕ → Reservation → Date → List Cell → List Cell
write_days zero k r day grid = grid
write_days (suc left) k r day grid =
    write_days left k r (day + 1) ((k, day, (r.id, r.guest_name)) ∷ grid)

unfoldable pub write_stays : Date → Date → List Cell → List Assigned → List Cell
unfolding write_days
write_stays start_date end_date grid [] = grid
write_stays start_date end_date grid ((k, r) ∷ rows) =
    let day = max r.checkin start_date in
    let last_day = min r.checkout end_date in
    write_stays start_date end_date (write_days (last_day - day) k r day grid) rows

unfoldable pub room_plan_grid : Db → Date → Date → List Cell
unfolding assigned_rows select write_stays
room_plan_grid db start_date end_date =
    write_stays start_date end_date []
      (assigned_rows (select (is_between start_date end_date) db.reservations.rows))

-- `occupied.get(room_id)` and `grid.get(room_id, {}).get(day)`
unfoldable pub guest_in : ℕ → List (ℕ × String) → Option String
guest_in k [] = none
guest_in k ((j, name) ∷ d) = if j == k then some name else guest_in k d

unfoldable pub cell_at : ℕ → Date → List Cell → Option (ℕ × String)
cell_at k day [] = none
cell_at k day ((j, d, v) ∷ grid) = if j == k && d == day then some v else cell_at k day grid
