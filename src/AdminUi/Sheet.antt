-- ===== src/AdminUi/Sheet.antt =====
-- The sheet of a day's arrivals, and the plan of the rooms. `le` is the database's order of texts.
use resaprint.Base.{
  ℕ, zero, suc, ◌+◌, ◌-◌, max, min, Bool, not, ◌&&◌, Option, none, some, String, List, [], ◌∷◌,
  ◌++◌, map, select, order_by, ◌==◌,
}
use resaprint.Models.{Reservation, RoomLine, Room, PrintStation, Date}
use resaprint.Database.{Db}
use resaprint.RoomAssignment.{is_cancelled, rooms_occupied_on_date, room_plan_grid, Cell}

pub record SheetRow : Type 0 where
  pub reservation : Reservation
  pub room_line_id : Option ℕ
  pub category : Option String
  pub assigned_room_id : Option ℕ

abbrev pub line_row : Reservation → RoomLine → SheetRow
line_row r l = record {
  reservation = r;
  room_line_id = some l.id;
  category = some l.room_type;
  assigned_room_id = l.assigned_room_id;
}

abbrev pub legacy_row : Reservation → SheetRow
legacy_row r = record {
  reservation = r;
  room_line_id = none;
  category = r.room_type;
  assigned_room_id = r.assigned_room_id;
}

-- A row for each room line, or one row where there is none.
abbrev pub rows_of : Reservation → List RoomLine → List SheetRow
rows_of r [] = legacy_row r ∷ []
rows_of r (l ∷ ls) = map (line_row r) (l ∷ ls)

-- `_sheet_rows`
unfoldable pub sheet_rows : List Reservation → List SheetRow
sheet_rows [] = []
sheet_rows (r ∷ rs) = rows_of r r.room_lines ++ sheet_rows rs

pub record SheetContext : Type 0 where
  pub rows : List SheetRow
  pub rooms : List Room
  pub stations : List PrintStation
  pub occupied : List (ℕ × String)
  pub sheet_date : Date
  pub prev_date : Date
  pub next_date : Date

pub record RoomPlan : Type 0 where
  pub rooms : List Room
  pub date_range : List Date
  pub grid : List Cell
  pub days : ℕ
  pub prev_start : Date
  pub next_start : Date

abbrev pub arrives_on : Date → Reservation → Bool
arrives_on day r = r.checkin == day && not (is_cancelled r.status)

module _ (le : String → String → Bool) where
  unfoldable pub active_rooms : Db → List Room
  unfolding select order_by
  active_rooms db =
      order_by (λ a b. le a.room_number b.room_number) (select (λ r. r.is_active) db.rooms.rows)

  unfoldable pub active_stations : Db → List PrintStation
  unfolding select order_by
  active_stations db =
      order_by (λ a b. le a.name b.name) (select (λ s. s.is_active) db.print_stations.rows)

  unfoldable pub arrivals : Date → Db → List Reservation
  unfolding select order_by
  arrivals day db =
      order_by (λ a b. le a.guest_name b.guest_name) (select (arrives_on day) db.reservations.rows)

  -- `_sheet_context`
  unfoldable pub sheet_context : Date → Db → SheetContext
  unfolding active_rooms active_stations arrivals sheet_rows rooms_occupied_on_date
  sheet_context day db = record {
    rows = sheet_rows (arrivals day db);
    rooms = active_rooms db;
    stations = active_stations db;
    occupied = rooms_occupied_on_date db day;
    sheet_date = day;
    prev_date = day - 1;
    next_date = day + 1;
  }

  -- `max(1, min(days, 60))`; a negative number of days is the same as none.
  abbrev pub clamped : ℕ → ℕ
  clamped days = max 1 (min days 60)

  -- `[start + timedelta(days=i) for i in range(days)]`
  unfoldable pub days_from : Date → ℕ → List Date
  days_from start zero = []
  days_from start (suc n) = start ∷ days_from (suc start) n

  unfoldable pub room_plan_page : Date → ℕ → Db → RoomPlan
  unfolding active_rooms room_plan_grid days_from
  room_plan_page start days db =
      let n = clamped days in
      record {
        rooms = active_rooms db;
        date_range = days_from start n;
        grid = room_plan_grid db start (start + n);
        days = n;
        prev_start = start - n;
        next_start = start + n;
      }
