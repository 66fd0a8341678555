-- ===== src/RoomAssignment/Grid.antt =====
-- The room plan against the occupancy of a single day.
use resaprint.Base.{
  ℕ, zero, suc, ◌+◌, ◌-◌, ◌≤◌, ◌<◌, max, min, ◌≡◌, refl, sym, ◌∙◌, inl, inr, ◌⊎◌, Bool, true, false,
  ◌&&◌, Option, none, some, List, [], ◌∷◌, ◌++◌, String, arith, select, ltb, leb, ◌==◌,
  if◌then◌else◌, Bool-cases,
}
use resaprint.Models.{Reservation, Date}
use resaprint.Database.{Db}
use resaprint.RoomAssignment.Defs.{line_rooms}
use resaprint.RoomAssignment.Plan.{
  Assigned, with_reservation, option_list, reservation_rows, room_line_rows, assigned_rows,
  is_present, write_guests, rooms_occupied_on_date, Cell, is_between, write_days, write_stays,
  room_plan_grid, guest_in, cell_at,
}

select-append :
    {A : Type 0} (p : A → Bool) (xs ys : List A) → select p (xs ++ ys) ≡ select p xs ++ select p ys
unfolding select
select-append p [] ys = refl
select-append p (x ∷ xs) ys = elim (Bool-cases (p x)) [
  | inl t ↦ rw (t, select-append p xs ys)
  | inr f ↦ rw (f, select-append p xs ys)
]

-- Filtering the reservations before the join, or the joined rows behind it.
module _ (p : Reservation → Bool) where
  abbrev on_row : Assigned → Bool
  on_row (_, r) = p r

  with_reservation-kept :
      (r : Reservation) (ks : List ℕ)
      → p r ≡ true
      → select on_row (with_reservation r ks) ≡ with_reservation r ks
  unfolding select
  with_reservation-kept r [] h = refl
  with_reservation-kept r (k ∷ ks) h = rw (h, with_reservation-kept r ks h)

  with_reservation-dropped :
      (r : Reservation) (ks : List ℕ) → p r ≡ false → select on_row (with_reservation r ks) ≡ []
  unfolding select
  with_reservation-dropped r [] h = refl
  with_reservation-dropped r (k ∷ ks) h = rw (h, with_reservation-dropped r ks h)

  reservation_rows-select :
      (rs : List Reservation) → reservation_rows (select p rs) ≡ select on_row (reservation_rows rs)
  unfolding reservation_rows select
  reservation_rows-select [] = refl
  reservation_rows-select (r ∷ rs) =
      let ks = option_list r.assigned_room_id in
      rw (select-append on_row (with_reservation r ks) (reservation_rows rs))
        (elim (Bool-cases (p r)) [
          | inl t ↦ rw (t, with_reservation-kept r ks t, reservation_rows-select rs)
          | inr f ↦ rw (f, with_reservation-dropped r ks f, reservation_rows-select rs)
        ])

  room_line_rows-select :
      (rs : List Reservation) → room_line_rows (select p rs) ≡ select on_row (room_line_rows rs)
  unfolding room_line_rows select
  room_line_rows-select [] = refl
  room_line_rows-select (r ∷ rs) =
      let ks = line_rooms r.room_lines in
      rw (select-append on_row (with_reservation r ks) (room_line_rows rs))
        (elim (Bool-cases (p r)) [
          | inl t ↦ rw (t, with_reservation-kept r ks t, room_line_rows-select rs)
          | inr f ↦ rw (f, with_reservation-dropped r ks f, room_line_rows-select rs)
        ])

  assigned_rows-select :
      (rs : List Reservation) → assigned_rows (select p rs) ≡ select on_row (assigned_rows rs)
  unfolding assigned_rows
  assigned_rows-select rs = rw (
    select-append on_row (reservation_rows rs) (room_line_rows rs),
    reservation_rows-select rs,
    room_line_rows-select rs,
  )

abbrev pub guest_of : Option (ℕ × String) → Option String
guest_of none = none
guest_of (some (_, name)) = some name

-- A stay writes exactly its days.
cell_at-write_days :
    (left j : ℕ) (r : Reservation) (from : Date) (grid : List Cell) (k : ℕ) (day : Date)
    → cell_at k day (write_days left j r from grid) ≡ (
        if j == k && (leb from day && ltb day (from + left))
        then some (r.id, r.guest_name)
        else cell_at k day grid)
unfolding write_days cell_at
cell_at-write_days zero j r from grid k day = ground arith
cell_at-write_days (suc left) j r from grid k day =
    rw (cell_at-write_days left j r (from + 1) ((j, from, (r.id, r.guest_name)) ∷ grid) k day)
      (ground arith)

module _ (start_date end_date : Date) (k : ℕ) (day : Date)
    (within : (start_date ≤ day) × (day < end_date)) where
  abbrev Agree : List (ℕ × String) → List Cell → Type 0
  Agree dict grid = guest_in k dict ≡ guest_of (cell_at k day grid)

  write_stay-Agree :
      (j : ℕ) (r : Reservation) (dict : List (ℕ × String)) (grid : List Cell)
      → is_between start_date end_date r ≡ true
      → Agree dict grid
      → let from = max r.checkin start_date in
        let days = write_days (min r.checkout end_date - from) j r from grid in
        ((is_present day r ≡ true) → Agree ((j, r.guest_name) ∷ dict) days)
        × ((is_present day r ≡ false) → Agree dict days)
  unfolding guest_in
  write_stay-Agree j r dict grid between agree =
      let from = max r.checkin start_date in
      let left = min r.checkout end_date - from in
      rw (cell_at-write_days left j r from grid k day) (λ here. ground arith, λ away. ground arith)

  -- Who is present on the day is listed for a window around it.
  present-between :
      (r : Reservation) → is_present day r ≡ true → is_between start_date end_date r ≡ true
  present-between r h = ground arith

  rows-Agree :
      (rows : List Assigned) (dict : List (ℕ × String)) (grid : List Cell)
      → Agree dict grid
      → Agree (write_guests dict (select (on_row (is_present day)) rows)) (
          write_stays start_date end_date grid
            (select (on_row (is_between start_date end_date)) rows))
  unfolding write_guests write_stays select
  rows-Agree [] dict grid agree = agree
  rows-Agree ((j, r) ∷ rows) dict grid agree =
      elim (Bool-cases (is_between start_date end_date r)) [
        | inl between ↦
            let (here, away) = write_stay-Agree j r dict grid between agree in
            elim (Bool-cases (is_present day r)) [
              | inl t ↦ rw (between, t) (rows-Agree rows _ _ (here t))
              | inr f ↦ rw (between, f) (rows-Agree rows _ _ (away f))
            ]
        | inr outside ↦ elim (Bool-cases (is_present day r)) [
          | inl t ↦ let b = present-between r t in cc
          | inr f ↦ rw (outside, f) (rows-Agree rows _ _ agree)
        ]
      ]

-- On every day of its window the room plan shows in a room the guest whom `rooms_occupied_on_date`
-- of that day names, and nobody where that names nobody, the queries of both giving the rows in the
-- same order.
pub room_plan_grid-rooms_occupied :
    (db : Db) (start_date end_date day : Date) (k : ℕ)
    → start_date ≤ day
    → day < end_date
    → guest_of (cell_at k day (room_plan_grid db start_date end_date))
      ≡ guest_in k (rooms_occupied_on_date db day)
unfolding room_plan_grid rooms_occupied_on_date cell_at guest_in
room_plan_grid-rooms_occupied db start_date end_date day k after before =
    rw
      (
        assigned_rows-select (is_present day) db.reservations.rows,
        assigned_rows-select (is_between start_date end_date) db.reservations.rows,
      )
      (sym (
        rows-Agree start_date end_date k day (after, before) (assigned_rows db.reservations.rows) []
          [] refl))

module _ (start_date end_date : Date) (k : ℕ) (day : Date) where
  write_stays-outside :
      (rows : List Assigned) (grid : List Cell)
      → (end_date ≤ day) ⊎ (day < start_date)
      → cell_at k day (write_stays start_date end_date grid rows) ≡ cell_at k day grid
  unfolding write_stays
  write_stays-outside [] grid out = refl
  write_stays-outside ((j, r) ∷ rows) grid out =
      let from = max r.checkin start_date in
      let left = min r.checkout end_date - from in
      write_stays-outside rows (write_days left j r from grid) out
      ∙ cell_at-write_days left j r from grid k day
      ∙ ground arith

-- On a day outside its window the room plan has no entry.
pub room_plan_grid-outside :
    (db : Db) (start_date end_date day : Date) (k : ℕ)
    → (end_date ≤ day) ⊎ (day < start_date)
    → cell_at k day (room_plan_grid db start_date end_date) ≡ none
unfolding room_plan_grid cell_at
room_plan_grid-outside db start_date end_date day k out =
    write_stays-outside start_date end_date k day
      (assigned_rows (select (is_between start_date end_date) db.reservations.rows)) [] out
