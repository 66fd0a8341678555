-- ===== src/AdminUi/Arrivals.antt =====
-- The rows of the sheet, unit by unit.
use resaprint.Base.{
  ◌≡◌, refl, subst, ◌↔◌, inl, inr, Bool, true, false, String, List, [], ◌∷◌, In, arith, select, ◌⊎◌,
  none, some, sym, map,
}
use resaprint.Base.Lemmas.{
  In-append, In-append_left, In-append_right, In-select, In-select_of, In-order_by, In-order_by_of,
  In-map, In-map_of,
}
use resaprint.Models.{Reservation, Date, RoomLine}
use resaprint.Database.{Db}
use resaprint.RoomAssignment.{is_cancelled}
use resaprint.AdminUi.Sheet.{
  SheetRow, rows_of, sheet_rows, arrives_on, arrivals, sheet_context, line_row,
}

In-sheet_rows :
    (row : SheetRow) (rs : List Reservation)
    → In row (sheet_rows rs)
    → (r : Reservation) × In r rs × In row (rows_of r r.room_lines)
unfolding sheet_rows
In-sheet_rows row [] h = elim h [ ]
In-sheet_rows row (r ∷ rs) h = elim (In-append row (rows_of r r.room_lines) (sheet_rows rs) h) [
  | inl m ↦ (r, inl refl, m)
  | inr m ↦ let (x, n, k) = In-sheet_rows row rs m in (x, inr n, k)
]

In-sheet_rows_of :
    (row : SheetRow) (rs : List Reservation) (r : Reservation)
    → In r rs
    → In row (rows_of r r.room_lines)
    → In row (sheet_rows rs)
unfolding sheet_rows
In-sheet_rows_of row [] r m h = elim m [ ]
In-sheet_rows_of row (x ∷ rs) r m h = elim m [
  | inl e ↦
      In-append_left row (rows_of x x.room_lines) (sheet_rows rs)
        (subst (λ y. In row (rows_of y y.room_lines)) e h)
  | inr n ↦
      In-append_right row (rows_of x x.room_lines) (sheet_rows rs) (In-sheet_rows_of row rs r n h)
]

-- The row of one unit of the reservation: of a room line, or of the whole where it has none.
abbrev pub IsRowOf : SheetRow → Reservation → Type 0
IsRowOf row r =
    ((r.room_lines ≡ [])
      × (row ≡ record {
        reservation = r;
        room_line_id = none;
        category = r.room_type;
        assigned_room_id = r.assigned_room_id;
      }))
    ⊎ ((l : RoomLine) × In l r.room_lines
        × (row ≡ record {
          reservation = r;
          room_line_id = some l.id;
          category = some l.room_type;
          assigned_room_id = l.assigned_room_id;
        }))

rows_of_iff : (row : SheetRow) (r : Reservation) → In row (rows_of r r.room_lines) ↔ IsRowOf row r
rows_of_iff row r = go r.room_lines refl
  where
    go : (ls : List RoomLine) → r.room_lines ≡ ls → In row (rows_of r ls) ↔ IsRowOf row r
    go [] e = (
      (λ m. elim m [ inl same ↦ inl (e, same) | inr n ↦ elim n [ ] ]),
      λ h. elim h [
        | inl (_, same) ↦ inl same
        | inr (l, i, same) ↦ let i' : In l [] = rw e at i in elim i' [ ]
      ],
    )
    go (l ∷ ls) e = (
      (λ m. let (x, i, same) = In-map (line_row r) row (l ∷ ls) m in inr (x, rw e i, same)),
      λ h. elim h [
        | inl (empty, _) ↦ absurd (cc)
        | inr (x, i, same) ↦
            let i' : In x (l ∷ ls) = rw e at i in
            subst (λ y. In y (map (line_row r) (l ∷ ls))) (sym same)
              (In-map_of (line_row r) x (l ∷ ls) i')
      ],
    )

-- A row is on the sheet of a day exactly if it is the row of a room line, or the row of a
-- reservation without lines, of a stored reservation that arrives on that day and is not cancelled.
pub sheet_context-rows :
    (le : String → String → Bool) (day : Date) (db : Db) (row : SheetRow)
    → In row (sheet_context le day db).rows ↔ (
        (r : Reservation) × In r db.reservations.rows
        × (r.checkin ≡ day)
        × (is_cancelled r.status ≡ false)
        × IsRowOf row r)
unfolding sheet_context arrivals
sheet_context-rows le day db row = (
  (λ h.
      let (r, m, k) = In-sheet_rows row (arrivals le day db) h in
      let sorted = In-order_by _ r (select (arrives_on day) db.reservations.rows) m in
      let (stored, arrives) = In-select (arrives_on day) r db.reservations.rows sorted in
      (r, stored, ground arith, ground arith, (rows_of_iff row r).0 k)),
  λ (r, stored, on_day, active, k).
      let arrives : arrives_on day r ≡ true = ground arith in
      In-sheet_rows_of row (arrivals le day db) r
        (In-order_by_of _ r (select (arrives_on day) db.reservations.rows)
          (In-select_of (arrives_on day) r db.reservations.rows stored arrives))
        ((rows_of_iff row r).1 k),
)
