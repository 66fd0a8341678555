-- ===== src/Reservations/Planned.antt =====
-- The stored reservations with the ids that they may get: what adding a row and assigning its rooms
-- make of them.
use resaprint.Base.{ℕ, ◌+◌, ◌<◌, ◌≡◌, refl, inl, inr, none, List, [], ◌∷◌, ◌++◌, arith, In, All}
use resaprint.Base.Lemmas.{All-append, All-imp, All-In, All-update, In-append}
use resaprint.Models.{Reservation, RoomLine}
use resaprint.Database.{Db, Table, table_add, put_reservation}
use resaprint.RoomAssignment.{line_rooms}
use resaprint.RoomAssignment.Lines.{Distinct}
use resaprint.RoomAssignment.Occupied.{rooms_of, Overlaps, IsActive}
use resaprint.RoomAssignment.Assignment.{IsUnassigned, IsAssignment}
use resaprint.RoomAssignment.Consistent.{IsConsistent, put-IsConsistent}

-- The ids are below the sequence's next number, and the reservations are consistent.
pub record IsPlanned (t : Table Reservation) : Type 0 where
  pub fresh : All (λ r. r.id < t.next_id) t.rows
  pub consistent : IsConsistent t.rows

line_rooms-none :
    (ls : List RoomLine) → All (λ l. l.assigned_room_id ≡ none) ls → line_rooms ls ≡ []
line_rooms-none [] u = refl
line_rooms-none (l ∷ ls) u = rw u.0 (line_rooms-none ls u.1)

rooms_of-none : (r : Reservation) → IsUnassigned r → rooms_of r ≡ []
rooms_of-none r u = rw u.own (line_rooms-none r.room_lines u.lines)

-- The rooms of the row are distinct, and no active stay of the table that shares a night holds one.
pub record IsFreeFor (new : Reservation) (rs : List Reservation) : Type 0 where
  pub distinct : Distinct (rooms_of new)
  pub untaken :
      (s : Reservation)
      → In s rs
      → IsActive s
      → Overlaps s new.checkin new.checkout
      → (j : ℕ) → In j (rooms_of new)
      → ¬ In j (rooms_of s)

add-IsConsistent :
    (rs : List Reservation) (new : Reservation)
    → IsFreeFor new rs
    → IsConsistent rs
    → IsConsistent (rs ++ new ∷ [])
add-IsConsistent rs new u c = record {
  apart = λ r s mr ms ne ar as_active o j hr hs. elim (In-append r rs (new ∷ []) mr) [
    | inl old ↦ elim (In-append s rs (new ∷ []) ms) [
      | inl old' ↦ c.apart r s old old' ne ar as_active o j hr hs
      | inr (inl e) ↦ u.untaken r old ar (rw e at o) j (rw e at hs) hr
      | inr (inr n) ↦ elim n [ ]
    ]
    | inr (inl e) ↦ elim (In-append s rs (new ∷ []) ms) [
      | inl old ↦
          let o' : Overlaps new s.checkin s.checkout = rw e at o in
          u.untaken s old as_active (o'.1, o'.0) j (rw e at hr) hs
      | inr (inl e') ↦ ne (rw (e, e') refl)
      | inr (inr n) ↦ elim n [ ]
    ]
    | inr (inr n) ↦ elim n [ ]
  ];
  distinct = λ r m active. elim (In-append r rs (new ∷ []) m) [
    | inl old ↦ c.distinct r old active
    | inr (inl e) ↦ rw e u.distinct
    | inr (inr n) ↦ elim n [ ]
  ];
}

-- A row without rooms takes nothing from the others.
pub unassigned-IsFreeFor :
    (new : Reservation) (rs : List Reservation) → IsUnassigned new → IsFreeFor new rs
unassigned-IsFreeFor new rs u = record {
  distinct = rw (rooms_of-none new u) tt;
  untaken = λ s m active o j h. let h' : In j [] = rw (rooms_of-none new u) at h in elim h' [ ];
}

pub add-IsPlanned :
    (row : ℕ → Reservation) (t : Table Reservation)
    → IsFreeFor (row t.next_id) t.rows
    → (row t.next_id).id ≡ t.next_id
    → IsPlanned t
    → IsPlanned (table_add row t)
add-IsPlanned row t u same h = record {
  fresh =
      All-append (λ r. r.id < t.next_id + 1) t.rows (row t.next_id ∷ [])
        (All-imp (λ r. r.id < t.next_id) (λ r. r.id < t.next_id + 1) t.rows (λ r lt. omega arith)
          h.fresh)
        (omega (arith, same), tt);
  consistent = add-IsConsistent t.rows (row t.next_id) u h.consistent;
}

-- The added row is the only one with its id.
pub add-only :
    (row : ℕ → Reservation) (t : Table Reservation)
    → (row t.next_id).id ≡ t.next_id
    → IsPlanned t
    → (x : Reservation) → In x (table_add row t).rows
    → x.id ≡ (row t.next_id).id
    → x ≡ row t.next_id
add-only row t same h x m e = elim (In-append x t.rows (row t.next_id ∷ []) m) [
  | inl old ↦
      let below = All-In (λ r. r.id < t.next_id) t.rows x h.fresh old in absurd (omega arith)
  | inr (inl new) ↦ new
  | inr (inr n) ↦ elim n [ ]
]

pub put-IsPlanned :
    (db : Db) (k : ℕ) (f : Reservation → Reservation)
    → ((r : Reservation) → In r db.reservations.rows → r.id ≡ k → IsAssignment db r (f r))
    → ((r : Reservation) → r.id ≡ k → (f r).id ≡ k)
    → IsPlanned db.reservations
    → IsPlanned (put_reservation k f db).reservations
put-IsPlanned db k f assigns same h = record {
  fresh =
      All-update (λ r. r.id) k (λ r. r.id < db.reservations.next_id) f db.reservations.rows
        (λ r lt e. let e' = same r e in omega arith) h.fresh;
  consistent = put-IsConsistent db k f assigns h.consistent;
}
