-- ===== src/RoomAssignment/Consistent.antt =====
-- The automatic assignment and the consistency of the reservations.
use resaprint.Base.{ℕ, ◌≡◌, refl, ◌≢◌, inl, inr, Bool, List, String, arith, In}
use resaprint.Base.Lemmas.{In-update}
use resaprint.Models.{Reservation}
use resaprint.Database.{Db, put_reservation}
use resaprint.RoomAssignment.Defs.{assign_rooms_for_reservation, reassign_rooms_for_reservation}
use resaprint.RoomAssignment.Occupied.{rooms_of, Overlaps, IsActive}
use resaprint.RoomAssignment.Lines.{Distinct}
use resaprint.RoomAssignment.Assignment.{
  IsUnassigned, IsOpen, IsAssignment, assign_rooms-IsAssignment, reassign_rooms-IsAssignment,
}

-- No two active reservations that share a night share a room, and none holds a room twice.
pub record IsConsistent (rs : List Reservation) : Type 0 where
  pub apart :
      (r s : Reservation)
      → In r rs
      → In s rs
      → r.id ≢ s.id
      → IsActive r
      → IsActive s
      → Overlaps r s.checkin s.checkout
      → (k : ℕ) → In k (rooms_of r)
      → ¬ In k (rooms_of s)
  pub distinct : (r : Reservation) → In r rs → IsActive r → Distinct (rooms_of r)

-- An open room is held by no other active stay that shares a night.
IsOpen-apart :
    (db : Db) (r s : Reservation) (k : ℕ)
    → IsOpen db r k
    → In s db.reservations.rows
    → s.id ≢ r.id
    → IsActive s
    → Overlaps s r.checkin r.checkout
    → ¬ In k (rooms_of s)
IsOpen-apart db r s k (room, same, free) m ne active overlap held =
    free.unoccupied s (m, active, overlap, ground arith, rw same held)

module _ (db : Db) (k : ℕ) (f : Reservation → Reservation)
    (assigns : (r : Reservation)
      → In r db.reservations.rows
      → r.id ≡ k
      → IsAssignment db r (f r)) where
  put-Distinct :
      IsConsistent db.reservations.rows
      → (r : Reservation) → In r (put_reservation k f db).reservations.rows
      → IsActive r
      → Distinct (rooms_of r)
  put-Distinct c r m active = elim (In-update (λ r. r.id) k f r db.reservations.rows m) [
    | inl (old, _) ↦ c.distinct r old active
    | inr (x, old, same, e) ↦ rw e (assigns x old same).distinct
  ]

  -- The changed reservation against an unchanged one.
  put-apart_new :
      (x s : Reservation)
      → In x db.reservations.rows
      → x.id ≡ k
      → In s db.reservations.rows
      → s.id ≢ k
      → IsActive s
      → Overlaps s (f x).checkin (f x).checkout
      → (j : ℕ) → In j (rooms_of (f x))
      → ¬ In j (rooms_of s)
  put-apart_new x s mx same ms ne active overlap j held =
      let a = assigns x mx same in
      IsOpen-apart db x s j (a.open_rooms j held) ms (rw same ne) active
        (omega (arith, a.same_checkin, a.same_checkout))

  put-apart :
      IsConsistent db.reservations.rows
      → (r s : Reservation) → In r (put_reservation k f db).reservations.rows
      → In s (put_reservation k f db).reservations.rows
      → r.id ≢ s.id
      → IsActive r
      → IsActive s
      → Overlaps r s.checkin s.checkout
      → (j : ℕ) → In j (rooms_of r)
      → ¬ In j (rooms_of s)
  put-apart c r s mr ms ne ar as_active o j hr hs =
      elim (In-update (λ r. r.id) k f r db.reservations.rows mr) [
        | inl (old, nr) ↦ elim (In-update (λ r. r.id) k f s db.reservations.rows ms) [
          | inl (old', _) ↦ c.apart r s old old' ne ar as_active o j hr hs
          | inr (x, mx, same, e) ↦ put-apart_new x r mx same old nr ar (rw e at o) j (rw e at hs) hr
        ]
        | inr (x, mx, same, e) ↦ elim (In-update (λ r. r.id) k f s db.reservations.rows ms) [
          | inl (old', ns) ↦
              put-apart_new x s mx same old' ns as_active
                (let o' : Overlaps (f x) s.checkin s.checkout = rw e at o in (o'.1, o'.0)) j
                (rw e at hr) hs
          | inr (y, my, same', e') ↦ ne (
              rw (e, e', (assigns x mx same).same_id, (assigns y my same').same_id, same, same')
                refl)
        ]
      ]

  pub put-IsConsistent :
      IsConsistent db.reservations.rows → IsConsistent (put_reservation k f db).reservations.rows
  put-IsConsistent c = record { apart = put-apart c; distinct = put-Distinct c }

-- If no two active reservations that share a night share a room, and none holds a room twice, then
-- this holds again after `reassign_rooms_for_reservation` on any reservation, whatever rooms it had
-- before.
pub reassign-IsConsistent :
    (le : String → String → Bool) (db : Db) (k : ℕ)
    → IsConsistent db.reservations.rows
    → IsConsistent (put_reservation k (reassign_rooms_for_reservation le db) db).reservations.rows
reassign-IsConsistent le db k c =
    put-IsConsistent db k (reassign_rooms_for_reservation le db)
      (λ r _ _. reassign_rooms-IsAssignment le db r) c

-- If no two active reservations that share a night share a room, none holds a room twice, and the
-- reservation with the given id has no room yet, then this holds again after
-- `assign_rooms_for_reservation` on it.
pub assign-IsConsistent :
    (le : String → String → Bool) (db : Db) (k : ℕ)
    → ((r : Reservation) → In r db.reservations.rows → r.id ≡ k → IsUnassigned r)
    → IsConsistent db.reservations.rows
    → IsConsistent (put_reservation k (assign_rooms_for_reservation le db) db).reservations.rows
assign-IsConsistent le db k fresh c =
    put-IsConsistent db k (assign_rooms_for_reservation le db)
      (λ r m same. assign_rooms-IsAssignment le db r (fresh r m same)) c
