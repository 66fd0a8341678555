-- ===== src/RoomAssignment/Assignment.antt =====
-- What the automatic assignment makes of a reservation.
use resaprint.Base.{
  ℕ, ◌≡◌, refl, sym, inl, inr, Bool, ◌&&◌, Option, none, some, List, [], ◌∷◌, String, In, All,
  Option-cases, Bool-cases, truthy?, is_none,
}
use resaprint.Models.{Reservation, RoomLine, Room}
use resaprint.Database.{Db}
use resaprint.RoomAssignment.Defs.{
  find_free_room, room_id, assign_single, assign_by_lines, assign_rooms_for_reservation,
  clear_rooms, reassign_rooms_for_reservation,
}
use resaprint.RoomAssignment.Occupied.{rooms_of}
use resaprint.RoomAssignment.Search.{IsFree, find_free_room-IsFree}
use resaprint.RoomAssignment.Lines.{
  Distinct, assign_lines-Distinct, assign_lines-Suits, clear_line-Unassigned,
}

-- The reservation has no room yet.
pub record IsUnassigned (r : Reservation) : Type 0 where
  pub own : r.assigned_room_id ≡ none
  pub lines : All (λ l. l.assigned_room_id ≡ none) r.room_lines

-- No other active stay that overlaps holds the room, which exists and is in use.
abbrev pub IsOpen : Db → Reservation → ℕ → Type 0
IsOpen db r k =
    (room : Room) × (room.id ≡ k) × IsFree db room.category r.checkin r.checkout (some r.id) [] room

-- What the automatic assignment makes of a reservation: it changes nothing but rooms, and the
-- rooms are distinct and open.
pub record IsAssignment (db : Db) (r r' : Reservation) : Type 0 where
  pub same_id : r'.id ≡ r.id
  pub same_checkin : r'.checkin ≡ r.checkin
  pub same_checkout : r'.checkout ≡ r.checkout
  pub same_status : r'.status ≡ r.status
  pub distinct : Distinct (rooms_of r')
  pub open_rooms : (k : ℕ) → In k (rooms_of r') → IsOpen db r k

module _ (le : String → String → Bool) (db : Db) where
  none-IsAssignment :
      (r : Reservation) → r.assigned_room_id ≡ none → r.room_lines ≡ [] → IsAssignment db r r
  none-IsAssignment r own lines = record {
    same_id = refl;
    same_checkin = refl;
    same_checkout = refl;
    same_status = refl;
    distinct = rw (own, lines) tt;
    open_rooms = λ k m. let m' : In k [] = rw (own, lines) at m in elim m' [ ];
  }

  room-IsAssignment :
      (r : Reservation) (category : String)
      → r.assigned_room_id ≡ none
      → r.room_lines ≡ []
      → IsAssignment db r (record r {
        assigned_room_id =
            room_id (find_free_room le db category r.checkin r.checkout (some r.id) []);
      })
  room-IsAssignment r category own lines =
      elim (Option-cases (find_free_room le db category r.checkin r.checkout (some r.id) [])) [
        | inl e ↦ rw e (record {
          same_id = refl;
          same_checkin = refl;
          same_checkout = refl;
          same_status = refl;
          distinct = rw lines tt;
          open_rooms = λ k m. let m' : In k [] = rw lines at m in elim m' [ ];
        })
        | inr (room, e) ↦
            let free =
              find_free_room-IsFree db category r.checkin r.checkout (some r.id) [] le room e in
            rw e (record {
              same_id = refl;
              same_checkin = refl;
              same_checkout = refl;
              same_status = refl;
              distinct = rw lines ((λ m. m), tt);
              open_rooms = λ k m.
                  let m' : In k (room.id ∷ []) = rw lines at m in
                  (
                    room,
                    elim m' [ inl same ↦ sym same | inr n ↦ elim n [ ] ],
                    record {
                      exists = free.exists;
                      fits = refl;
                      in_use = free.in_use;
                      unoccupied = free.unoccupied;
                      untaken = λ m. m;
                    },
                  );
            })
      ]

  single-IsAssignment :
      (r : Reservation) (category : Option String)
      → r.assigned_room_id ≡ none
      → r.room_lines ≡ []
      → IsAssignment db r (assign_single le db r category)
  unfolding assign_single
  single-IsAssignment r none own lines = none-IsAssignment r own lines
  single-IsAssignment r (some category) own lines =
      elim (Bool-cases (truthy? (some category) && is_none r.assigned_room_id)) [
        | inl t ↦ rw t (room-IsAssignment r category own lines)
        | inr f ↦ rw f (none-IsAssignment r own lines)
      ]

  lines-IsAssignment :
      (r : Reservation) (ls : List RoomLine)
      → r.assigned_room_id ≡ none
      → r.room_lines ≡ ls
      → All (λ l. l.assigned_room_id ≡ none) ls
      → IsAssignment db r (assign_by_lines le db r ls)
  unfolding assign_by_lines
  lines-IsAssignment r [] own e u = single-IsAssignment r r.room_type own e
  lines-IsAssignment r (l ∷ ls) own e u = record {
    same_id = refl;
    same_checkin = refl;
    same_checkout = refl;
    same_status = refl;
    distinct = rw own (assign_lines-Distinct le db r [] (l ∷ ls) u).0;
    open_rooms = λ k m.
        let (l', i, (room, same, free)) =
          assign_lines-Suits le db r [] (l ∷ ls) k u (rw own at m) in
        (
          room,
          same,
          record {
            exists = free.exists;
            fits = refl;
            in_use = free.in_use;
            unoccupied = free.unoccupied;
            untaken = λ m. m;
          },
        );
  }

  pub assign_rooms-IsAssignment :
      (r : Reservation) → IsUnassigned r → IsAssignment db r (assign_rooms_for_reservation le db r)
  unfolding assign_rooms_for_reservation
  assign_rooms-IsAssignment r u = lines-IsAssignment r r.room_lines u.own refl u.lines

  -- The cleared reservation differs from `r` only in rooms, so the assignment fits `r` too.
  pub reassign_rooms-IsAssignment :
      (r : Reservation) → IsAssignment db r (reassign_rooms_for_reservation le db r)
  unfolding reassign_rooms_for_reservation
  reassign_rooms-IsAssignment r =
      let a =
        assign_rooms-IsAssignment (clear_rooms r)
          (record { own = refl; lines = clear_line-Unassigned r.room_lines }) in
      record {
        same_id = a.same_id;
        same_checkin = a.same_checkin;
        same_checkout = a.same_checkout;
        same_status = a.same_status;
        distinct = a.distinct;
        open_rooms = a.open_rooms;
      }
