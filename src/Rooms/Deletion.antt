-- ===== src/Rooms/Deletion.antt =====
-- The deletion of a room and the reservations that hold it.
use resaprint.Base.{
  ℕ, ◌≡◌, refl, ◌≢◌, inl, inr, Option, none, some, List, [], ◌∷◌, ◌++◌, map, arith, In, get,
  Bool-cases, ◌==◌, ==_iff,
}
use resaprint.Base.Lemmas.{In-append, In-append_left, In-append_right, In-map}
use resaprint.Models.{Room, Reservation, RoomLine, AdminPin}
use resaprint.Database.{Db, request, unset_if}
use resaprint.RoomAssignment.{option_list, line_rooms, some_values}
use resaprint.RoomAssignment.Occupied.{rooms_of}
use resaprint.Rooms.Routes.{delete_room, unset_room, unset_line}

module _ (k : ℕ) where
  In-unset_if :
      (j : ℕ) (o : Option ℕ) → In j (option_list (unset_if k o)) → In j (option_list o) × (j ≢ k)
  In-unset_if j none m = elim m [ ]
  In-unset_if j (some i) m = elim (Bool-cases (i == k)) [
    | inl t ↦ absurd (let m' : In j [] = rw t at m in m')
    | inr f ↦
        let m' : In j (i ∷ []) = rw f at m in
        elim m' [ inl e ↦ (inl e, λ same. ground arith) | inr n ↦ elim n [ ] ]
  ]

  pub some_values-option :
      (o : Option ℕ) (os : List (Option ℕ)) → some_values (o ∷ os) ≡ option_list o ++ some_values os
  some_values-option none os = refl
  some_values-option (some j) os = refl

  pub In-unset_lines :
      (j : ℕ) (ls : List RoomLine)
      → In j (line_rooms (map (unset_line k) ls))
      → In j (line_rooms ls) × (j ≢ k)
  In-unset_lines j [] m = elim m [ ]
  In-unset_lines j (l ∷ ls) m =
      let rest = map (λ l. l.assigned_room_id) ls in
      let rest' = map (λ l. l.assigned_room_id) (map (unset_line k) ls) in
      let m' : In j (option_list (unset_if k l.assigned_room_id) ++ some_values rest') =
        rw (some_values-option (unset_if k l.assigned_room_id) rest') at m in
      rw (some_values-option l.assigned_room_id rest)
        (elim (In-append j (option_list (unset_if k l.assigned_room_id)) (some_values rest') m') [
          | inl here ↦
              let (held, ne) = In-unset_if j l.assigned_room_id here in
              (In-append_left j (option_list l.assigned_room_id) (some_values rest) held, ne)
          | inr there ↦
              let (held, ne) = In-unset_lines j ls there in
              (In-append_right j (option_list l.assigned_room_id) (some_values rest) held, ne)
        ])

  -- A room of the reservation afterwards is one of before, and not the deleted one.
  pub In-unset_room :
      (j : ℕ) (r : Reservation) → In j (rooms_of (unset_room k r)) → In j (rooms_of r) × (j ≢ k)
  In-unset_room j r m =
      elim (In-append j (option_list (unset_if k r.assigned_room_id))
        (line_rooms (map (unset_line k) r.room_lines)) m) [
          | inl here ↦
              let (held, ne) = In-unset_if j r.assigned_room_id here in
              (In-append_left j (option_list r.assigned_room_id) (line_rooms r.room_lines) held, ne)
          | inr there ↦
              let (held, ne) = In-unset_lines j r.room_lines there in
              (
                In-append_right j (option_list r.assigned_room_id) (line_rooms r.room_lines) held,
                ne,
              )
        ]

get_room-id : (k : ℕ) (rs : List Room) (x : Room) → get (λ r. r.id) k rs ≡ some x → x.id ≡ k
unfolding get
get_room-id k [] x h = cc
get_room-id k (y ∷ ys) x h = elim (Bool-cases (y.id == k)) [
  | inl t ↦ let e : y ≡ x = cc in rw (← e) ((==_iff y.id k).0 t)
  | inr f ↦ get_room-id k ys x (rw f at h)
]

-- If the room exists, then every reservation stored after the request to delete it holds that room
-- no more, and comes from a stored one with its id that held each of its rooms.
pub delete_room-unassigns :
    (admin : AdminPin) (k : ℕ) (db : Db) (room : Room) (r : Reservation)
    → get (λ r. r.id) k db.rooms.rows ≡ some room
    → In r (request (delete_room admin k) db).1.reservations.rows
    → (¬ In k (rooms_of r))
      × (old : Reservation) × In old db.reservations.rows
      × (old.id ≡ r.id)
      × ((j : ℕ) → In j (rooms_of r) → In j (rooms_of old))
unfolding request delete_room
delete_room-unassigns admin k db room r found m =
    let same = get_room-id k db.rooms.rows room found in
    let m' : In r (map (unset_room k) db.reservations.rows) = rw (request, found, same) at m in
    let (old, i, e) = In-map (unset_room k) r db.reservations.rows m' in
    (
      λ held. (In-unset_room k k old (rw e at held)).1 refl,
      old,
      i,
      rw e refl,
      λ j held. (In-unset_room k j old (rw e at held)).0,
    )
