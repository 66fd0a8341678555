-- ===== src/RoomAssignment/Lines.antt =====
-- The loop of `assign_rooms_for_reservation` over the room lines.
use resaprint.Base.{
  ℕ, ◌≡◌, refl, ◌⊎◌, inl, inr, Bool, none, some, List, [], ◌∷◌, String, map, arith, In, All,
  Option-cases,
}
use resaprint.Models.{Reservation, RoomLine, Room}
use resaprint.Database.{Db}
use resaprint.RoomAssignment.Defs.{line_rooms, find_free_room, line_room, assign_lines, clear_line}
use resaprint.RoomAssignment.Search.{IsFree, find_free_room-IsFree}

-- No room twice.
abbrev pub Distinct : List ℕ → Type 0
Distinct [] = Unit
Distinct (k ∷ ks) = (¬ In k ks) × Distinct ks

module _ (le : String → String → Bool) (db : Db) (r : Reservation) where
  -- A room of the line's category that no other stay holds at the time.
  abbrev pub Suits : RoomLine → ℕ → Type 0
  Suits l k =
      (room : Room) × (room.id ≡ k) × IsFree db l.room_type r.checkin r.checkout (some r.id) [] room

  line_room-cases :
      (taken : List ℕ) (l : RoomLine) (k : ℕ)
      → l.assigned_room_id ≡ none
      → line_room le db r taken l ≡ some k
      → (¬ In k taken) × Suits l k
  unfolding line_room
  line_room-cases taken l k e h =
      elim (Option-cases
        (find_free_room le db l.room_type r.checkin r.checkout (some r.id) taken)) [
          | inl absent ↦ absurd (ground arith)
          | inr (room, found) ↦
              let free =
                find_free_room-IsFree db l.room_type r.checkin r.checkout (some r.id) taken le room
                  found in
              let same : room.id ≡ k = ground arith in
              (
                rw (← same) free.untaken,
                (
                  room,
                  same,
                  record {
                    exists = free.exists;
                    fits = free.fits;
                    in_use = free.in_use;
                    unoccupied = free.unoccupied;
                    untaken = λ m. m;
                  },
                ),
              )
        ]

  -- All lines are without a room.
  abbrev pub Unassigned : List RoomLine → Type 0
  Unassigned = All (λ l. l.assigned_room_id ≡ none)

  -- The rooms that the loop gives are distinct, and none was taken before.
  pub assign_lines-Distinct :
      (taken : List ℕ) (ls : List RoomLine)
      → Unassigned ls
      → Distinct (line_rooms (assign_lines le db r taken ls))
        × ((k : ℕ) → In k (line_rooms (assign_lines le db r taken ls)) → ¬ In k taken)
  unfolding assign_lines
  assign_lines-Distinct taken [] u = (tt, λ k m. elim m [ ])
  assign_lines-Distinct taken (l ∷ ls) u = elim (Option-cases (line_room le db r taken l)) [
    | inl e ↦ let (d, apart) = assign_lines-Distinct taken ls u.1 in rw e (d, apart)
    | inr (k, e) ↦
        let (d, apart) = assign_lines-Distinct (k ∷ taken) ls u.1 in
        let (fresh, _) = line_room-cases taken l k u.0 e in
        rw e (
          (λ m. apart k m (inl refl), d),
          λ j m. elim m [ inl same ↦ rw same fresh | inr later ↦ λ t. apart j later (inr t) ],
        )
  ]

  -- Every room that a line gets suits some line of the reservation.
  pub assign_lines-Suits :
      (taken : List ℕ) (ls : List RoomLine) (k : ℕ)
      → Unassigned ls
      → In k (line_rooms (assign_lines le db r taken ls))
      → (l : RoomLine) × In l ls × Suits l k
  unfolding assign_lines
  assign_lines-Suits taken [] k u m = elim m [ ]
  assign_lines-Suits taken (l ∷ ls) k u m = elim (Option-cases (line_room le db r taken l)) [
    | inl e ↦ let (l', i, s) = assign_lines-Suits taken ls k u.1 (rw e at m) in (l', inr i, s)
    | inr (j, e) ↦
        let m' : (k ≡ j) ⊎ In k (line_rooms (assign_lines le db r (j ∷ taken) ls)) = rw e at m in
        elim m' [
          | inl same ↦ (l, inl refl, rw same (line_room-cases taken l j u.0 e).1)
          | inr later ↦
              let (l', i, s) = assign_lines-Suits (j ∷ taken) ls k u.1 later in (l', inr i, s)
        ]
  ]

-- After clearing, all lines are without a room.
pub clear_line-Unassigned :
    (ls : List RoomLine) → All (λ l. l.assigned_room_id ≡ none) (map clear_line ls)
clear_line-Unassigned [] = tt
clear_line-Unassigned (l ∷ ls) = (refl, clear_line-Unassigned ls)
