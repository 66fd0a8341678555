-- ===== src/RoomAssignment/Occupied.antt =====
-- `_occupied_room_ids` against its meaning: the rooms of the other stays that overlap.
use resaprint.Base.{
  ℕ, ◌<◌, ◌≡◌, ◌↔◌, refl, ◌⊎◌, inl, inr, true, false, Option, some, List, [], ◌∷◌, ◌++◌, map, arith,
  In, select, Option-cases,
}
use resaprint.Base.Lemmas.{In-append, In-append_left, In-append_right, In-select, In-select_of}
use resaprint.Models.{Reservation, Date}
use resaprint.Database.{Db}
use resaprint.RoomAssignment.Defs.{
  is_cancelled, some_values, is_other, is_stay, line_rooms, joined_room_ids, occupied_room_ids,
  contains,
}
use resaprint.RoomAssignment.Plan.{option_list}

-- All rooms that a reservation holds: its own, and those of its lines.
abbrev pub rooms_of : Reservation → List ℕ
rooms_of r = option_list r.assigned_room_id ++ line_rooms r.room_lines

-- Two stays share a night. The day of departure is free for the next guest.
abbrev pub Overlaps : Reservation → Date → Date → Type 0
Overlaps r checkin checkout = (r.checkin < checkout) × (checkin < r.checkout)

abbrev pub IsActive : Reservation → Type 0
IsActive r = is_cancelled r.status ≡ false

-- A reservation other than `exclude` that is not cancelled holds the room on a night of the stay.
abbrev pub Occupies : Db → Date → Date → Option ℕ → ℕ → Reservation → Type 0
Occupies db checkin checkout exclude k r =
    In r db.reservations.rows
    × IsActive r
    × Overlaps r checkin checkout
    × (is_other exclude r.id ≡ true)
    × In k (rooms_of r)

pub contains-In : (k : ℕ) (ks : List ℕ) → contains k ks ≡ true → In k ks
contains-In k [] h = cc
contains-In k (j ∷ js) h = ground (arith, contains-In k js)

pub contains_of-In : (k : ℕ) (ks : List ℕ) → In k ks → contains k ks ≡ true
contains_of-In k [] m = elim m [ ]
contains_of-In k (j ∷ js) m = ground (arith, contains_of-In k js)

pub not-contains : (k : ℕ) (ks : List ℕ) → contains k ks ≡ false → ¬ In k ks
not-contains k ks h m = cc (contains_of-In k ks m)

In-own_rooms :
    (k : ℕ) (rs : List Reservation)
    → In k (some_values (map (λ r. r.assigned_room_id) rs))
    → (r : Reservation) × In r rs × In k (option_list r.assigned_room_id)
In-own_rooms k [] h = elim h [ ]
In-own_rooms k (r ∷ rs) h = elim (Option-cases r.assigned_room_id) [
  | inl e ↦ let (s, m, i) = In-own_rooms k rs (ground arith) in (s, inr m, i)
  | inr (j, e) ↦ elim (own j e h) [
    | inl here ↦ (r, inl refl, rw e (inl here))
    | inr there ↦ let (s, m, i) = In-own_rooms k rs there in (s, inr m, i)
  ]
]
  where
    own :
        (j : ℕ)
        → r.assigned_room_id ≡ some j
        → In k (some_values (map (λ r. r.assigned_room_id) (r ∷ rs)))
        → (k ≡ j) ⊎ In k (some_values (map (λ r. r.assigned_room_id) rs))
    own j e h = ground arith

In-own_rooms_of :
    (k : ℕ) (r : Reservation) (rs : List Reservation)
    → In r rs
    → In k (option_list r.assigned_room_id)
    → In k (some_values (map (λ r. r.assigned_room_id) rs))
In-own_rooms_of k r [] m i = elim m [ ]
In-own_rooms_of k r (s ∷ rs) m i = elim m [
  | inl e ↦ own (rw e at i)
  | inr m' ↦ more (In-own_rooms_of k r rs m' i)
]
  where
    own :
        In k (option_list s.assigned_room_id)
        → In k (some_values (map (λ r. r.assigned_room_id) (s ∷ rs)))
    own i = ground arith

    more :
        In k (some_values (map (λ r. r.assigned_room_id) rs))
        → In k (some_values (map (λ r. r.assigned_room_id) (s ∷ rs)))
    more i = ground arith

In-joined :
    (k : ℕ) (rs : List Reservation)
    → In k (joined_room_ids rs)
    → (r : Reservation) × In r rs × In k (line_rooms r.room_lines)
unfolding joined_room_ids
In-joined k [] h = elim h [ ]
In-joined k (r ∷ rs) h = elim (In-append k (line_rooms r.room_lines) (joined_room_ids rs) h) [
  | inl i ↦ (r, inl refl, i)
  | inr i ↦ let (s, m, j) = In-joined k rs i in (s, inr m, j)
]

In-joined_of :
    (k : ℕ) (r : Reservation) (rs : List Reservation)
    → In r rs
    → In k (line_rooms r.room_lines)
    → In k (joined_room_ids rs)
unfolding joined_room_ids
In-joined_of k r [] m i = elim m [ ]
In-joined_of k r (s ∷ rs) m i = elim m [
  | inl e ↦ In-append_left k (line_rooms s.room_lines) (joined_room_ids rs) (rw e at i)
  | inr m' ↦
      In-append_right k (line_rooms s.room_lines) (joined_room_ids rs) (In-joined_of k r rs m' i)
]

module _ (db : Db) (checkin checkout : Date) (exclude : Option ℕ) (k : ℕ) where
  -- Every room of `_occupied_room_ids` is held by an active reservation, other than the excluded
  -- one, that shares a night.
  pub occupied_room_ids_sound :
      In k (occupied_room_ids db checkin checkout exclude)
      → (r : Reservation) × Occupies db checkin checkout exclude k r
  unfolding occupied_room_ids
  occupied_room_ids_sound h =
      let stays = select (is_stay checkin checkout exclude) db.reservations.rows in
      elim (In-append k (some_values (map (λ r. r.assigned_room_id) stays)) (joined_room_ids stays)
        h) [
          | inl i ↦
              let (r, m, held) = In-own_rooms k stays i in
              (
                r,
                stay_of r m (
                    In-append_left k (option_list r.assigned_room_id) (line_rooms r.room_lines)
                      held),
              )
          | inr i ↦
              let (r, m, held) = In-joined k stays i in
              (
                r,
                stay_of r m (
                    In-append_right k (option_list r.assigned_room_id) (line_rooms r.room_lines)
                      held),
              )
        ]
    where
      stay_of :
          (r : Reservation)
          → In r (select (is_stay checkin checkout exclude) db.reservations.rows)
          → In k (rooms_of r)
          → Occupies db checkin checkout exclude k r
      stay_of r m held =
          let (m', e) = In-select (is_stay checkin checkout exclude) r db.reservations.rows m in
          ground arith

  -- Every room that an active reservation, other than the excluded one, holds on a shared night is
  -- among `_occupied_room_ids`.
  pub occupied_room_ids_complete :
      (r : Reservation)
      → Occupies db checkin checkout exclude k r
      → In k (occupied_room_ids db checkin checkout exclude)
  unfolding occupied_room_ids
  occupied_room_ids_complete r (m, active, overlap, other, held) =
      let stays = select (is_stay checkin checkout exclude) db.reservations.rows in
      let stay =
        In-select_of (is_stay checkin checkout exclude) r db.reservations.rows m (ground arith) in
      elim (In-append k (option_list r.assigned_room_id) (line_rooms r.room_lines) held) [
        | inl i ↦
            In-append_left k (some_values (map (λ r. r.assigned_room_id) stays))
              (joined_room_ids stays) (In-own_rooms_of k r stays stay i)
        | inr i ↦
            In-append_right k (some_values (map (λ r. r.assigned_room_id) stays))
              (joined_room_ids stays) (In-joined_of k r stays stay i)
      ]

  -- The rooms of `_occupied_room_ids` are exactly those that an active reservation, other than the
  -- excluded one, holds on a shared night.
  pub occupied_room_ids_iff :
      In k (occupied_room_ids db checkin checkout exclude)
      ↔ ((r : Reservation) × Occupies db checkin checkout exclude k r)
  occupied_room_ids_iff = (occupied_room_ids_sound, λ (r, o). occupied_room_ids_complete r o)
