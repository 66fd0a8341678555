-- ===== src/RoomAssignment/Search.antt =====
-- What `find_free_room` returns.
use resaprint.Base.{
  ℕ, ◌≡◌, refl, inl, inr, Bool, true, false, Option, none, some, List, [], ◌∷◌, String, arith, In,
  select, order_by, insert_by, first, eq_iff, Bool-cases, Option-cases, ◌↔◌,
}
use resaprint.Base.Lemmas.{
  In-select, In-select_of, In-order_by, In-order_by_of, first-In, first-none,
}
use resaprint.Models.{Reservation, Room, Date}
use resaprint.Database.{Db}
use resaprint.RoomAssignment.Defs.{
  is_free, contains, occupied_room_ids, by_room_number, find_free_room,
}
use resaprint.RoomAssignment.Occupied.{
  Occupies, contains-In, not-contains, occupied_room_ids_complete, occupied_room_ids_sound,
}

-- A room of the category that is in use, that no other overlapping stay holds, and that is not taken.
pub record IsFree (db : Db) (category : String) (checkin checkout : Date) (exclude : Option ℕ)
    (taken : List ℕ) (room : Room) : Type 0 where
  pub exists : In room db.rooms.rows
  pub fits : room.category ≡ category
  pub in_use : room.is_active ≡ true
  pub unoccupied : (r : Reservation) → ¬ Occupies db checkin checkout exclude room.id r
  pub untaken : ¬ In room.id taken

module _ (db : Db) (category : String) (checkin checkout : Date) (exclude : Option ℕ)
    (taken : List ℕ) where
  abbrev occupied : List ℕ
  occupied = occupied_room_ids db checkin checkout exclude

  is_free-IsFree :
      (room : Room)
      → In room db.rooms.rows
      → is_free category occupied taken room ≡ true
      → IsFree db category checkin checkout exclude taken room
  is_free-IsFree room m e = record {
    exists = m;
    fits = (eq_iff room.category category).0 (ground arith);
    in_use = ground arith;
    unoccupied = λ r o.
        not-contains room.id occupied (ground arith)
          (occupied_room_ids_complete db checkin checkout exclude room.id r o);
    untaken = not-contains room.id taken (ground arith);
  }

  is_free-of_IsFree :
      (room : Room)
      → IsFree db category checkin checkout exclude taken room
      → is_free category occupied taken room ≡ true
  is_free-of_IsFree room f =
      let fits = (eq_iff room.category category).1 f.fits in
      let in_use = f.in_use in
      elim (Bool-cases (contains room.id occupied)) [
        | inl held ↦
            let (r, o) =
              occupied_room_ids_sound db checkin checkout exclude room.id
                (contains-In room.id occupied held) in
            absurd (f.unoccupied r o)
        | inr unheld ↦ elim (Bool-cases (contains room.id taken)) [
          | inl t ↦ absurd (f.untaken (contains-In room.id taken t))
          | inr u ↦ ground arith
        ]
      ]

  module _ (le : String → String → Bool) where
    -- A room that the search returns exists, has the category, is in use, is not excluded, and is
    -- held by no other active reservation that shares a night.
    pub find_free_room-IsFree :
        (room : Room)
        → find_free_room le db category checkin checkout exclude taken ≡ some room
        → IsFree db category checkin checkout exclude taken room
    unfolding find_free_room
    find_free_room-IsFree room h =
        let found = select (is_free category occupied taken) db.rooms.rows in
        let (m, e) = In-select (is_free category occupied taken) room db.rooms.rows (
          In-order_by (by_room_number le) room found
            (first-In room (order_by (by_room_number le) found) h)) in
        is_free-IsFree room m e

    -- If the search returns nothing, then no room exists that has the category, is in use, is not
    -- excluded, and is held by no other active reservation that shares a night.
    pub find_free_room-none :
        find_free_room le db category checkin checkout exclude taken ≡ none
        → (room : Room) → ¬ IsFree db category checkin checkout exclude taken room
    unfolding find_free_room
    find_free_room-none h room f =
        let found = select (is_free category occupied taken) db.rooms.rows in
        first-none room (order_by (by_room_number le) found) h (
          In-order_by_of (by_room_number le) room found (
            In-select_of (is_free category occupied taken) room db.rooms.rows f.exists
              (is_free-of_IsFree room f)))

    -- The search returns a room that exists, has the category, is in use, is not excluded, and is
    -- held by no other active reservation that shares a night; it returns none exactly if there is
    -- no such room.
    pub find_free_room_correct :
        ((room : Room)
          → find_free_room le db category checkin checkout exclude taken ≡ some room
          → IsFree db category checkin checkout exclude taken room)
        × ((find_free_room le db category checkin checkout exclude taken ≡ none)
            ↔ ((room : Room) → ¬ IsFree db category checkin checkout exclude taken room))
    find_free_room_correct = (
      find_free_room-IsFree,
      (
        find_free_room-none,
        λ all_held.
            elim (Option-cases (find_free_room le db category checkin checkout exclude taken)) [
              | inl e ↦ e
              | inr (room, e) ↦ absurd (all_held room (find_free_room-IsFree room e))
            ],
      ),
    )

-- The first row of a sorted list is the least, if the order is total and transitive.
module _ {A : Type 0} (le : A → A → Bool) (total : (a b : A) → le a b ≡ false → le b a ≡ true)
    (trans : (a b c : A) → le a b ≡ true → le b c ≡ true → le a c ≡ true) where
  abbrev Least : A → List A → Type 0
  Least a xs = (b : A) → In b xs → le a b ≡ true

  reflexive : (a : A) → le a a ≡ true
  reflexive a = elim (Bool-cases (le a a)) [ inl t ↦ t | inr f ↦ total a a f ]

  insert_by-first :
      (x : A) (xs : List A)
      → ((y : A) → first xs ≡ some y → Least y xs)
      → (a : A) → first (insert_by le x xs) ≡ some a
      → Least a (x ∷ xs)
  insert_by-first x [] least a h b m = elim m [
    | inl e ↦ let e' : x ≡ a = cc in rw (e, ← e') (reflexive x)
    | inr n ↦ elim n [ ]
  ]
  insert_by-first x (y ∷ ys) least a h b m = elim (Bool-cases (le x y)) [
    | inl t ↦
        let e' : x ≡ a = ground arith in
        rw (← e') (elim m [ inl e ↦ rw e (reflexive x) | inr n ↦ trans x y b t (least y refl b n) ])
    | inr f ↦
        let e' : y ≡ a = ground arith in
        rw (← e') (elim m [ inl e ↦ rw e (total x y f) | inr n ↦ least y refl b n ])
  ]

  first-order_by-Least : (xs : List A) (a : A) → first (order_by le xs) ≡ some a → Least a xs
  unfolding order_by
  first-order_by-Least [] a h b m = elim m [ ]
  first-order_by-Least (x ∷ xs) a h b m =
      insert_by-first x (order_by le xs)
        (λ y e c i. first-order_by-Least xs y e c (In-order_by le c xs i)) a h b
        (elim m [ inl e ↦ inl e | inr n ↦ inr (In-order_by_of le b xs n) ])

-- For a total and transitive order of the room numbers, the room that the search returns has a
-- number not above that of any free room.
pub find_free_room-least :
    (le : String → String → Bool) (total : (a b : String) → le a b ≡ false → le b a ≡ true)
    (trans : (a b c : String) → le a b ≡ true → le b c ≡ true → le a c ≡ true) (db : Db)
    (category : String) (checkin checkout : Date) (exclude : Option ℕ) (taken : List ℕ)
    (room other : Room)
    → find_free_room le db category checkin checkout exclude taken ≡ some room
    → IsFree db category checkin checkout exclude taken other
    → le room.room_number other.room_number ≡ true
unfolding find_free_room
find_free_room-least le total trans db category checkin checkout exclude taken room other h f =
    let occupied = occupied_room_ids db checkin checkout exclude in
    first-order_by-Least (by_room_number le) (λ a b. total a.room_number b.room_number)
      (λ a b c. trans a.room_number b.room_number c.room_number)
      (select (is_free category occupied taken) db.rooms.rows) room h other
      (In-select_of (is_free category occupied taken) other db.rooms.rows f.exists
        (is_free-of_IsFree db category checkin checkout exclude taken other f))
