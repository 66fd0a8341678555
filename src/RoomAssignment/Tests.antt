-- ===== src/RoomAssignment/Tests.antt =====
-- Runs of the room assignment and of the room plan on a small hotel.
use resaprint.Base.{
  ◌↔◌, ℕ, ◌≡◌, refl, inl, inr, Bool, true, Option, none, some, String, List, [], ◌∷◌, arith, In,
}
use resaprint.Models.{Reservation, RoomLine, Room, ReservationStatus}
use resaprint.Database.{Db, empty_db, put_reservation}
use resaprint.RoomAssignment.{
  find_free_room, occupied_room_ids, assign_rooms_for_reservation, reassign_rooms_for_reservation,
  room_plan_grid, rooms_occupied_on_date, guest_in, cell_at,
}
use resaprint.RoomAssignment.Occupied.{rooms_of, Occupies, occupied_room_ids_iff}
use resaprint.RoomAssignment.Search.{IsFree, find_free_room_correct, find_free_room-least}
use resaprint.RoomAssignment.Assignment.{IsUnassigned}
use resaprint.RoomAssignment.Consistent.{IsConsistent, reassign-IsConsistent, assign-IsConsistent}
use resaprint.RoomAssignment.Grid.{guest_of, room_plan_grid-rooms_occupied, room_plan_grid-outside}

abbrev room : ℕ → String → String → Room
room id number category = record {
  id = id;
  room_number = number;
  category = category;
  floor = none;
  notes = none;
  is_active = true;
}

abbrev room_line : ℕ → String → Option ℕ → RoomLine
room_line id room_type assigned = record {
  id = id;
  sort_order = 0;
  room_type = room_type;
  nights = none;
  price_per_night = none;
  price_total = none;
  assigned_room_id = assigned;
}

abbrev stay : ℕ → String → ℕ → ℕ → Option ℕ → List RoomLine → Reservation
stay id guest checkin checkout assigned lines = record {
  id = id;
  external_ref = none;
  source_channel = "manual";
  parser_slug = none;
  guest_name = guest;
  guest_email = none;
  guest_phone = none;
  checkin = checkin;
  checkout = checkout;
  room_type = none;
  guests_adults = 1;
  guests_children = 0;
  price_total = none;
  price_currency = "EUR";
  status = ReservationStatus.confirmed;
  raw_source_text = none;
  extra_fields = none;
  assigned_room_id = assigned;
  created_at = 0;
  room_lines = lines;
}

-- Ann has room 1; Ben wants two double rooms for overlapping nights.
abbrev ben : Reservation
ben = stay 2 "Ben" 12 14 none (room_line 1 "Double" none ∷ room_line 2 "Double" none ∷ [])

abbrev hotel : Db
hotel = record empty_db {
  rooms = record {
    rows = room 1 "101" "Double" ∷ room 2 "102" "Double" ∷ room 3 "201" "Suite" ∷ [];
    next_id = 4;
  };
  reservations = record { rows = stay 1 "Ann" 10 13 (some 1) [] ∷ ben ∷ []; next_id = 3 };
}

abbrev any_order : String → String → Bool
any_order a b = true

occupied_room_ids-hotel : occupied_room_ids hotel 12 14 (some 2) ≡ 1 ∷ []
unfolding occupied_room_ids
occupied_room_ids-hotel = refl

-- The second line stays without a room: the only free double room went to the first.
reassign-ben : rooms_of (reassign_rooms_for_reservation any_order hotel ben) ≡ 2 ∷ []
unfolding reassign_rooms_for_reservation
reassign-ben = refl

found-double :
    find_free_room any_order hotel "Double" 12 14 (some 2) [] ≡ some (room 2 "102" "Double")
unfolding find_free_room
found-double = refl

hotel-IsConsistent : IsConsistent hotel.reservations.rows
hotel-IsConsistent = record {
  apart = λ r s mr ms ne ar as_active o k hr hs. ground arith;
  distinct = λ r m active. ground arith;
}

reassign-IsConsistent_example :
    IsConsistent
      (put_reservation 2 (reassign_rooms_for_reservation any_order hotel) hotel).reservations.rows
reassign-IsConsistent_example = reassign-IsConsistent any_order hotel 2 hotel-IsConsistent

room_plan_grid-rooms_occupied_example :
    guest_of (cell_at 1 11 (room_plan_grid hotel 9 16))
    ≡ guest_in 1 (rooms_occupied_on_date hotel 11)
room_plan_grid-rooms_occupied_example =
    room_plan_grid-rooms_occupied hotel 9 16 11 1 (omega arith) (omega arith)

grid-ann : cell_at 1 11 (room_plan_grid hotel 9 16) ≡ some (1, "Ann")
unfolding room_plan_grid cell_at
grid-ann = refl

no-double : find_free_room any_order hotel "Double" 10 13 (some 2) (2 ∷ []) ≡ none
unfolding find_free_room
no-double = refl

-- In April both double rooms are free.
found-april : find_free_room any_order hotel "Double" 90 92 none [] ≡ some (room 1 "101" "Double")
unfolding find_free_room
found-april = refl

double-IsFree : IsFree hotel "Double" 90 92 none [] (room 2 "102" "Double")
double-IsFree = record {
  exists = inr (inl refl);
  fits = refl;
  in_use = refl;
  unoccupied = λ r o. ground arith;
  untaken = λ m. elim m [ ];
}

find_free_room-least_example : any_order "101" "102" ≡ true
find_free_room-least_example =
    find_free_room-least any_order (λ a b e. refl) (λ a b c h h'. refl) hotel "Double" 90 92 none []
      (room 1 "101" "Double") (room 2 "102" "Double") found-april double-IsFree

ann-Occupies : Occupies hotel 12 14 (some 2) 1 (stay 1 "Ann" 10 13 (some 1) [])
ann-Occupies = (inl refl, refl, (omega arith, omega arith), refl, inl refl)

ben-IsUnassigned : (r : Reservation) → In r hotel.reservations.rows → r.id ≡ 2 → IsUnassigned r
ben-IsUnassigned r m same = elim m [
  | inl e ↦ absurd (ground arith)
  | inr n ↦ elim n [
    | inl e ↦ rw e (record { own = refl; lines = (refl, (refl, tt)) })
    | inr n ↦ elim n [ ]
  ]
]

assign-IsConsistent_example :
    IsConsistent
      (put_reservation 2 (assign_rooms_for_reservation any_order hotel) hotel).reservations.rows
assign-IsConsistent_example =
    assign-IsConsistent any_order hotel 2 ben-IsUnassigned hotel-IsConsistent

room_plan_grid-outside_example : cell_at 1 9 (room_plan_grid hotel 10 16) ≡ none
room_plan_grid-outside_example = room_plan_grid-outside hotel 10 16 9 1 (inr (omega arith))

occupied_room_ids_iff_example :
    In 1 (occupied_room_ids hotel 12 14 (some 2))
    ↔ ((r : Reservation) × Occupies hotel 12 14 (some 2) 1 r)
occupied_room_ids_iff_example = occupied_room_ids_iff hotel 12 14 (some 2) 1

find_free_room_correct_example :
    ((r : Room)
      → find_free_room any_order hotel "Double" 10 13 (some 2) (2 ∷ []) ≡ some r
      → IsFree hotel "Double" 10 13 (some 2) (2 ∷ []) r)
    × ((find_free_room any_order hotel "Double" 10 13 (some 2) (2 ∷ []) ≡ none)
        ↔ ((r : Room) → ¬ IsFree hotel "Double" 10 13 (some 2) (2 ∷ []) r))
find_free_room_correct_example =
    find_free_room_correct hotel "Double" 10 13 (some 2) (2 ∷ []) any_order
