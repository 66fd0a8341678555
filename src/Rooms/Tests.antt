-- ===== src/Rooms/Tests.antt =====
-- Requests on a hotel with one room that a reservation holds twice.
use resaprint.Base.{ℕ, ◌≡◌, refl, inl, true, none, some, [], ◌∷◌, In, get, delete, any}
use resaprint.Models.{Room, Reservation, ReservationStatus, AdminPin, AdminRole}
use resaprint.Database.{Db, empty_db, raised, integrity_error, request}
use resaprint.RoomAssignment.Occupied.{rooms_of}
use resaprint.Rooms.{create_room, number_taken, delete_room, unset_room}
use resaprint.Rooms.Deletion.{delete_room-unassigns}

abbrev boss : AdminPin
boss = record {
  id = 1;
  label = "Boss";
  pin_hash = "1234";
  role = AdminRole.admin;
  is_active = true;
  failed_attempts = 0;
  locked_until = none;
  last_login_at = none;
}

abbrev double : Room
double = record {
  id = 7;
  room_number = "101";
  category = "Double";
  floor = none;
  notes = none;
  is_active = true;
}

abbrev ann : Reservation
ann = record {
  id = 1;
  external_ref = none;
  source_channel = "manual";
  parser_slug = none;
  guest_name = "Ann";
  guest_email = none;
  guest_phone = none;
  checkin = 10;
  checkout = 12;
  room_type = none;
  guests_adults = 1;
  guests_children = 0;
  price_total = none;
  price_currency = "EUR";
  status = ReservationStatus.confirmed;
  raw_source_text = none;
  extra_fields = none;
  assigned_room_id = some 7;
  created_at = 0;
  room_lines =
      record {
        id = 1;
        sort_order = 0;
        room_type = "Double";
        nights = none;
        price_per_night = none;
        price_total = none;
        assigned_room_id = some 7;
      }
      ∷ [];
}

abbrev hotel : Db
hotel = record empty_db {
  rooms = record { rows = double ∷ []; next_id = 8 };
  reservations = record { rows = ann ∷ []; next_id = 2 };
}

rooms_run : Unit {0}
unfolding request create_room number_taken delete_room get delete any
rooms_run = tt

-- The number 101 is taken.
same_number :
    (request
      (create_room boss
        (record { room_number = "101"; category = "Suite"; floor = none; notes = none }))
      hotel).0
    ≡ raised integrity_error
unfolding rooms_run
same_number = refl

found_double : get (λ r. r.id) 7 hotel.rooms.rows ≡ some double
unfolding rooms_run
found_double = refl

still_ann : In (unset_room 7 ann) (request (delete_room boss 7) hotel).1.reservations.rows
unfolding rooms_run
still_ann = inl refl

delete_room-unassigns_example :
    (¬ In 7 (rooms_of (unset_room 7 ann)))
    × (old : Reservation) × In old (ann ∷ [])
    × (old.id ≡ 1)
    × ((j : ℕ) → In j (rooms_of (unset_room 7 ann)) → In j (rooms_of old))
delete_room-unassigns_example =
    delete_room-unassigns boss 7 hotel double (unset_room 7 ann) found_double still_ann
