-- ===== src/Rooms/Routes.antt =====
-- Creating, changing and deleting rooms. The number of a room is unique.
use resaprint.Base.{
  ℕ, Bool, true, false, not, ◌&&◌, ◌||◌, Option, none, some, String, List, [], ◌∷◌, map, any, get,
  update, delete, text_eq, ◌==◌,
}
use resaprint.Models.{Room, Reservation, RoomLine, AdminPin, Json}
use resaprint.Database.{
  Db, Action, Exception, http_error, integrity_error, pure, gets, or_raise, modify, commit, unless,
  table_add, unset_if, ◌>>=◌, ◌>>◌,
}
use resaprint.Audit.{log, log_row}
use resaprint.Patch.{Patch, unset, null, value, patch, patch_option, is_null}

pub record RoomCreate : Type 0 where
  pub room_number : String
  pub category : String
  pub floor : Option String
  pub notes : Option String

pub record RoomUpdate : Type 0 where
  pub room_number : Patch String
  pub category : Patch String
  pub floor : Patch String
  pub notes : Patch String
  pub is_active : Patch Bool

abbrev pub room_not_found : Exception
room_not_found = http_error 404 "room not found"

abbrev pub find_room : ℕ → Action Room
find_room k = gets (λ db. get (λ r. r.id) k db.rooms.rows) >>= λ r. or_raise r room_not_found

-- Another room has the number.
unfoldable pub number_taken : Option ℕ → String → Db → Bool
unfolding any
number_taken k number db =
    any (λ r. text_eq r.room_number number && not (is_own k r.id)) db.rooms.rows
  where
    is_own : Option ℕ → ℕ → Bool
    is_own none j = false
    is_own (some k) j = j == k

abbrev pub new_room : RoomCreate → ℕ → Room
new_room payload id = record {
  id = id;
  room_number = payload.room_number;
  category = payload.category;
  floor = payload.floor;
  notes = payload.notes;
  is_active = true;
}

abbrev pub insert_room : RoomCreate → Db → Db
insert_room payload db = record db { rooms = table_add (new_room payload) db.rooms }

unfoldable pub create_room : AdminPin → RoomCreate → Action Room
unfolding number_taken
create_room admin payload = do
  taken ← gets (number_taken none payload.room_number)
  unless (not taken) integrity_error
  room ← gets (λ db. new_room payload db.rooms.next_id)
  modify (insert_room payload)
  log_row admin.label "room.created" "room" room.id
  commit
  pure room

abbrev pub changed_room : RoomUpdate → Room → Room
changed_room p r = record r {
  room_number = patch p.room_number r.room_number;
  category = patch p.category r.category;
  floor = patch_option p.floor r.floor;
  notes = patch_option p.notes r.notes;
  is_active = patch p.is_active r.is_active;
}

abbrev pub null_field : RoomUpdate → Bool
null_field p = is_null p.room_number || (is_null p.category || is_null p.is_active)

abbrev pub detail_field :
    {A : Type 0} → String → (A → Json) → Patch A → List (String × Json) → List (String × Json)
detail_field name json unset rest = rest
detail_field name json null rest = (name, Json.null) ∷ rest
detail_field name json (value a) rest = (name, json a) ∷ rest

abbrev pub room_detail : RoomUpdate → List (String × Json)
room_detail p = detail_field "room_number" Json.text p.room_number (
    detail_field "category" Json.text p.category (
      detail_field "floor" Json.text p.floor (
        detail_field "notes" Json.text p.notes
          (detail_field "is_active" Json.flag p.is_active []))))

abbrev pub set_room_row : ℕ → RoomUpdate → Db → Db
set_room_row k p db = record db {
  rooms = record db.rooms { rows = update (λ r. r.id) k (changed_room p) db.rooms.rows };
}

unfoldable pub update_room : AdminPin → ℕ → RoomUpdate → Action Room
unfolding number_taken
update_room admin room_id payload = do
  room ← find_room room_id
  taken ← gets (number_taken (some room.id) (changed_room payload room).room_number)
  unless (not (null_field payload || taken)) integrity_error
  modify (set_room_row room.id payload)
  log admin.label "room.updated" (some "room") (some room.id) (some (room_detail payload))
  commit
  pure (changed_room payload room)

-- ON DELETE SET NULL, on the reservations and on their room lines.
abbrev pub unset_line : ℕ → RoomLine → RoomLine
unset_line k l = record l { assigned_room_id = unset_if k l.assigned_room_id }

abbrev pub unset_room : ℕ → Reservation → Reservation
unset_room k r = record r {
  assigned_room_id = unset_if k r.assigned_room_id;
  room_lines = map (unset_line k) r.room_lines;
}

abbrev pub remove_room : ℕ → Db → Db
remove_room k db = record db {
  rooms = record db.rooms { rows = delete (λ r. r.id) k db.rooms.rows };
  reservations = record db.reservations { rows = map (unset_room k) db.reservations.rows };
}

unfoldable pub delete_room : AdminPin → ℕ → Action (Unit {0})
delete_room admin room_id = do
  room ← find_room room_id
  log admin.label "room.deleted" (some "room") (some room.id)
      (some (("room_number", Json.text room.room_number) ∷ []))
  modify (remove_room room.id)
  commit
