-- ===== src/AdminUi/Actions.antt =====
-- The form actions on rooms, users and the settings.
use resaprint.Base.{
  ℕ, Bool, true, not, Option, none, some, String, List, [], ◌∷◌, get, update, truthy, or_none,
  order_by, is_some, if◌then◌else◌,
}
use resaprint.Models.{Room, Reservation, AdminPin, AdminRole, AppSettings, PrintStation, Json}
use resaprint.Database.{
  Db, Action, Outcome, returned, raised, integrity_error, other_error, pure, gets, modify, commit,
  unless, put_reservation, ◌>>=◌, ◌>>◌,
}
use resaprint.Audit.{log, log_row}
use resaprint.Config.{
  Env, ConfigOut, get_or_create_settings, config_out_from_row, set_settings, new_password,
}
use resaprint.RoomAssignment.{reassign_rooms_for_reservation}
use resaprint.Rooms.{create_room, remove_room}
use resaprint.Users.{create_user}
use resaprint.EmailIngest.{get_reservation, outcome}
use resaprint.AdminUi.Sheet.{active_stations}

module _ (le : String → String → Bool) where
  unfoldable pub rooms_by_number : Db → List Room
  unfolding order_by
  rooms_by_number db = order_by (λ a b. le a.room_number b.room_number) db.rooms.rows

  unfoldable pub create_room_action :
      AdminPin → String → String → String → String → Action (List Room)
  unfolding create_room rooms_by_number
  create_room_action admin room_number category floor notes =
      create_room admin (record {
        room_number = room_number;
        category = category;
        floor = or_none floor;
        notes = or_none notes;
      })
      >> gets rooms_by_number

  abbrev pub get_room_row : ℕ → Db → Option Room
  get_room_row k db = get (λ r. r.id) k db.rooms.rows

  abbrev pub set_room_active : ℕ → Bool → Db → Db
  set_room_active k on db = record db {
    rooms = record db.rooms {
      rows = update (λ r. r.id) k (λ r. record r { is_active = on }) db.rooms.rows;
    };
  }

  abbrev pub toggle_room : AdminPin → Option Room → Action (Unit {0})
  toggle_room admin none = pure tt
  toggle_room admin (some room) = do
    modify (set_room_active room.id (not room.is_active))
    log admin.label "room.updated" (some "room") (some room.id)
        (some (("is_active", Json.flag (not room.is_active)) ∷ []))
    commit

  unfoldable pub toggle_room_active_action : AdminPin → ℕ → Action (List Room)
  unfolding rooms_by_number update
  toggle_room_active_action admin room_id =
      gets (get_room_row room_id) >>= toggle_room admin >> gets rooms_by_number

  abbrev pub delete_room_if : AdminPin → Option Room → Action (Unit {0})
  delete_room_if admin none = pure tt
  delete_room_if admin (some room) = do
    log admin.label "room.deleted" (some "room") (some room.id)
        (some (("room_number", Json.text room.room_number) ∷ []))
    modify (remove_room room.id)
    commit

  unfoldable pub delete_room_action : AdminPin → ℕ → Action (List Room)
  unfolding rooms_by_number
  delete_room_action admin room_id =
      gets (get_room_row room_id) >>= delete_room_if admin >> gets rooms_by_number

  abbrev pub reassign_if : AdminPin → Option Reservation → Action (Unit {0})
  reassign_if admin none = pure tt
  reassign_if admin (some reservation) = do
    modify (λ db. put_reservation reservation.id (reassign_rooms_for_reservation le db) db)
    log_row admin.label "reservation.room_reassigned" "reservation" reservation.id
    commit

  -- The page shows the reservation, if there is one, and the active stations.
  unfoldable pub reassign_room_action :
      AdminPin → ℕ → Action (Option Reservation × List PrintStation)
  unfolding reassign_rooms_for_reservation active_stations
  reassign_room_action admin reservation_id =
      gets (get_reservation reservation_id)
      >>= reassign_if admin
      >> gets (λ db. (get_reservation reservation_id db, active_stations le db))

  unfoldable pub users_by_label : Db → List AdminPin
  unfolding order_by
  users_by_label db = order_by (λ a b. le a.label b.label) db.admin_pins.rows

  unfoldable pub create_user_action :
      (String → String) → AdminPin → String → AdminRole → String → Action (List AdminPin)
  unfolding create_user users_by_label
  create_user_action hash_pin admin label role pin =
      create_user hash_pin admin (record { label = label; pin = pin; role = role })
      >> gets users_by_label

pub record SettingsForm : Type 0 where
  pub imap_host : String
  pub imap_port : ℕ
  pub imap_user : String
  pub imap_password : String
  pub imap_folder : String
  pub imap_processed_folder : String
  pub imap_poll_seconds : ℕ
  pub auto_print_enabled : Bool
  pub auto_print_station_id : String
  pub room_auto_assign_enabled : Bool
  pub receipt_font : String
  pub receipt_font_size : String
  pub receipt_bold_labels : Bool
  pub receipt_show_nights : Bool
  pub receipt_show_guests : Bool
  pub receipt_show_channel : Bool

module _ (env : Env) (encrypt : String → String) (le : String → String → Bool)
    (int : String → Option ℕ) where
  -- `int(text) if text else None`
  abbrev pub station_id_value : String → Outcome (Option ℕ)
  station_id_value text =
      if truthy text
      then elim (int text) [
        | none ↦ raised (other_error "invalid literal for int()")
        | some k ↦ returned (some k)
      ]
      else returned none

  abbrev pub form_settings : SettingsForm → Option ℕ → AppSettings → AppSettings
  form_settings form station row = record {
    id = row.id;
    imap_host = or_none form.imap_host;
    imap_port = form.imap_port;
    imap_user = or_none form.imap_user;
    imap_password_encrypted =
        new_password env encrypt (some form.imap_password) row.imap_password_encrypted;
    imap_folder = form.imap_folder;
    imap_processed_folder = form.imap_processed_folder;
    imap_poll_seconds = form.imap_poll_seconds;
    auto_print_enabled = form.auto_print_enabled;
    auto_print_station_id = station;
    room_auto_assign_enabled = form.room_auto_assign_enabled;
    receipt_font = form.receipt_font;
    receipt_font_size = form.receipt_font_size;
    receipt_bold_labels = form.receipt_bold_labels;
    receipt_show_nights = form.receipt_show_nights;
    receipt_show_guests = form.receipt_show_guests;
    receipt_show_channel = form.receipt_show_channel;
  }

  -- The foreign key to the stations.
  abbrev pub names_station : Option ℕ → Db → Bool
  names_station none db = true
  names_station (some k) db = is_some (get (λ s. s.id) k db.print_stations.rows)

  unfoldable pub settings_update_action :
      AdminPin → SettingsForm → Action (ConfigOut × List PrintStation)
  unfolding get_or_create_settings active_stations update
  settings_update_action admin form = do
    row ← get_or_create_settings env encrypt
    station ← outcome (station_id_value form.auto_print_station_id)
    exists ← gets (names_station station)
    unless exists integrity_error
    modify (set_settings (form_settings form station row))
    log_row admin.label "config.updated" "app_settings" row.id
    commit
    gets (λ db. (config_out_from_row (form_settings form station row), active_stations le db))
