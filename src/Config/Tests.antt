-- ===== src/Config/Tests.antt =====
-- The settings of a new installation.
use resaprint.Base.{◌≡◌, refl, true, none, some, String, [], ◌∷◌, get}
use resaprint.Models.{AppSettings, AdminPin, AdminRole}
use resaprint.Database.{Session, empty_db, returned}
use resaprint.Patch.{unset, null, value}
use resaprint.Config.{
  Env, ConfigUpdate, get_settings, default_row, get_or_create_settings, update_config,
}
use resaprint.Config.Singleton.{get_or_create_settings-idempotent, update_config-keeps_password}

abbrev env : Env
env = record {
  imap_host = "mail.example";
  imap_port = 993;
  imap_user = "";
  imap_password = "secret";
  imap_folder = "INBOX";
  imap_processed_folder = "Processed";
  imap_poll_seconds = 60;
}

abbrev encrypt : String → String
encrypt s = s

abbrev boss : AdminPin
boss = record {
  id = 1;
  label = "Boss";
  pin_hash = "1234";
  role = AdminRole.admin;
  is_active = true;
  failed_attempts = 0;
  locked_until = none;
  last_login_at = none;
}

abbrev fresh : Session
fresh = record { committed = empty_db; current = empty_db }

abbrev installed : Session
installed =
    let db = record empty_db { app_settings = default_row env encrypt ∷ [] } in
    record { committed = db; current = db }

abbrev font_change : ConfigUpdate
font_change = record {
  imap_host = null;
  imap_port = unset;
  imap_user = unset;
  imap_password = value "";
  imap_folder = unset;
  imap_processed_folder = unset;
  imap_poll_seconds = unset;
  auto_print_enabled = unset;
  auto_print_station_id = unset;
  room_auto_assign_enabled = unset;
  receipt_font = value "font_b";
  receipt_font_size = unset;
  receipt_bold_labels = unset;
  receipt_show_nights = unset;
  receipt_show_guests = unset;
  receipt_show_channel = unset;
}

get_or_create_settings-idempotent_example :
    let s' = (get_or_create_settings env encrypt fresh).1 in
    (row : AppSettings) × ((get_or_create_settings env encrypt fresh).0 ≡ returned row)
    × (get_or_create_settings (record env { imap_host = "other.example" }) encrypt s'
        ≡ (returned row, s'))
get_or_create_settings-idempotent_example =
    get_or_create_settings-idempotent env encrypt (record env { imap_host = "other.example" }) fresh

found_row : get_settings installed.current ≡ some (default_row env encrypt)
unfolding get
found_row = refl

update_config-keeps_password_example :
    (row' : AppSettings) × (get_settings
        (update_config env encrypt boss font_change installed).1.current
      ≡ some row')
    × (row'.imap_password_encrypted ≡ some "secret")
update_config-keeps_password_example =
    update_config-keeps_password env encrypt boss font_change installed (default_row env encrypt)
      found_row refl
