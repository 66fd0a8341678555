-- ===== src/Config/Defs.antt =====
-- Reading the row, which is made on the first access, and changing it.
use resaprint.Base.{
  ℕ, Bool, true, false, not, ◌||◌, Option, none, some, String, [], ◌∷◌, ◌++◌, get, update, truthy,
  truthy?, or_none, is_some, if◌then◌else◌,
}
use resaprint.Models.{AppSettings, AdminPin}
use resaprint.Database.{
  Db, Action, pure, gets, modify, commit, unless, integrity_error, ◌>>=◌, ◌>>◌,
}
use resaprint.Audit.{log_row}
use resaprint.Patch.{Patch, patch, patch_option, is_null, popped, unset, null, value}

pub record Env : Type 0 where
  pub imap_host : String
  pub imap_port : ℕ
  pub imap_user : String
  pub imap_password : String
  pub imap_folder : String
  pub imap_processed_folder : String
  pub imap_poll_seconds : ℕ

pub record ConfigUpdate : Type 0 where
  pub imap_host : Patch String
  pub imap_port : Patch ℕ
  pub imap_user : Patch String
  pub imap_password : Patch String
  pub imap_folder : Patch String
  pub imap_processed_folder : Patch String
  pub imap_poll_seconds : Patch ℕ
  pub auto_print_enabled : Patch Bool
  pub auto_print_station_id : Patch ℕ
  pub room_auto_assign_enabled : Patch Bool
  pub receipt_font : Patch String
  pub receipt_font_size : Patch String
  pub receipt_bold_labels : Patch Bool
  pub receipt_show_nights : Patch Bool
  pub receipt_show_guests : Patch Bool
  pub receipt_show_channel : Patch Bool

-- What the API shows of the row: never the password.
pub record ConfigOut : Type 0 where
  pub row : AppSettings
  pub imap_has_password : Bool

abbrev pub config_out_from_row : AppSettings → ConfigOut
config_out_from_row row = record {
  row = record row { imap_password_encrypted = none };
  imap_has_password = truthy? row.imap_password_encrypted;
}

abbrev pub settings_id : ℕ
settings_id = 1

abbrev pub get_settings : Db → Option AppSettings
get_settings db = get (λ s. s.id) settings_id db.app_settings

abbrev pub insert_settings : AppSettings → Db → Db
insert_settings row db = record db { app_settings = db.app_settings ++ row ∷ [] }

abbrev pub set_settings : AppSettings → Db → Db
set_settings row db = record db {
  app_settings = update (λ s. s.id) settings_id (λ _. row) db.app_settings;
}

-- The columns that may not be null.
abbrev pub has_null : ConfigUpdate → Bool
has_null p =
    is_null p.imap_port
    || (is_null p.imap_folder
        || (is_null p.imap_processed_folder
            || (is_null p.imap_poll_seconds
                || (is_null p.auto_print_enabled
                    || (is_null p.room_auto_assign_enabled
                        || (is_null p.receipt_font
                            || (is_null p.receipt_font_size
                                || (is_null p.receipt_bold_labels
                                    || (is_null p.receipt_show_nights
                                        || (is_null p.receipt_show_guests
                                            || is_null p.receipt_show_channel))))))))))

-- The foreign key to the stations.
abbrev pub station_exists : Patch ℕ → Db → Bool
station_exists unset db = true
station_exists null db = true
station_exists (value k) db = is_some (get (λ s. s.id) k db.print_stations.rows)

module _ (env : Env) (encrypt : String → String) where
  abbrev pub default_row : AppSettings
  default_row = record {
    id = settings_id;
    imap_host = or_none env.imap_host;
    imap_port = env.imap_port;
    imap_user = or_none env.imap_user;
    imap_password_encrypted =
        if truthy env.imap_password then some (encrypt env.imap_password) else none;
    imap_folder = env.imap_folder;
    imap_processed_folder = env.imap_processed_folder;
    imap_poll_seconds = env.imap_poll_seconds;
    auto_print_enabled = false;
    auto_print_station_id = none;
    room_auto_assign_enabled = false;
    receipt_font = "font_a";
    receipt_font_size = "normal";
    receipt_bold_labels = false;
    receipt_show_nights = true;
    receipt_show_guests = true;
    receipt_show_channel = true;
  }

  abbrev pub existing_or_new : Option AppSettings → Action AppSettings
  existing_or_new (some row) = pure row
  existing_or_new none = do modify (insert_settings default_row); commit; pure default_row

  unfoldable pub get_or_create_settings : Action AppSettings
  get_or_create_settings = gets get_settings >>= existing_or_new

  unfoldable pub get_config : Action ConfigOut
  unfolding get_or_create_settings
  get_config = do row ← get_or_create_settings; pure (config_out_from_row row)

  -- `if password: row.imap_password_encrypted = encrypt(password)`
  abbrev pub new_password : Option String → Option String → Option String
  new_password none old = old
  new_password (some password) old = if truthy password then some (encrypt password) else old

  abbrev pub updated : ConfigUpdate → AppSettings → AppSettings
  updated p row = record {
    id = row.id;
    imap_host = patch_option p.imap_host row.imap_host;
    imap_port = patch p.imap_port row.imap_port;
    imap_user = patch_option p.imap_user row.imap_user;
    imap_password_encrypted = new_password (popped p.imap_password) row.imap_password_encrypted;
    imap_folder = patch p.imap_folder row.imap_folder;
    imap_processed_folder = patch p.imap_processed_folder row.imap_processed_folder;
    imap_poll_seconds = patch p.imap_poll_seconds row.imap_poll_seconds;
    auto_print_enabled = patch p.auto_print_enabled row.auto_print_enabled;
    auto_print_station_id = patch_option p.auto_print_station_id row.auto_print_station_id;
    room_auto_assign_enabled = patch p.room_auto_assign_enabled row.room_auto_assign_enabled;
    receipt_font = patch p.receipt_font row.receipt_font;
    receipt_font_size = patch p.receipt_font_size row.receipt_font_size;
    receipt_bold_labels = patch p.receipt_bold_labels row.receipt_bold_labels;
    receipt_show_nights = patch p.receipt_show_nights row.receipt_show_nights;
    receipt_show_guests = patch p.receipt_show_guests row.receipt_show_guests;
    receipt_show_channel = patch p.receipt_show_channel row.receipt_show_channel;
  }

  unfoldable pub update_config : AdminPin → ConfigUpdate → Action ConfigOut
  unfolding get_or_create_settings
  update_config admin payload = do
    row ← get_or_create_settings
    unless (not (has_null payload)) integrity_error
    known ← gets (station_exists payload.auto_print_station_id)
    unless known integrity_error
    modify (set_settings (updated payload row))
    log_row admin.label "config.updated" "app_settings" row.id
    commit
    pure (config_out_from_row (updated payload row))
