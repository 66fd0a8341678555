-- ===== src/Models/Access.antt =====
-- backend/app/models/admin_pin.py, audit_log.py and app_settings.py.
use resaprint.Base.{ℕ, Bool, String, Option, List}
use resaprint.Models.Values.{Time, Json}

pub data AdminRole : Type 0 where
  admin reception : AdminRole

pub record AdminPin : Type 0 where
  pub id : ℕ
  pub label : String
  pub pin_hash : String
  pub role : AdminRole
  pub is_active : Bool
  pub failed_attempts : ℕ
  pub locked_until : Option Time
  pub last_login_at : Option Time

pub record AuditLog : Type 0 where
  pub id : ℕ
  pub actor : String
  pub action : String
  pub entity_type : Option String
  pub entity_id : Option ℕ
  pub detail : Option (List (String × Json))

pub record AppSettings : Type 0 where
  pub id : ℕ
  pub imap_host : Option String
  pub imap_port : ℕ
  pub imap_user : Option String
  pub imap_password_encrypted : Option String
  pub imap_folder : String
  pub imap_processed_folder : String
  pub imap_poll_seconds : ℕ
  pub auto_print_enabled : Bool
  pub auto_print_station_id : Option ℕ
  pub room_auto_assign_enabled : Bool
  pub receipt_font : String
  pub receipt_font_size : String
  pub receipt_bold_labels : Bool
  pub receipt_show_nights : Bool
  pub receipt_show_guests : Bool
  pub receipt_show_channel : Bool
