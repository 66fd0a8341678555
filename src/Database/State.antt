-- ===== src/Database/State.antt =====
-- The tables together with the sequences of their ids.
use resaprint.Base.{ℕ, List, []}
use resaprint.Models.{
  Reservation, Room, UnparsedEmail, PrintJob, PrintStation, AdminPin, AuditLog, AppSettings,
  ParserFieldMapping,
}

pub record Table (A : Type 0) : Type 0 where
  pub rows : List A
  pub next_id : ℕ

pub record Db : Type 0 where
  pub reservations : Table Reservation
  -- The sequence of the ids of all room lines.
  pub next_room_line_id : ℕ
  pub rooms : Table Room
  pub unparsed_emails : Table UnparsedEmail
  pub print_jobs : Table PrintJob
  pub print_stations : Table PrintStation
  pub admin_pins : Table AdminPin
  pub audit_log : Table AuditLog
  -- The table of settings has the single id 1.
  pub app_settings : List AppSettings
  pub parser_field_mappings : Table ParserFieldMapping
  pub next_mapping_field_id : ℕ

pub record Session : Type 0 where
  pub committed : Db
  pub current : Db

abbrev pub empty_table : {A : Type 0} → Table A
empty_table = record { rows = []; next_id = 1 }

abbrev pub empty_db : Db
empty_db = record {
  reservations = empty_table;
  next_room_line_id = 1;
  rooms = empty_table;
  unparsed_emails = empty_table;
  print_jobs = empty_table;
  print_stations = empty_table;
  admin_pins = empty_table;
  audit_log = empty_table;
  app_settings = [];
  parser_field_mappings = empty_table;
  next_mapping_field_id = 1;
}
