-- ===== src/CsvExport/Tables.antt =====
-- The columns of the exported tables. A date, a time, a number, a decimal and a JSON value are
-- written by Python's `str` and `json.dumps`, the parameter `writer`; the columns that the
-- database fills in by itself come from the parameter `stamps`.
use resaprint.Base.{ℕ, Bool, Option, none, some, String, List, [], ◌∷◌}
use resaprint.Models.{
  Reservation, RoomLine, Room, PrintJob, PrintStation, StationConnectionType, AdminPin, AdminRole,
  AuditLog, UnparsedEmail, UnparsedEmailStatus, Date, Decimal, Time, Json,
}
use resaprint.PrintJobs.{status_value}
use resaprint.Reservations.{reservation_status_value}

-- The columns of a table: the name of each, and its cell for a row.
abbrev pub Columns : Type 0 → Type 0
Columns A = List (String × (A → String))

-- `created_at` and `updated_at` of the row of a table with an id.
pub record Stamps : Type 0 where
  pub created_at : String → ℕ → String
  pub updated_at : String → ℕ → String

pub record Writer : Type 0 where
  pub number : ℕ → String
  pub flag : Bool → String
  pub date : Date → String
  pub time : Time → String
  pub decimal : Decimal → String
  pub dumps : List (String × Json) → String

-- `_cell` of a value that may be missing.
abbrev pub cell : {A : Type 0} → (A → String) → Option A → String
cell show none = ""
cell show (some a) = show a

abbrev pub same : String → String
same s = s

abbrev pub connection_value : StationConnectionType → String
connection_value StationConnectionType.lan_escpos = "lan_escpos"
connection_value StationConnectionType.usb_agent = "usb_agent"

abbrev pub role_value : AdminRole → String
role_value AdminRole.admin = "admin"
role_value AdminRole.reception = "reception"

abbrev pub email_status_value : UnparsedEmailStatus → String
email_status_value UnparsedEmailStatus.pending = "pending"
email_status_value UnparsedEmailStatus.resolved = "resolved"
email_status_value UnparsedEmailStatus.ignored = "ignored"

module _ (writer : Writer) (stamps : Stamps) where
  abbrev pub reservation_columns : Columns Reservation
  reservation_columns =
      ("id", λ r. writer.number r.id)
      ∷ ("external_ref", λ r. cell same r.external_ref)
      ∷ ("source_channel", λ r. r.source_channel)
      ∷ ("parser_slug", λ r. cell same r.parser_slug)
      ∷ ("guest_name", λ r. r.guest_name)
      ∷ ("guest_email", λ r. cell same r.guest_email)
      ∷ ("guest_phone", λ r. cell same r.guest_phone)
      ∷ ("checkin", λ r. writer.date r.checkin)
      ∷ ("checkout", λ r. writer.date r.checkout)
      ∷ ("room_type", λ r. cell same r.room_type)
      ∷ ("guests_adults", λ r. writer.number r.guests_adults)
      ∷ ("guests_children", λ r. writer.number r.guests_children)
      ∷ ("price_total", λ r. cell writer.decimal r.price_total)
      ∷ ("price_currency", λ r. r.price_currency)
      ∷ ("status", λ r. reservation_status_value r.status)
      ∷ ("assigned_room_id", λ r. cell writer.number r.assigned_room_id)
      ∷ ("created_at", λ r. writer.time r.created_at)
      ∷ ("updated_at", λ r. stamps.updated_at "reservations" r.id)
      ∷ []

  -- Of a room line with the id of its reservation.
  abbrev pub room_line_columns : Columns (ℕ × RoomLine)
  room_line_columns =
      ("id", λ row. writer.number row.1.id)
      ∷ ("reservation_id", λ row. writer.number row.0)
      ∷ ("sort_order", λ row. writer.number row.1.sort_order)
      ∷ ("room_type", λ row. row.1.room_type)
      ∷ ("nights", λ row. cell writer.number row.1.nights)
      ∷ ("price_per_night", λ row. cell writer.decimal row.1.price_per_night)
      ∷ ("price_total", λ row. cell writer.decimal row.1.price_total)
      ∷ ("assigned_room_id", λ row. cell writer.number row.1.assigned_room_id)
      ∷ []

  abbrev pub room_columns : Columns Room
  room_columns =
      ("id", λ r. writer.number r.id)
      ∷ ("room_number", λ r. r.room_number)
      ∷ ("category", λ r. r.category)
      ∷ ("floor", λ r. cell same r.floor)
      ∷ ("notes", λ r. cell same r.notes)
      ∷ ("is_active", λ r. writer.flag r.is_active)
      ∷ ("created_at", λ r. stamps.created_at "rooms" r.id)
      ∷ ("updated_at", λ r. stamps.updated_at "rooms" r.id)
      ∷ []

  abbrev pub print_job_columns : Columns PrintJob
  print_job_columns =
      ("id", λ j. writer.number j.id)
      ∷ ("reservation_id", λ j. cell writer.number j.reservation_id)
      ∷ ("station_id", λ j. writer.number j.station_id)
      ∷ ("status", λ j. status_value j.status)
      ∷ ("attempts", λ j. writer.number j.attempts)
      ∷ ("last_error", λ j. cell same j.last_error)
      ∷ ("requested_by", λ j. cell same j.requested_by)
      ∷ ("created_at", λ j. writer.time j.created_at)
      ∷ ("sent_at", λ j. cell writer.time j.sent_at)
      ∷ ("printed_at", λ j. cell writer.time j.printed_at)
      ∷ []

  abbrev pub print_station_columns : Columns PrintStation
  print_station_columns =
      ("id", λ s. writer.number s.id)
      ∷ ("name", λ s. s.name)
      ∷ ("connection_type", λ s. connection_value s.connection_type)
      ∷ ("lan_host", λ s. cell same s.lan_host)
      ∷ ("lan_port", λ s. writer.number s.lan_port)
      ∷ ("paper_width_cols", λ s. writer.number s.paper_width_cols)
      ∷ ("codepage", λ s. s.codepage)
      ∷ ("paired_at", λ s. cell writer.time s.paired_at)
      ∷ ("is_active", λ s. writer.flag s.is_active)
      ∷ ("last_seen_at", λ s. cell writer.time s.last_seen_at)
      ∷ ("created_at", λ s. stamps.created_at "print_stations" s.id)
      ∷ ("updated_at", λ s. stamps.updated_at "print_stations" s.id)
      ∷ []

  abbrev pub user_columns : Columns AdminPin
  user_columns =
      ("id", λ p. writer.number p.id)
      ∷ ("label", λ p. p.label)
      ∷ ("role", λ p. role_value p.role)
      ∷ ("is_active", λ p. writer.flag p.is_active)
      ∷ ("failed_attempts", λ p. writer.number p.failed_attempts)
      ∷ ("locked_until", λ p. cell writer.time p.locked_until)
      ∷ ("last_login_at", λ p. cell writer.time p.last_login_at)
      ∷ ("created_at", λ p. stamps.created_at "admin_pins" p.id)
      ∷ ("updated_at", λ p. stamps.updated_at "admin_pins" p.id)
      ∷ []

  abbrev pub audit_columns : Columns AuditLog
  audit_columns =
      ("id", λ a. writer.number a.id)
      ∷ ("actor", λ a. a.actor)
      ∷ ("action", λ a. a.action)
      ∷ ("entity_type", λ a. cell same a.entity_type)
      ∷ ("entity_id", λ a. cell writer.number a.entity_id)
      ∷ ("detail", λ a. cell writer.dumps a.detail)
      ∷ ("created_at", λ a. stamps.created_at "audit_log" a.id)
      ∷ []

  abbrev pub unparsed_email_columns : Columns UnparsedEmail
  unparsed_email_columns =
      ("id", λ e. writer.number e.id)
      ∷ ("subject", λ e. e.subject)
      ∷ ("content_type", λ e. e.content_type)
      ∷ ("reason", λ e. e.reason)
      ∷ ("parser_slug", λ e. cell same e.parser_slug)
      ∷ ("status", λ e. email_status_value e.status)
      ∷ ("resolved_reservation_id", λ e. cell writer.number e.resolved_reservation_id)
      ∷ ("created_at", λ e. writer.time e.created_at)
      ∷ ("resolved_at", λ e. cell writer.time e.resolved_at)
      ∷ []
