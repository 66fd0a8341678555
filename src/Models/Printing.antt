-- ===== src/Models/Printing.antt =====
-- backend/app/models/print_job.py and print_station.py.
use resaprint.Base.{ℕ, Bool, String, Option, List}
use resaprint.Models.Values.{Time}

pub data PrintJobStatus : Type 0 where
  queued sent printed failed cancelled : PrintJobStatus

pub record PrintJob : Type 0 where
  pub id : ℕ
  pub reservation_id : Option ℕ
  pub station_id : ℕ
  pub status : PrintJobStatus
  pub payload_text : String
  pub escpos_bytes : Option (List ℕ)
  pub attempts : ℕ
  pub last_error : Option String
  pub requested_by : Option String
  pub created_at : Time
  pub sent_at : Option Time
  pub printed_at : Option Time

pub data StationConnectionType : Type 0 where
  lan_escpos usb_agent : StationConnectionType

pub record PrintStation : Type 0 where
  pub id : ℕ
  pub name : String
  pub connection_type : StationConnectionType
  pub lan_host : Option String
  pub lan_port : ℕ
  pub paper_width_cols : ℕ
  pub codepage : String
  pub api_key_hash : Option String
  pub api_key_prefix : Option String
  pub paired_at : Option Time
  pub is_active : Bool
  pub last_seen_at : Option Time
