-- ===== src/Models/Stay.antt =====
-- backend/app/models/reservation.py, reservation_room_line.py, room.py and unparsed_email.py.
-- A reservation carries its room lines, as the relationship `room_lines` does: the lines of one
-- reservation, in their sort order, deleted with it.
use resaprint.Base.{ℕ, Bool, String, Option, List}
use resaprint.Models.Values.{Date, Time, Decimal, Json}

pub data ReservationStatus : Type 0 where
  pending confirmed cancelled manual : ReservationStatus

pub record RoomLine : Type 0 where
  pub id : ℕ
  pub sort_order : ℕ
  pub room_type : String
  pub nights : Option ℕ
  pub price_per_night : Option Decimal
  pub price_total : Option Decimal
  pub assigned_room_id : Option ℕ

pub record Reservation : Type 0 where
  pub id : ℕ
  pub external_ref : Option String
  pub source_channel : String
  pub parser_slug : Option String
  pub guest_name : String
  pub guest_email : Option String
  pub guest_phone : Option String
  pub checkin : Date
  pub checkout : Date
  pub room_type : Option String
  pub guests_adults : ℕ
  pub guests_children : ℕ
  pub price_total : Option Decimal
  pub price_currency : String
  pub status : ReservationStatus
  pub raw_source_text : Option String
  pub extra_fields : Option (List (String × Json))
  pub assigned_room_id : Option ℕ
  pub created_at : Time
  pub room_lines : List RoomLine

pub record Room : Type 0 where
  pub id : ℕ
  pub room_number : String
  pub category : String
  pub floor : Option String
  pub notes : Option String
  pub is_active : Bool

pub data UnparsedEmailStatus : Type 0 where
  pending resolved ignored : UnparsedEmailStatus

pub record UnparsedEmail : Type 0 where
  pub id : ℕ
  pub subject : String
  pub body : String
  pub content_type : String
  pub reason : String
  pub parser_slug : Option String
  pub status : UnparsedEmailStatus
  pub resolved_reservation_id : Option ℕ
  pub created_at : Time
  pub resolved_at : Option Time
