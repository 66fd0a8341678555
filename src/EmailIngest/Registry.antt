-- ===== src/EmailIngest/Registry.antt =====
-- The parsers in their order, and what they return.
use resaprint.Base.{ℕ, Bool, true, false, Option, none, some, String, List, [], ◌∷◌, ◌++◌}
use resaprint.Models.{Date, Decimal, Json, ParserMappingKind}
use resaprint.Database.{Outcome, returned, raised}

pub record RoomLineDto : Type 0 where
  pub room_type : String
  pub nights : Option ℕ
  pub price_per_night : Option Decimal
  pub price_total : Option Decimal

pub record ParsedReservation : Type 0 where
  pub external_ref : Option String
  pub source_channel : String
  pub guest_name : String
  pub guest_email : Option String
  pub guest_phone : Option String
  pub checkin : Date
  pub checkout : Date
  pub room_type : Option String
  pub guests_adults : ℕ
  pub guests_children : ℕ
  pub price_total : Option Decimal
  pub price_currency : String
  pub extra_fields : List (String × Json)
  pub room_lines : List RoomLineDto

-- `kind` is missing on the reference parser.
pub record ReservationParser : Type 0 where
  pub slug : String
  pub kind : Option ParserMappingKind
  pub can_parse : String → String → String → Outcome Bool
  pub parse : String → String → String → Outcome ParsedReservation

-- `getattr(parser, "kind", "reservation") == "cancellation"`
abbrev pub is_cancellation : Option ParserMappingKind → Bool
is_cancellation none = false
is_cancellation (some ParserMappingKind.reservation) = false
is_cancellation (some ParserMappingKind.cancellation) = true

unfoldable pub register : ReservationParser → List ReservationParser → List ReservationParser
register parser registry = registry ++ parser ∷ []

-- `can_parse` may raise; then so does `find`.
unfoldable pub find :
    List ReservationParser → String → String → String → Outcome (Option ReservationParser)
find [] subject body content_type = returned none
find (p ∷ ps) subject body content_type = elim (p.can_parse subject body content_type) [
  | raised e ↦ raised e
  | returned true ↦ returned (some p)
  | returned false ↦ find ps subject body content_type
]
