-- ===== src/Parsers/Reference.antt =====
-- `ReferenceBookingComParser`, and the registry of a poll: `load_registry`.
use resaprint.Base.{Option, none, some, String, List, [], ◌∷◌, select}
use resaprint.Models.{Date, Decimal, ParserFieldMapping}
use resaprint.Database.{Outcome, returned, raised, parser_error, other_error, Db}
use resaprint.Text.{strip}
use resaprint.EmailIngest.{ParsedReservation, ReservationParser, register}
use resaprint.Parsers.Libraries.{Engine, Match}
use resaprint.Parsers.Generic.{◌and_then◌, is_match, generic_parser}

-- `match.group(k)` as a text.
abbrev pub text_of_group : Option String → Outcome String
text_of_group none = raised (other_error "'NoneType' object has no attribute 'strip'")
text_of_group (some s) = returned s

-- The matches of the three patterns that are required.
abbrev pub required_matches :
    Option Match → Option Match → Option Match → Outcome (Match × Match × Match)
required_matches (some guest) (some checkin) (some checkout) = returned (guest, checkin, checkout)
required_matches _ _ _ =
    raised (parser_error "reference booking.com parser: missing required fields")

module _ (engine : Engine) where
  abbrev pub group_text : Match → Outcome String
  group_text m = m.group 1 and_then text_of_group

  abbrev pub group_if_matched : Option Match → Outcome (Option String)
  group_if_matched none = returned none
  group_if_matched (some m) = group_text m and_then (λ s. returned (some s))

  abbrev pub decimal_or_raise : Option Decimal → Outcome Decimal
  decimal_or_raise none = raised (other_error "InvalidOperation")
  decimal_or_raise (some d) = returned d

  -- The currency and the total of the price line.
  abbrev pub price_if_matched : Option Match → Outcome (String × Option Decimal)
  price_if_matched none = returned ("EUR", none)
  price_if_matched (some m) = group_text m and_then λ currency.
      m.group 2 and_then text_of_group and_then λ total.
      decimal_or_raise (engine.decimal (engine.replace total "," "")) and_then λ d.
      returned (currency, some d)

  abbrev pub day_of_group : Match → Outcome Date
  day_of_group m = group_text m and_then λ s. engine.strptime s "%d-%m-%Y"

  abbrev pub stripped : Option String → Option String
  stripped none = none
  stripped (some s) = some (strip s)

  abbrev pub booking_com_reservation :
      Option String
      → String
      → Date
      → Date
      → Option String
      → String × Option Decimal
      → ParsedReservation
  booking_com_reservation booking guest checkin checkout room price = record {
    external_ref = booking;
    source_channel = "booking_com";
    guest_name = strip guest;
    guest_email = none;
    guest_phone = none;
    checkin = checkin;
    checkout = checkout;
    room_type = stripped room;
    guests_adults = 1;
    guests_children = 0;
    price_total = price.1;
    price_currency = price.0;
    extra_fields = [];
    room_lines = [];
  }

  abbrev pub read_stay : String → Match × Match × Match → Outcome ParsedReservation
  read_stay raw_body (guest, checkin, checkout) =
      engine.search_multiline "^Booking number:\\s*(\\S+)$" raw_body and_then λ booking.
      engine.search_multiline "^Room type:\\s*(.+)$" raw_body and_then λ room.
      engine.search_multiline "^Total price:\\s*([A-Z]{3})\\s*([\\d.,]+)$" raw_body
      and_then λ price. price_if_matched price and_then λ amount.
          group_if_matched booking and_then λ ref. group_text guest and_then λ name.
          day_of_group checkin and_then λ from. day_of_group checkout and_then λ until.
          group_if_matched room and_then λ kind.
          returned (booking_com_reservation ref name from until kind amount)

  unfoldable pub parse_reference : String → Outcome ParsedReservation
  unfolding strip
  parse_reference raw_body =
      engine.search_multiline "^Guest name:\\s*(.+)$" raw_body and_then λ guest.
      engine.search_multiline "^Check-in:\\s*(\\d{2}-\\d{2}-\\d{4})$" raw_body and_then λ checkin.
      engine.search_multiline "^Check-out:\\s*(\\d{2}-\\d{2}-\\d{4})$" raw_body and_then λ checkout.
      required_matches guest checkin checkout and_then read_stay raw_body

  unfoldable pub reference_parser : ReservationParser
  unfolding parse_reference
  reference_parser = record {
    slug = "booking_com_reference";
    kind = none;
    can_parse = λ raw_subject raw_body content_type.
        engine.search_ignorecase "New booking.*Booking\\.com" raw_subject and_then is_match engine;
    parse = λ raw_subject raw_body content_type. parse_reference raw_body;
  }

  -- `build_registry`
  unfoldable pub build_registry : List ReservationParser
  unfolding reference_parser
  build_registry = reference_parser ∷ []

  -- The profiles that are active, in the order in which the database gives them.
  unfoldable pub active_mappings : Db → List ParserFieldMapping
  unfolding select
  active_mappings db = select (λ m. m.is_active) db.parser_field_mappings.rows

  abbrev pub register_all :
      List ParserFieldMapping → List ReservationParser → List ReservationParser
  register_all [] registry = registry
  register_all (m ∷ ms) registry = register_all ms (register (generic_parser engine m) registry)

  unfoldable pub load_registry : Db → List ReservationParser
  unfolding build_registry active_mappings generic_parser register
  load_registry db = register_all (active_mappings db) build_registry
