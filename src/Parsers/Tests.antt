-- ===== src/Parsers/Tests.antt =====
-- Profiles on small emails. The patterns here are texts that match only themselves.
use resaprint.Base.{
  select, any, get, ◌≡◌, refl, ◌⊎◌, ◌↔◌, true, none, some, String, List, [], ◌∷◌, In, All,
}
use resaprint.Models.{ParserFieldMapping, ParserFieldMappingField, ExtractionType}
use resaprint.Database.{Db, Session, Exception, returned, raised, empty_db, other_error}
use resaprint.Text.{strip, strip_left, strip_right}
use resaprint.EmailIngest.{ParsedReservation, RoomLineDto, find, register}
use resaprint.Parsers.{
  Value, Values, no_values, set_value, read_field, read_fields, extract, apply_transform, parse,
  can_parse, extract_room_lines, lines_of, is_parsed_field, nights_between, load_registry,
  build_registry, reference_parser, active_mappings, generic_parser,
}
use resaprint.Parsers.Samples.{guest_of, toy, guest_field, inn}
use resaprint.Parsers.Fields.{IsReadable, HasCause, read_fields-IsReadable}
use resaprint.Parsers.Last.{or_else, last_found}
use resaprint.Parsers.Parse.{default_value, parse_sound}
use resaprint.Parsers.Choice.{load_registry_sound}
use resaprint.Parsers.Trial.{shown, test_parser_action-agrees}
use resaprint.Parsers.Routes.{test_parser}
use resaprint.Parsers.Pages.{test_parser_action}

parse_run : Unit {0}
unfolding read_fields read_field extract apply_transform is_parsed_field any parse can_parse
    extract_room_lines lines_of strip strip_left strip_right
parse_run = tt

-- XPath's `string(...)` gives a text, of which only the first character is taken.
xpath-string :
    extract toy
      (record guest_field { extraction_type = ExtractionType.xpath; pattern = "string(//b)" })
      "Ana"
    ≡ returned (some "A")
unfolding parse_run
xpath-string = refl

abbrev read_values : Values
read_values = set_value "guest_name" (Value.text "Ana") no_values

read_fields-IsReadable_example :
    (((result : Values) × (read_fields toy "Ana" inn.fields no_values ≡ returned result))
      ↔ All (IsReadable toy "Ana") inn.fields)
    × ((e : Exception)
        → read_fields toy "Ana" inn.fields no_values ≡ raised e
        → (field : ParserFieldMappingField) × In field inn.fields
          × (¬ IsReadable toy "Ana" field)
          × HasCause toy "Ana" field e)
read_fields-IsReadable_example = read_fields-IsReadable toy "Ana" inn.fields no_values

abbrev ana : ParsedReservation
ana = record {
  external_ref = none;
  source_channel = "inn";
  guest_name = "Ana";
  guest_email = none;
  guest_phone = none;
  checkin = 10;
  checkout = 12;
  room_type = none;
  guests_adults = 1;
  guests_children = 0;
  price_total = none;
  price_currency = "EUR";
  extra_fields = [];
  room_lines = [];
}

parse_sound_example :
    (values : Values) × (lines : List RoomLineDto) × (guest_of values lines ≡ returned ana)
    × All (IsReadable toy "Ana") inn.fields
    × ((name : String)
        → values name ≡ or_else (last_found toy "Ana" name inn.fields) (default_value "inn" name))
    × (extract_room_lines toy none "Ana" (nights_between toy (values "checkin") (values "checkout"))
        ≡ returned lines)
unfolding parse_run
parse_sound_example = parse_sound toy inn "Ana" ana refl

abbrev inns : Db
inns = record empty_db { parser_field_mappings = record { rows = inn ∷ []; next_id = 2 } }

abbrev inns_open : Session
inns_open = record { committed = inns; current = inns }

load_registry_sound_example :
    ((generic_parser toy inn).can_parse "Booking" "Ana" "text/plain" ≡ returned true)
    × ((generic_parser toy inn ≡ reference_parser toy)
        ⊎ ((m : ParserFieldMapping) × In m (inn ∷ [])
            × (m.is_active ≡ true)
            × (generic_parser toy inn ≡ generic_parser toy m)))
unfolding parse_run load_registry build_registry reference_parser active_mappings select register
    find generic_parser
load_registry_sound_example =
    load_registry_sound toy inns "Booking" "Ana" "text/plain" (generic_parser toy inn) refl

test_parser_action-agrees_example :
    (test_parser_action toy 1 "Booking" "Eva" inns_open
      ≡ (shown toy (test_parser toy 1 "Booking" "Eva" inns_open).0, inns_open))
    × ((test_parser toy 1 "Booking" "Eva" inns_open).1 ≡ inns_open)
unfolding parse_run get
test_parser_action-agrees_example =
    test_parser_action-agrees toy 1 "Booking" "Eva" inns_open inn true refl refl

-- A profile without a field for the guest passes the loop, and the validation refuses it: the
-- route's trial raises.
abbrev no_fields : Session
no_fields =
    let db = record inns {
      parser_field_mappings = record { rows = record inn { fields = [] } ∷ []; next_id = 2 };
    } in
    record { committed = db; current = db }

trial_raises :
    (test_parser toy 1 "Booking" "Ana" no_fields).0
    ≡ raised (other_error "guest_name: field required")
unfolding parse_run get test_parser
trial_raises = refl
