-- ===== src/Parsers/Samples.antt =====
-- A profile with two fields. The patterns are texts that match only themselves.
use resaprint.Base.{true, false, Option, none, some, String, List, [], text_eq, if◌then◌else◌, ◌∷◌}
use resaprint.Models.{
  ParserFieldMapping, ParserFieldMappingField, ParserMappingKind, ExtractionType, FieldTransform,
}
use resaprint.Database.{Outcome, returned, raised, other_error}
use resaprint.EmailIngest.{ParsedReservation, RoomLineDto}
use resaprint.Parsers.Libraries.{Engine, Match, Value, Values, string}

abbrev pub whole : String → String → Outcome (Option Match)
whole pattern text =
    returned
      (if text_eq pattern text then some (record { group = λ k. returned (some text) }) else none)

abbrev pub text_under : Values → String → String
text_under values name = elim (values name) [
  | some (Value.text t) ↦ t
  | some (Value.day d) ↦ ""
  | some (Value.amount d) ↦ ""
  | none ↦ ""
]

abbrev pub guest_of : Values → List RoomLineDto → Outcome ParsedReservation
guest_of values lines =
    if text_eq (text_under values "guest_name") ""
    then raised (other_error "guest_name: field required")
    else returned (record {
      external_ref = none;
      source_channel = text_under values "source_channel";
      guest_name = text_under values "guest_name";
      guest_email = none;
      guest_phone = none;
      checkin = 10;
      checkout = 12;
      room_type = none;
      guests_adults = 1;
      guests_children = 0;
      price_total = none;
      price_currency = "EUR";
      extra_fields = [];
      room_lines = lines;
    })

abbrev pub toy : Engine
toy = record {
  search = whole;
  search_ignorecase = whole;
  search_multiline = whole;
  find_all = λ pattern text. returned [];
  xpath = λ body pattern. returned (some (string body));
  strptime = λ text format. raised (other_error "time data does not match format");
  decimal = λ text. none;
  int = λ text. none;
  upper = λ text. text;
  lower = λ text. text;
  replace = λ text old new. text;
  repr = λ text. text;
  text_of = λ e. "error";
  validate_line = λ line. returned line;
  validate = guest_of;
}

abbrev pub guest_field : ParserFieldMappingField
guest_field = record {
  id = 1;
  label = "Guest";
  target_field = "guest_name";
  extraction_type = ExtractionType.regex;
  pattern = "Ana";
  group_index = 1;
  transform = FieldTransform.none;
  is_required = true;
}

abbrev pub phone_field : ParserFieldMappingField
phone_field = record guest_field {
  id = 2;
  label = "Phone";
  target_field = "guest_phone";
  pattern = "123";
  is_required = false;
}

abbrev pub inn : ParserFieldMapping
inn = record {
  id = 1;
  profile_slug = "inn";
  is_active = true;
  match_subject_regex = some "Booking";
  kind = ParserMappingKind.reservation;
  room_line_pattern = none;
  fields = guest_field ∷ phone_field ∷ [];
}
