-- ===== src/Parsers/Generic.antt =====
-- `GenericFieldMappingParser`.
use Prim.Native.String.{◌++◌ as append_text}
use resaprint.Base.{
  ℕ, ◌-◌, Bool, true, false, Option, none, some, String, List, [], ◌∷◌, ◌++◌, any, text_eq, truthy,
  if◌then◌else◌,
}
use resaprint.Models.{
  Date, Decimal, ExtractionType, FieldTransform, ParserFieldMappingField, ParserFieldMapping,
}
use resaprint.Database.{Exception, Outcome, returned, raised, parser_error, other_error}
use resaprint.Text.{strip}
use resaprint.EmailIngest.{RoomLineDto, ParsedReservation, ReservationParser}
use resaprint.Parsers.Libraries.{
  Engine, Match, Node, XPathResult, Value, Values, no_values, set_value, nodes, string, scalar,
}

-- A chain of calls that may raise.
infixl 5 ◌and_then◌
abbrev pub ◌and_then◌ : {A B : Type 0} → Outcome A → (A → Outcome B) → Outcome B
returned a and_then f = f a
raised e and_then f = raised e

-- PARSED_RESERVATION_FIELDS
abbrev pub parsed_reservation_fields : List String
parsed_reservation_fields =
    "external_ref" ∷ "source_channel" ∷ "guest_name" ∷ "guest_email" ∷ "guest_phone" ∷ "checkin"
    ∷ "checkout" ∷ "room_type" ∷ "guests_adults" ∷ "guests_children" ∷ "price_total"
    ∷ "price_currency" ∷ []

unfoldable pub is_parsed_field : String → Bool
unfolding any
is_parsed_field name = any (λ f. text_eq f name) parsed_reservation_fields

abbrev pub transform_value : FieldTransform → String
transform_value FieldTransform.none = "none"
transform_value FieldTransform.strip = "strip"
transform_value FieldTransform.parse_date_iso = "parse_date_iso"
transform_value FieldTransform.parse_date_eu = "parse_date_eu"
transform_value FieldTransform.parse_date_long = "parse_date_long"
transform_value FieldTransform.parse_decimal = "parse_decimal"
transform_value FieldTransform.upper = "upper"
transform_value FieldTransform.lower = "lower"

module _ (engine : Engine) where
  abbrev pub day_value : Outcome Date → Outcome Value
  day_value (returned d) = returned (Value.day d)
  day_value (raised e) = raised e

  abbrev pub decimal_value : String → Option Decimal → Outcome Value
  decimal_value value none =
      raised (parser_error (append_text "could not parse decimal from " (engine.repr value)))
  decimal_value value (some d) = returned (Value.amount d)

  -- `_apply_transform`; what it raises is a `ValueError`.
  unfoldable pub apply_transform : String → FieldTransform → Outcome Value
  unfolding strip
  apply_transform value FieldTransform.none = returned (Value.text value)
  apply_transform value FieldTransform.strip = returned (Value.text (strip value))
  apply_transform value FieldTransform.upper = returned (Value.text (engine.upper value))
  apply_transform value FieldTransform.lower = returned (Value.text (engine.lower value))
  apply_transform value FieldTransform.parse_date_iso =
      day_value (engine.strptime (strip value) "%Y-%m-%d")
  apply_transform value FieldTransform.parse_date_eu =
      day_value (engine.strptime (strip value) "%d-%m-%Y")
  apply_transform value FieldTransform.parse_date_long =
      day_value (engine.strptime (strip value) "%A, %B %d, %Y")
  apply_transform value FieldTransform.parse_decimal =
      decimal_value value
        (engine.decimal (engine.replace (engine.replace (strip value) "," "") " " ""))

  abbrev pub matched_group : ℕ → Option Match → Outcome (Option String)
  matched_group k none = returned none
  matched_group k (some m) = m.group k

  -- `first.text or ""`
  abbrev pub text_or_empty : Option String → String
  text_or_empty none = ""
  text_or_empty (some s) = s

  abbrev pub node_text : Node → String
  node_text node = elim node.text [ none ↦ strip node.shown | some t ↦ strip (text_or_empty t) ]

  -- `if not results`, and then `results[0]`: of a text that is its first character.
  abbrev pub first_result : Option XPathResult → Outcome (Option String)
  first_result none = returned none
  first_result (some (nodes [])) = returned none
  first_result (some (nodes (node ∷ rest))) = returned (some (node_text node))
  first_result (some (string String.[])) = returned none
  first_result (some (string (String.◌∷◌ c s))) = returned (some (strip (String.◌∷◌ c String.[])))
  first_result (some (scalar false)) = returned none
  first_result (some (scalar true)) = raised (other_error "object is not subscriptable")

  -- `_extract`
  unfoldable pub extract : ParserFieldMappingField → String → Outcome (Option String)
  unfolding strip
  extract field raw_body = elim field.extraction_type [
    | ExtractionType.regex ↦
        engine.search_multiline field.pattern raw_body and_then matched_group field.group_index
    | ExtractionType.xpath ↦ engine.xpath raw_body field.pattern and_then first_result
  ]

  abbrev pub unmapped_field : ParserFieldMappingField → Exception
  unmapped_field field = parser_error (append_text "unmapped target field: " field.target_field)

  abbrev pub field_not_found : ParserFieldMappingField → Exception
  field_not_found field =
      parser_error
        (append_text "required field " (append_text (engine.repr field.target_field) " not found"))

  abbrev pub transform_failed : ParserFieldMappingField → String → Exception → Exception
  transform_failed field raw e = parser_error (
      append_text "field " (
        append_text (engine.repr field.label) (
          append_text " (" (
            append_text field.target_field (
              append_text "): could not apply transform " (
                append_text (engine.repr (transform_value field.transform)) (
                  append_text " to "
                    (append_text (engine.repr raw) (append_text ": " (engine.text_of e))))))))))

  abbrev pub stored : ParserFieldMappingField → String → Values → Outcome Value → Outcome Values
  stored field raw values (returned v) = returned (set_value field.target_field v values)
  stored field raw values (raised e) = raised (transform_failed field raw e)

  abbrev pub store_found : ParserFieldMappingField → Values → Option String → Outcome Values
  store_found field values none =
      if field.is_required then raised (field_not_found field) else returned values
  store_found field values (some raw) =
      stored field raw values (apply_transform raw field.transform)

  -- One turn of the loop of `parse`.
  unfoldable pub read_field : String → ParserFieldMappingField → Values → Outcome Values
  unfolding extract apply_transform is_parsed_field
  read_field raw_body field values =
      if is_parsed_field field.target_field
      then extract field raw_body and_then store_found field values
      else raised (unmapped_field field)

  unfoldable pub read_fields : String → List ParserFieldMappingField → Values → Outcome Values
  unfolding read_field
  read_fields raw_body [] values = returned values
  read_fields raw_body (field ∷ fields) values =
      read_field raw_body field values and_then read_fields raw_body fields

  -- `values.setdefault("source_channel", profile_slug)`
  abbrev pub with_channel : String → Values → Values
  with_channel slug values = elim (values "source_channel") [
    | none ↦ set_value "source_channel" (Value.text slug) values
    | some _ ↦ values
  ]

  -- `max((checkout - checkin).days, 0)`, where both are dates.
  abbrev pub nights_between : Option Value → Option Value → Option ℕ
  nights_between (some (Value.day checkin)) (some (Value.day checkout)) = some (checkout - checkin)
  nights_between _ _ = none

  -- `int(raw_value.strip())`, and a decimal: a group that does not parse is left out.
  abbrev pub nights_of : Option String → Option ℕ
  nights_of none = none
  nights_of (some raw) = engine.int (strip raw)

  abbrev pub amount_or_none : Outcome Value → Option Decimal
  amount_or_none (returned (Value.amount d)) = some d
  amount_or_none _ = none

  abbrev pub price_of : Option String → Option Decimal
  price_of none = none
  price_of (some raw) = amount_or_none (apply_transform raw FieldTransform.parse_decimal)

  -- `if "nights" not in parsed and default_nights is not None`
  abbrev pub or_default : Option ℕ → Option ℕ → Option ℕ
  or_default none default_nights = default_nights
  or_default (some n) default_nights = some n

  abbrev pub line_of : Option ℕ → (String → Option String) → String → RoomLineDto
  line_of default_nights groups room_type = record {
    room_type = strip room_type;
    nights = or_default (nights_of (groups "nights")) default_nights;
    price_per_night = price_of (groups "price_per_night");
    price_total = price_of (groups "price_total");
  }

  -- One turn of the loop over the matches: the line that it appends, if any.
  abbrev pub line_from :
      Option ℕ → (String → Option String) → Option String → Outcome (List RoomLineDto)
  line_from default_nights groups none = returned []
  line_from default_nights groups (some room_type) =
      if truthy room_type
      then engine.validate_line (line_of default_nights groups room_type)
        and_then (λ line. returned (line ∷ []))
      else returned []

  unfoldable pub lines_of : Option ℕ → List (String → Option String) → Outcome (List RoomLineDto)
  unfolding apply_transform strip
  lines_of default_nights [] = returned []
  lines_of default_nights (groups ∷ rest) =
      line_from default_nights groups (groups "room_type")
      and_then (λ line. lines_of default_nights rest and_then (λ lines. returned (line ++ lines)))

  -- `_extract_room_lines`
  unfoldable pub extract_room_lines : Option String → String → Option ℕ → Outcome (List RoomLineDto)
  unfolding lines_of
  extract_room_lines none raw_body default_nights = returned []
  extract_room_lines (some pattern) raw_body default_nights =
      if truthy pattern
      then engine.find_all pattern raw_body and_then lines_of default_nights
      else returned []

  abbrev pub validated : ParserFieldMapping → String → Values → Outcome ParsedReservation
  validated mapping raw_body values =
      extract_room_lines mapping.room_line_pattern raw_body
        (nights_between (values "checkin") (values "checkout"))
      and_then engine.validate values

  unfoldable pub parse : ParserFieldMapping → String → Outcome ParsedReservation
  unfolding read_fields extract_room_lines
  parse mapping raw_body =
      read_fields raw_body mapping.fields no_values
      and_then (λ values. validated mapping raw_body (with_channel mapping.profile_slug values))

  abbrev pub is_match : Option Match → Outcome Bool
  is_match none = returned false
  is_match (some m) = returned true

  unfoldable pub can_parse : ParserFieldMapping → String → Outcome Bool
  can_parse mapping raw_subject = elim mapping.match_subject_regex [
    | none ↦ returned true
    | some pattern ↦
        if truthy pattern
        then engine.search pattern raw_subject and_then is_match
        else returned true
  ]

  unfoldable pub generic_parser : ParserFieldMapping → ReservationParser
  unfolding can_parse parse
  generic_parser mapping = record {
    slug = mapping.profile_slug;
    kind = some mapping.kind;
    can_parse = λ raw_subject raw_body content_type. can_parse mapping raw_subject;
    parse = λ raw_subject raw_body content_type. parse mapping raw_body;
  }
