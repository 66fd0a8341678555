-- ===== src/Parsers/Pages.antt =====
-- The form actions on profiles. Each ends with a page that shows the profile or the list.
use resaprint.Base.{
  ℕ, true, Option, none, some, String, List, [], ◌∷◌, or_none, text_eq, update, delete,
  if◌then◌else◌, is_some,
}
use resaprint.Models.{
  ParserFieldMapping, ParserFieldMappingField, ParserMappingKind, AdminPin, Json,
}
use resaprint.Database.{
  Action, Outcome, returned, raised, integrity_error, parser_error, other_error, pure, gets,
  or_raise, modify, commit, unless, ◌>>=◌, ◌>>◌,
}
use resaprint.Audit.{log, log_row}
use resaprint.EmailIngest.{ParsedReservation, outcome}
use resaprint.Parsers.Libraries.{Engine}
use resaprint.Parsers.Generic.{can_parse, parse}
use resaprint.Parsers.Routes.{
  ParserFieldCreate, ParserTestResult, get_mapping, get_field, slug_taken, add_mapping, set_mapping,
  insert_field, new_field, set_field, changed_field, remove_field, test_mapping, list_parsers,
}

abbrev pub kind_of : String → Option ParserMappingKind
kind_of kind =
    if text_eq kind "reservation"
    then some ParserMappingKind.reservation
    else if text_eq kind "cancellation"
    then some ParserMappingKind.cancellation
    else none

abbrev pub kind_or_default : Option ParserMappingKind → ParserMappingKind
kind_or_default none = ParserMappingKind.reservation
kind_or_default (some kind) = kind

abbrev pub form_mapping : String → String → String → ℕ → ParserFieldMapping
form_mapping profile_slug match_subject_regex kind id = record {
  id = id;
  profile_slug = profile_slug;
  is_active = true;
  match_subject_regex = or_none match_subject_regex;
  kind = kind_or_default (kind_of kind);
  room_line_pattern = none;
  fields = [];
}

unfoldable pub create_parser_action :
    AdminPin → String → String → String → Action (List ParserFieldMapping)
unfolding slug_taken
create_parser_action admin profile_slug match_subject_regex kind =
    add_mapping admin (form_mapping profile_slug match_subject_regex kind) >> list_parsers

-- `_mapping_or_404` of routers/admin_ui.py: `scalar_one` raises where there is no row.
abbrev pub mapping_or_404 : ℕ → Action ParserFieldMapping
mapping_or_404 k = gets (get_mapping k) >>= λ o. or_raise o (other_error "NoResultFound")

abbrev pub set_kind :
    AdminPin → ParserFieldMapping → String → Option ParserMappingKind → Action (Unit {0})
set_kind admin mapping kind none = pure tt
set_kind admin mapping kind (some k) = do
  modify (set_mapping mapping.id (λ m. record m { kind = k }))
  log admin.label "parser.kind_updated" (some "parser_field_mapping") (some mapping.id)
      (some (("kind", Json.text kind) ∷ []))
  commit

unfoldable pub update_parser_kind_action : AdminPin → ℕ → String → Action ParserFieldMapping
unfolding update
update_parser_kind_action admin mapping_id kind = do
  mapping ← mapping_or_404 mapping_id
  set_kind admin mapping kind (kind_of kind)
  mapping_or_404 mapping_id

unfoldable pub update_room_line_pattern_action : AdminPin → ℕ → String → Action ParserFieldMapping
unfolding update
update_room_line_pattern_action admin mapping_id room_line_pattern = do
  mapping ← mapping_or_404 mapping_id
  modify (set_mapping mapping.id (λ m. record m { room_line_pattern = or_none room_line_pattern }))
  log_row admin.label "parser.room_line_pattern_updated" "parser_field_mapping" mapping.id
  commit
  mapping_or_404 mapping_id

-- A field with no profile violates the foreign key.
unfoldable pub add_parser_field_action :
    AdminPin → ℕ → ParserFieldCreate → Action ParserFieldMapping
unfolding update
add_parser_field_action admin mapping_id form = do
  mapping ← gets (get_mapping mapping_id)
  unless (is_some mapping) integrity_error
  modify (insert_field mapping_id (new_field form))
  log_row admin.label "parser.field_added" "parser_field_mapping" mapping_id
  commit
  mapping_or_404 mapping_id

abbrev pub field_id_detail : ParserFieldMappingField → List (String × Json)
field_id_detail field = ("field_id", Json.number field.id) ∷ []

abbrev pub change_field_if :
    AdminPin → ℕ → ParserFieldCreate → Option ParserFieldMappingField → Action (Unit {0})
change_field_if admin mapping_id form none = pure tt
change_field_if admin mapping_id form (some field) = do
  modify (set_field mapping_id field.id (changed_field form))
  log admin.label "parser.field_updated" (some "parser_field_mapping") (some mapping_id)
      (some (field_id_detail field))
  commit

-- The form has a value for every column.
unfoldable pub update_parser_field_action :
    AdminPin → ℕ → ℕ → ParserFieldCreate → Action ParserFieldMapping
unfolding update
update_parser_field_action admin mapping_id field_id form = do
  found ← gets (get_field mapping_id field_id)
  change_field_if admin mapping_id form found
  mapping_or_404 mapping_id

abbrev pub field_detail : ParserFieldMappingField → List (String × Json)
field_detail field =
    ("field_id", Json.number field.id)
    ∷ ("label", Json.text field.label)
    ∷ ("target_field", Json.text field.target_field)
    ∷ []

abbrev pub delete_field_if : AdminPin → ℕ → Option ParserFieldMappingField → Action (Unit {0})
delete_field_if admin mapping_id none = pure tt
delete_field_if admin mapping_id (some field) = do
  log admin.label "parser.field_deleted" (some "parser_field_mapping") (some mapping_id)
      (some (field_detail field))
  modify (remove_field mapping_id field.id)
  commit

unfoldable pub delete_parser_field_action : AdminPin → ℕ → ℕ → Action ParserFieldMapping
unfolding update delete
delete_parser_field_action admin mapping_id field_id = do
  found ← gets (get_field mapping_id field_id)
  delete_field_if admin mapping_id found
  mapping_or_404 mapping_id

module _ (engine : Engine) where
  -- Every exception of `parse` is shown.
  abbrev pub shown_result : Outcome ParsedReservation → Outcome ParserTestResult
  shown_result (returned parsed) =
      returned (record { matched = true; parsed = some parsed; error = none })
  shown_result (raised (parser_error message)) =
      returned (record { matched = true; parsed = none; error = some message })
  shown_result (raised e) =
      returned (record { matched = true; parsed = none; error = some (engine.text_of e) })

  unfoldable pub test_parser_action : ℕ → String → String → Action ParserTestResult
  unfolding can_parse parse
  test_parser_action mapping_id subject body = do
    mapping ← mapping_or_404 mapping_id
    matched ← outcome (can_parse engine mapping subject)
    test_mapping engine shown_result mapping body matched
