-- ===== src/Parsers/Routes.antt =====
-- The routes on profiles and on their fields. The slug of a profile is unique.
use resaprint.Base.{
  ℕ, suc, Bool, true, false, not, ◌&&◌, Option, none, some, String, List, [], ◌∷◌, ◌++◌, any, get,
  update, delete, text_eq, ◌==◌,
}
use resaprint.Models.{
  ParserFieldMapping, ParserFieldMappingField, ParserMappingKind, ExtractionType, FieldTransform,
  AdminPin,
}
use resaprint.Database.{
  Db, Action, Exception, Outcome, returned, raised, http_error, integrity_error, parser_error, pure,
  gets, or_raise, modify, commit, unless, table_add, table_update, table_delete, ◌>>=◌, ◌>>◌,
}
use resaprint.Audit.{log_row}
use resaprint.Patch.{Patch, patch, patch_option}
use resaprint.EmailIngest.{ParsedReservation, outcome}
use resaprint.Parsers.Libraries.{Engine}
use resaprint.Parsers.Generic.{can_parse, parse}

-- What a POST leaves out is the default, and what a PATCH leaves out is unchanged. Pydantic refuses
-- a null where the type has none.
pub record ParserFieldMappingCreate : Type 0 where
  pub profile_slug : String
  pub match_subject_regex : Patch String
  pub room_line_pattern : Patch String
  pub is_active : Patch Bool

pub record ParserFieldCreate : Type 0 where
  pub label : String
  pub target_field : String
  pub extraction_type : ExtractionType
  pub pattern : String
  pub group_index : Patch ℕ
  pub transform : Patch FieldTransform
  pub is_required : Patch Bool

pub record ParserTestResult : Type 0 where
  pub matched : Bool
  pub parsed : Option ParsedReservation
  pub error : Option String

abbrev pub get_mapping : ℕ → Db → Option ParserFieldMapping
get_mapping k db = get (λ m. m.id) k db.parser_field_mappings.rows

abbrev pub mapping_not_found : Exception
mapping_not_found = http_error 404 "parser profile not found"

-- `_get_mapping_or_404`
abbrev pub get_mapping_or_404 : ℕ → Action ParserFieldMapping
get_mapping_or_404 k = gets (get_mapping k) >>= λ o. or_raise o mapping_not_found

-- `db.get(ParserFieldMappingField, field_id)`, if it is a field of the profile.
abbrev pub get_field : ℕ → ℕ → Db → Option ParserFieldMappingField
get_field mapping_id field_id db = elim (get_mapping mapping_id db) [
  | none ↦ none
  | some m ↦ get (λ f. f.id) field_id m.fields
]

abbrev pub field_not_found : Exception
field_not_found = http_error 404 "field not found"

abbrev pub find_field : ℕ → ℕ → Action ParserFieldMappingField
find_field mapping_id field_id =
    gets (get_field mapping_id field_id) >>= λ o. or_raise o field_not_found

-- A profile other than `k` has the slug.
unfoldable pub slug_taken : Option ℕ → String → Db → Bool
unfolding any
slug_taken k slug db =
    any (λ m. text_eq m.profile_slug slug && not (is_own k m.id)) db.parser_field_mappings.rows
  where
    is_own : Option ℕ → ℕ → Bool
    is_own none j = false
    is_own (some k) j = j == k

abbrev pub list_parsers : Action (List ParserFieldMapping)
list_parsers = gets (λ db. db.parser_field_mappings.rows)

abbrev pub new_mapping : ParserFieldMappingCreate → ℕ → ParserFieldMapping
new_mapping payload id = record {
  id = id;
  profile_slug = payload.profile_slug;
  is_active = patch payload.is_active true;
  match_subject_regex = patch_option payload.match_subject_regex none;
  kind = ParserMappingKind.reservation;
  room_line_pattern = patch_option payload.room_line_pattern none;
  fields = [];
}

abbrev pub insert_mapping : (ℕ → ParserFieldMapping) → Db → Db
insert_mapping row db = record db { parser_field_mappings = table_add row db.parser_field_mappings }

abbrev pub add_mapping : AdminPin → (ℕ → ParserFieldMapping) → Action (Unit {0})
add_mapping admin row = do
  mapping ← gets (λ db. row db.parser_field_mappings.next_id)
  taken ← gets (slug_taken none mapping.profile_slug)
  unless (not taken) integrity_error
  modify (insert_mapping row)
  log_row admin.label "parser.created" "parser_field_mapping" mapping.id
  commit

unfoldable pub create_parser : AdminPin → ParserFieldMappingCreate → Action ParserFieldMapping
unfolding slug_taken
create_parser admin payload = do
  id ← gets (λ db. db.parser_field_mappings.next_id)
  add_mapping admin (new_mapping payload)
  get_mapping_or_404 id

abbrev pub set_mapping : ℕ → (ParserFieldMapping → ParserFieldMapping) → Db → Db
set_mapping k f db = record db {
  parser_field_mappings = table_update (λ m. m.id) k f db.parser_field_mappings;
}

abbrev pub changed_mapping : ParserFieldMappingCreate → ParserFieldMapping → ParserFieldMapping
changed_mapping payload m = record m {
  profile_slug = payload.profile_slug;
  match_subject_regex = patch_option payload.match_subject_regex m.match_subject_regex;
  room_line_pattern = patch_option payload.room_line_pattern m.room_line_pattern;
  is_active = patch payload.is_active m.is_active;
}

unfoldable pub update_parser : AdminPin → ℕ → ParserFieldMappingCreate → Action ParserFieldMapping
unfolding slug_taken update
update_parser admin mapping_id payload = do
  mapping ← get_mapping_or_404 mapping_id
  taken ← gets (slug_taken (some mapping.id) payload.profile_slug)
  unless (not taken) integrity_error
  modify (set_mapping mapping.id (changed_mapping payload))
  log_row admin.label "parser.updated" "parser_field_mapping" mapping.id
  commit
  get_mapping_or_404 mapping_id

abbrev pub remove_mapping : ℕ → Db → Db
remove_mapping k db = record db {
  parser_field_mappings = table_delete (λ m. m.id) k db.parser_field_mappings;
}

unfoldable pub delete_parser : AdminPin → ℕ → Action (Unit {0})
unfolding delete
delete_parser admin mapping_id = do
  mapping ← get_mapping_or_404 mapping_id
  modify (remove_mapping mapping.id)
  log_row admin.label "parser.deleted" "parser_field_mapping" mapping_id
  commit

abbrev pub new_field : ParserFieldCreate → ℕ → ParserFieldMappingField
new_field payload id = record {
  id = id;
  label = payload.label;
  target_field = payload.target_field;
  extraction_type = payload.extraction_type;
  pattern = payload.pattern;
  group_index = patch payload.group_index 1;
  transform = patch payload.transform FieldTransform.none;
  is_required = patch payload.is_required true;
}

abbrev pub append_field : ParserFieldMappingField → ParserFieldMapping → ParserFieldMapping
append_field field m = record m { fields = m.fields ++ field ∷ [] }

-- The field's row is stored with the profile that it refers to.
abbrev pub insert_field : ℕ → (ℕ → ParserFieldMappingField) → Db → Db
insert_field mapping_id row db =
    record (set_mapping mapping_id (append_field (row db.next_mapping_field_id)) db) {
      next_mapping_field_id = suc db.next_mapping_field_id;
    }

unfoldable pub add_parser_field : AdminPin → ℕ → ParserFieldCreate → Action ParserFieldMapping
unfolding update
add_parser_field admin mapping_id payload = do
  mapping ← get_mapping_or_404 mapping_id
  modify (insert_field mapping.id (new_field payload))
  log_row admin.label "parser.field_added" "parser_field_mapping" mapping.id
  commit
  get_mapping_or_404 mapping_id

abbrev pub set_field : ℕ → ℕ → (ParserFieldMappingField → ParserFieldMappingField) → Db → Db
set_field mapping_id field_id f db =
    set_mapping mapping_id (λ m. record m { fields = update (λ f. f.id) field_id f m.fields }) db

abbrev pub changed_field : ParserFieldCreate → ParserFieldMappingField → ParserFieldMappingField
changed_field payload f = record f {
  label = payload.label;
  target_field = payload.target_field;
  extraction_type = payload.extraction_type;
  pattern = payload.pattern;
  group_index = patch payload.group_index f.group_index;
  transform = patch payload.transform f.transform;
  is_required = patch payload.is_required f.is_required;
}

unfoldable pub update_parser_field :
    AdminPin → ℕ → ℕ → ParserFieldCreate → Action ParserFieldMapping
unfolding update
update_parser_field admin mapping_id field_id payload = do
  field ← find_field mapping_id field_id
  modify (set_field mapping_id field.id (changed_field payload))
  log_row admin.label "parser.field_updated" "parser_field_mapping" mapping_id
  commit
  get_mapping_or_404 mapping_id

abbrev pub remove_field : ℕ → ℕ → Db → Db
remove_field mapping_id field_id db =
    set_mapping mapping_id (λ m. record m { fields = delete (λ f. f.id) field_id m.fields }) db

unfoldable pub delete_parser_field : AdminPin → ℕ → ℕ → Action ParserFieldMapping
unfolding update delete
delete_parser_field admin mapping_id field_id = do
  field ← find_field mapping_id field_id
  modify (remove_field mapping_id field.id)
  log_row admin.label "parser.field_deleted" "parser_field_mapping" mapping_id
  commit
  get_mapping_or_404 mapping_id

abbrev pub no_match : ParserTestResult
no_match = record { matched = false; parsed = none; error = none }

-- Only a ParserError is caught.
abbrev pub test_result : Outcome ParsedReservation → Outcome ParserTestResult
test_result (returned parsed) =
    returned (record { matched = true; parsed = some parsed; error = none })
test_result (raised (parser_error message)) =
    returned (record { matched = true; parsed = none; error = some message })
test_result (raised e) = raised e

module _ (engine : Engine) where
  abbrev pub test_mapping :
      (Outcome ParsedReservation → Outcome ParserTestResult)
      → ParserFieldMapping
      → String
      → Bool
      → Action ParserTestResult
  test_mapping result mapping body false = pure no_match
  test_mapping result mapping body true = outcome (result (parse engine mapping body))

  unfoldable pub test_parser : ℕ → String → String → Action ParserTestResult
  unfolding can_parse parse
  test_parser mapping_id subject body = do
    mapping ← get_mapping_or_404 mapping_id
    matched ← outcome (can_parse engine mapping subject)
    test_mapping test_result mapping body matched
