-- ===== src/Models/Mapping.antt =====
-- backend/app/models/parser_mapping.py.
use resaprint.Base.{ℕ, Bool, String, Option, List}

pub data ExtractionType : Type 0 where
  regex xpath : ExtractionType

pub data ParserMappingKind : Type 0 where
  reservation cancellation : ParserMappingKind

pub data FieldTransform : Type 0 where
  none strip parse_date_iso parse_date_eu parse_date_long parse_decimal upper lower : FieldTransform

pub record ParserFieldMappingField : Type 0 where
  pub id : ℕ
  pub label : String
  pub target_field : String
  pub extraction_type : ExtractionType
  pub pattern : String
  pub group_index : ℕ
  pub transform : FieldTransform
  pub is_required : Bool

pub record ParserFieldMapping : Type 0 where
  pub id : ℕ
  pub profile_slug : String
  pub is_active : Bool
  pub match_subject_regex : Option String
  pub kind : ParserMappingKind
  pub room_line_pattern : Option String
  pub fields : List ParserFieldMappingField
