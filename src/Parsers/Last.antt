-- ===== src/Parsers/Last.antt =====
-- The dictionary that `parse` fills, against a search from the last field on.
use resaprint.Base.{
  ◌≡◌, refl, ◌∙◌, inl, inr, Bool, true, false, Option, none, some, String, List, [], ◌∷◌, text_eq,
  if◌then◌else◌,
}
use resaprint.Models.{ParserFieldMappingField}
use resaprint.Database.{Outcome, returned, raised}
use resaprint.Parsers.Libraries.{Engine, Value, Values, set_value}
use resaprint.Parsers.Generic.{extract, apply_transform, read_fields}
use resaprint.Parsers.Fields.{turn, Stores, Skips, Fails}

abbrev value_or_none : Outcome Value → Option Value
value_or_none (returned v) = some v
value_or_none (raised e) = none

abbrev pub or_else : Option Value → Option Value → Option Value
or_else none other = other
or_else (some v) other = some v

module _ (engine : Engine) (raw_body : String) where
  abbrev value_if_found : ParserFieldMappingField → Outcome (Option String) → Option Value
  value_if_found field (returned (some raw)) =
      value_or_none (apply_transform engine raw field.transform)
  value_if_found field (returned none) = none
  value_if_found field (raised e) = none

  -- The value of one field, and of the last field of a target that has one.
  abbrev pub found_value : ParserFieldMappingField → Option Value
  found_value field = value_if_found field (extract engine field raw_body)

  abbrev pub last_found : String → List ParserFieldMappingField → Option Value
  last_found name [] = none
  last_found name (field ∷ fields) =
      or_else (last_found name fields)
        (if text_eq name field.target_field then found_value field else none)

  -- If reading the fields of a profile from a body gives a dictionary, then under every name it
  -- holds the value of the last field with that target that has one, and where there is no such
  -- field, what was there before.
  pub read_fields-last_found :
      (fields : List ParserFieldMappingField) (values result : Values) (name : String)
      → read_fields engine raw_body fields values ≡ returned result
      → result name ≡ or_else (last_found name fields) (values name)
  unfolding read_fields Stores Skips Fails
  read_fields-last_found [] values result name h =
      let same : values ≡ result = cc in rw (← same) refl
  read_fields-last_found (field ∷ fields) values result name h =
      elim (turn engine raw_body field values) [
        | inl (v, (raw, found, ok), known, e) ↦
            let h' : read_fields engine raw_body fields (set_value field.target_field v values)
                ≡ returned result =
              rw e at h in
            read_fields-last_found fields (set_value field.target_field v values) result name h'
            ∙ stored (last_found name fields) (text_eq name field.target_field) v (values name)
                (found_value field) (rw (found, ok) refl)
        | inr (inl (absent, _, _, e)) ↦
            let h' : read_fields engine raw_body fields values ≡ returned result = rw e at h in
            read_fields-last_found fields values result name h'
            ∙ skipped (last_found name fields) (text_eq name field.target_field) (values name)
                (found_value field) (rw absent refl)
        | inr (inr (x, _, _, e)) ↦ let h' : raised x ≡ returned result = rw e at h in absurd (cc)
      ]
    where
      stored :
          (later : Option Value) (hit : Bool) (v : Value) (old found : Option Value)
          → found ≡ some v
          → or_else later (if hit then some v else old)
            ≡ or_else (or_else later (if hit then found else none)) old
      stored (some w) hit v old found e = refl
      stored none true v old found e = rw e refl
      stored none false v old found e = refl

      skipped :
          (later : Option Value) (hit : Bool) (old found : Option Value)
          → found ≡ none
          → or_else later old ≡ or_else (or_else later (if hit then found else none)) old
      skipped (some w) hit old found e = refl
      skipped none true old found e = rw e refl
      skipped none false old found e = refl
