-- ===== src/Parsers/Fields.antt =====
-- The loop of `parse` over the fields of a profile, against a description by field.
use resaprint.Base.{
  ◌≡◌, refl, ◌⊎◌, inl, inr, ◌↔◌, true, false, none, some, String, List, [], ◌∷◌, In, All,
  Bool-cases,
}
use resaprint.Base.Lemmas.{All-In}
use resaprint.Models.{ParserFieldMappingField}
use resaprint.Database.{Exception, returned, raised, parser_error, Outcome-cases}
use resaprint.Parsers.Libraries.{Engine, Value, Values, set_value}
use resaprint.Parsers.Generic.{
  is_parsed_field, extract, apply_transform, transform_failed, unmapped_field, field_not_found,
  read_field, read_fields,
}

module _ (engine : Engine) (raw_body : String) where
  -- The value of a field: its pattern is found, and its transform takes what was found.
  abbrev pub HasValue : ParserFieldMappingField → Value → Type 0
  HasValue field v =
      (raw : String) × (extract engine field raw_body ≡ returned (some raw))
      × (apply_transform engine raw field.transform ≡ returned v)

  -- The field is not in the email.
  abbrev pub IsAbsent : ParserFieldMappingField → Type 0
  IsAbsent field = extract engine field raw_body ≡ returned none

  -- The field has a known target, and a value, or it is absent and may be.
  abbrev pub IsReadable : ParserFieldMappingField → Type 0
  IsReadable field =
      (is_parsed_field field.target_field ≡ true)
      × (((v : Value) × HasValue field v) ⊎ (IsAbsent field × (field.is_required ≡ false)))

  -- What a turn does: it stores the field's value, skips the field, or raises.
  unfoldable pub Stores : ParserFieldMappingField → Values → Type 0
  Stores field values =
      (v : Value) × HasValue field v
      × (is_parsed_field field.target_field ≡ true)
      × (read_field engine raw_body field values ≡ returned (set_value field.target_field v values))

  unfoldable pub Skips : ParserFieldMappingField → Values → Type 0
  Skips field values =
      IsAbsent field
      × (field.is_required ≡ false)
      × (is_parsed_field field.target_field ≡ true)
      × (read_field engine raw_body field values ≡ returned values)

  -- Raised by the extraction, or a ParserError.
  abbrev pub HasCause : ParserFieldMappingField → Exception → Type 0
  HasCause field e =
      (extract engine field raw_body ≡ raised e) ⊎ ((message : String) × (e ≡ parser_error message))

  unfoldable pub Fails : ParserFieldMappingField → Values → Type 0
  Fails field values =
      (e : Exception) × (¬ IsReadable field)
      × HasCause field e
      × (read_field engine raw_body field values ≡ raised e)

  turn_found :
      (field : ParserFieldMappingField) (values : Values) (raw : String)
      → is_parsed_field field.target_field ≡ true
      → extract engine field raw_body ≡ returned (some raw)
      → Stores field values ⊎ Fails field values
  unfolding read_field Stores Fails
  turn_found field values raw known found =
      elim (Outcome-cases (apply_transform engine raw field.transform)) [
        | inl (v, ok) ↦ inl (v, (raw, found, ok), known, rw (known, found, ok) refl)
        | inr (e, bad) ↦ inr (
          transform_failed engine field raw e,
          (λ (_, r). elim r [
            | inl (v, (raw', found', ok)) ↦
                let same : raw ≡ raw' = cc in
                let clash : apply_transform engine raw field.transform ≡ returned v = rw same ok in
                absurd (cc)
            | inr (absent, _) ↦ absurd (cc)
          ]),
          inr (_, refl),
          rw (known, found, bad) refl,
        )
      ]

  turn_absent :
      (field : ParserFieldMappingField) (values : Values)
      → is_parsed_field field.target_field ≡ true
      → IsAbsent field
      → Skips field values ⊎ Fails field values
  unfolding read_field Skips Fails
  turn_absent field values known absent = elim (Bool-cases field.is_required) [
    | inl required ↦ inr (
      field_not_found engine field,
      (λ (_, r). elim r [
        | inl (v, (raw, found, ok)) ↦ absurd (cc)
        | inr (_, optional) ↦ absurd (cc)
      ]),
      inr (_, refl),
      rw (known, absent, required) refl,
    )
    | inr optional ↦ inl (absent, optional, known, rw (known, absent, optional) refl)
  ]

  pub turn :
      (field : ParserFieldMappingField) (values : Values)
      → Stores field values ⊎ (Skips field values ⊎ Fails field values)
  unfolding read_field Fails
  turn field values = elim (Bool-cases (is_parsed_field field.target_field)) [
    | inl known ↦ elim (Outcome-cases (extract engine field raw_body)) [
      | inl (none, absent) ↦ inr (turn_absent field values known absent)
      | inl (some raw, found) ↦ elim (turn_found field values raw known found) [
        | inl stores ↦ inl stores
        | inr fails ↦ inr (inr fails)
      ]
      | inr (e, bad) ↦ inr (
          inr (
            e,
            (λ (_, r). elim r [
              | inl (v, (raw, found, ok)) ↦ absurd (cc)
              | inr (absent, _) ↦ absurd (cc)
            ]),
            inl bad,
            rw (known, bad) refl,
          ))
    ]
    | inr unknown ↦ inr (
        inr (
          unmapped_field engine field,
          (λ (known, _). absurd (cc)),
          inr (_, refl),
          rw unknown refl,
        ))
  ]

  -- A field that is read leaves the rest of the loop to run on what it gives.
  reads :
      (field : ParserFieldMappingField) (values : Values)
      → IsReadable field
      → (next : Values) × (read_field engine raw_body field values ≡ returned next)
  unfolding Stores Skips Fails
  reads field values readable = elim (turn field values) [
    | inl (v, _, _, e) ↦ (set_value field.target_field v values, e)
    | inr (inl (_, _, _, e)) ↦ (values, e)
    | inr (inr (_, unreadable, _, _)) ↦ absurd (unreadable readable)
  ]

  all_read :
      (fields : List ParserFieldMappingField) (values : Values)
      → All IsReadable fields
      → (result : Values) × (read_fields engine raw_body fields values ≡ returned result)
  unfolding read_fields
  all_read [] values readable = (values, refl)
  all_read (field ∷ fields) values readable =
      let (next, e) = reads field values readable.0 in
      let (result, h) = all_read fields next readable.1 in (result, rw e h)

  first_failure :
      (fields : List ParserFieldMappingField) (values : Values)
      → All IsReadable fields
        ⊎ ((field : ParserFieldMappingField) × In field fields
            × (¬ IsReadable field)
            × (e : Exception) × HasCause field e
            × (read_fields engine raw_body fields values ≡ raised e))
  unfolding read_fields Stores Skips Fails
  first_failure [] values = inl tt
  first_failure (field ∷ fields) values = elim (turn field values) [
    | inl (v, has_value, known, e) ↦
        elim (first_failure fields (set_value field.target_field v values)) [
          | inl all ↦ inl ((known, inl (v, has_value)), all)
          | inr (bad, m, unreadable, x, cause, h) ↦ inr (bad, inr m, unreadable, x, cause, rw e h)
        ]
    | inr (inl (absent, optional, known, e)) ↦ elim (first_failure fields values) [
      | inl all ↦ inl ((known, inr (absent, optional)), all)
      | inr (bad, m, unreadable, x, cause, h) ↦ inr (bad, inr m, unreadable, x, cause, rw e h)
    ]
    | inr (inr (x, unreadable, cause, e)) ↦ inr (field, inl refl, unreadable, x, cause, rw e refl)
  ]

  -- Reading the fields of a profile from a body gives a dictionary exactly if every field has a
  -- known target and either a value or leave to be absent; if it raises, then some field cannot be
  -- read, and the exception is a ParserError or the one that the extraction of that field raised.
  pub read_fields-IsReadable :
      (fields : List ParserFieldMappingField) (values : Values)
      → (((result : Values) × (read_fields engine raw_body fields values ≡ returned result))
          ↔ All IsReadable fields)
        × ((e : Exception)
            → read_fields engine raw_body fields values ≡ raised e
            → (field : ParserFieldMappingField) × In field fields
              × (¬ IsReadable field)
              × HasCause field e)
  read_fields-IsReadable fields values = elim (first_failure fields values) [
    | inl all ↦
        let (result, h) = all_read fields values all in
        ((λ _. all, λ _. (result, h)), λ e bad. absurd (cc))
    | inr (field, m, unreadable, x, cause, h) ↦ (
      (
        λ (result, ok). absurd (cc),
        λ all. absurd (unreadable (All-In IsReadable fields field all m)),
      ),
      λ e bad. let same : x ≡ e = cc in (field, m, unreadable, rw (← same) cause),
    )
  ]
