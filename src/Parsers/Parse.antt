-- ===== src/Parsers/Parse.antt =====
-- What a successful `parse` hands to the validation.
use resaprint.Base.{
  ◌≡◌, refl, ◌∙◌, ap, Option, none, some, String, List, All, text_eq, if◌then◌else◌, Option-cases,
  Bool-cases, inl, inr, eq_iff,
}
use resaprint.Models.{ParserFieldMapping}
use resaprint.Database.{Outcome, returned, raised}
use resaprint.EmailIngest.{RoomLineDto, ParsedReservation}
use resaprint.Parsers.Libraries.{Engine, Value, Values, no_values}
use resaprint.Parsers.Generic.{
  ◌and_then◌, read_fields, extract_room_lines, nights_between, with_channel, validated, parse,
}
use resaprint.Parsers.Fields.{IsReadable, read_fields-IsReadable}
use resaprint.Parsers.Last.{or_else, last_found, read_fields-last_found}

and_then-returned :
    {A B : Type 0} (r : Outcome A) (f : A → Outcome B) (b : B)
    → r and_then f ≡ returned b
    → (a : A) × (r ≡ returned a) × (f a ≡ returned b)
and_then-returned (returned a) f b h = (a, refl, h)
and_then-returned (raised e) f b h = absurd (cc)

-- The channel of an email whose fields name none is the profile.
abbrev pub default_value : String → String → Option Value
default_value slug name = if text_eq name "source_channel" then some (Value.text slug) else none

module _ (engine : Engine) where
  with_channel-default :
      (slug : String) (values : Values) (name : String)
      → with_channel engine slug values name ≡ or_else (values name) (default_value slug name)
  with_channel-default slug values name = elim (Bool-cases (text_eq name "source_channel")) [
    | inl t ↦
        let same : name ≡ "source_channel" = (eq_iff name "source_channel").0 t in
        elim (Option-cases (values "source_channel")) [
          | inl e ↦ rw (same, with_channel, e) refl
          | inr (v, e) ↦ rw (same, with_channel, e, e) refl
        ]
    | inr f ↦ elim (Option-cases (values "source_channel")) [
      | inl e ↦ elim (Option-cases (values name)) [
        | inl g ↦ rw (with_channel, e, f, g) refl
        | inr (w, g) ↦ rw (with_channel, e, f, g) refl
      ]
      | inr (v, e) ↦ elim (Option-cases (values name)) [
        | inl g ↦ rw (with_channel, e, f, g) refl
        | inr (w, g) ↦ rw (with_channel, e, f, g) refl
      ]
    ]
  ]

  -- If a profile's `parse` returns a reservation, then every field of the profile was readable, and
  -- the reservation is what the validation makes of a dictionary and of the room lines. The
  -- dictionary holds under every name the value of the last field with that target that has one,
  -- and the profile's slug as the channel if there is none; the lines are those of the room line
  -- pattern, with the nights between the dictionary's two dates as the default.
  pub parse_sound :
      (mapping : ParserFieldMapping) (raw_body : String) (parsed : ParsedReservation)
      → parse engine mapping raw_body ≡ returned parsed
      → (values : Values) × (lines : List RoomLineDto) × (engine.validate values lines
          ≡ returned parsed)
        × All (IsReadable engine raw_body) mapping.fields
        × ((name : String)
            → values name
              ≡ or_else
                  (last_found engine raw_body name mapping.fields)
                  (default_value mapping.profile_slug name))
        × (extract_room_lines engine mapping.room_line_pattern raw_body
              (nights_between engine (values "checkin") (values "checkout"))
            ≡ returned lines)
  unfolding parse
  parse_sound mapping raw_body parsed h =
      let (read, ok, rest) =
        and_then-returned (read_fields engine raw_body mapping.fields no_values)
          (λ values.
            validated engine mapping raw_body (with_channel engine mapping.profile_slug values))
          parsed h in
      let values = with_channel engine mapping.profile_slug read in
      let (lines, extracted, valid) =
        and_then-returned
          (extract_room_lines engine mapping.room_line_pattern raw_body
            (nights_between engine (values "checkin") (values "checkout")))
          (engine.validate values) parsed rest in
      (
        values,
        lines,
        valid,
        ((read_fields-IsReadable engine raw_body mapping.fields no_values).0.0 (read, ok)),
        (λ name.
            with_channel-default mapping.profile_slug read name
            ∙ ap (λ o. or_else o (default_value mapping.profile_slug name))
                (read_fields-last_found engine raw_body mapping.fields no_values read name ok
                  ∙ from_none (last_found engine raw_body name mapping.fields))),
        extracted,
      )
    where
      from_none : (o : Option Value) → or_else o none ≡ o
      from_none none = refl
      from_none (some v) = refl
