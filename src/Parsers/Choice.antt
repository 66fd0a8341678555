-- ===== src/Parsers/Choice.antt =====
-- Which parser reads an email.
use resaprint.Base.{◌≡◌, refl, subst, ◌⊎◌, inl, inr, true, false, some, String, List, [], ◌∷◌, In}
use resaprint.Base.Lemmas.{In-append, In-select}
use resaprint.Models.{ParserFieldMapping}
use resaprint.Database.{Outcome-cases, Db, returned, raised}
use resaprint.EmailIngest.{ReservationParser, register, find}
use resaprint.Parsers.Libraries.{Engine}
use resaprint.Parsers.Generic.{generic_parser}
use resaprint.Parsers.Reference.{
  reference_parser, build_registry, active_mappings, register_all, load_registry,
}

-- The parser that is found accepts the email and is one of the list, and none before it accepts.
find-In :
    (registry : List ReservationParser) (subject body content_type : String)
    (parser : ReservationParser)
    → find registry subject body content_type ≡ returned (some parser)
    → In parser registry × (parser.can_parse subject body content_type ≡ returned true)
unfolding find
find-In [] subject body content_type parser h = absurd (cc)
find-In (p ∷ ps) subject body content_type parser h =
    elim (Outcome-cases (p.can_parse subject body content_type)) [
      | inl (true, e) ↦
          let h' : returned (some p) ≡ returned (some parser) = rw e at h in
          let same : p ≡ parser = cc in
          (inl (cc), subst (λ q. q.can_parse subject body content_type ≡ returned true) same e)
      | inl (false, e) ↦
          let h' : find ps subject body content_type ≡ returned (some parser) = rw e at h in
          let (m, ok) = find-In ps subject body content_type parser h' in (inr m, ok)
      | inr (x, e) ↦ let h' : raised x ≡ returned (some parser) = rw e at h in absurd (cc)
    ]

module _ (engine : Engine) where
  -- A profile's parser.
  abbrev pub IsProfile : List ParserFieldMapping → ReservationParser → Type 0
  IsProfile ms p = (m : ParserFieldMapping) × In m ms × (p ≡ generic_parser engine m)

  register_all-In :
      (ms : List ParserFieldMapping) (registry : List ReservationParser) (p : ReservationParser)
      → In p (register_all engine ms registry)
      → In p registry ⊎ IsProfile ms p
  unfolding register
  register_all-In [] registry p h = inl h
  register_all-In (m ∷ ms) registry p h =
      elim (register_all-In ms (register (generic_parser engine m) registry) p h) [
        | inl k ↦ elim (In-append p registry (generic_parser engine m ∷ []) k) [
          | inl old ↦ inl old
          | inr (inl e) ↦ inr (m, inl refl, e)
          | inr (inr none_left) ↦ elim none_left [ ]
        ]
        | inr (m', k, e) ↦ inr (m', inr k, e)
      ]

  -- The parser that a poll finds for an email accepts it, and is the reference parser or that of a
  -- profile which is stored and active.
  pub load_registry_sound :
      (db : Db) (subject body content_type : String) (parser : ReservationParser)
      → find (load_registry engine db) subject body content_type ≡ returned (some parser)
      → (parser.can_parse subject body content_type ≡ returned true)
        × ((parser ≡ reference_parser engine)
            ⊎ ((m : ParserFieldMapping) × In m db.parser_field_mappings.rows
                × (m.is_active ≡ true)
                × (parser ≡ generic_parser engine m)))
  unfolding load_registry build_registry active_mappings
  load_registry_sound db subject body content_type parser h =
      let (m, ok) = find-In (load_registry engine db) subject body content_type parser h in
      (
        ok,
        elim (register_all-In (active_mappings engine db) (build_registry engine) parser m) [
          | inl (inl e) ↦ inl e
          | inl (inr none_left) ↦ elim none_left [ ]
          | inr (mapping, k, e) ↦
              let (row, active) =
                In-select (λ m. m.is_active) mapping db.parser_field_mappings.rows k in
              inr (mapping, row, active, e)
        ],
      )
