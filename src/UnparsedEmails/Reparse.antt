-- ===== src/UnparsedEmails/Reparse.antt =====
-- What becomes of an unparsed email that is parsed again.
use resaprint.Base.{
  ◌≡◌, refl, sym, ◌∙◌, ap, subst, ◌⊎◌, inl, inr, Bool, true, false, Option, none, some, String,
  List, In, get,
}
use resaprint.Base.Lemmas.{get-update}
use resaprint.Models.{UnparsedEmail, Reservation, AdminPin, Time}
use resaprint.Database.{
  Db, Session, Exception, Outcome, returned, raised, parser_error, pure, request, ◌>>=◌, >>=-step,
  >>=-raised, try_except-returned, try_except-raised, Outcome-cases,
}
use resaprint.Config.{Env}
use resaprint.EmailIngest.{
  Services, ReservationParser, is_cancellation, find, ingest, reason_of, maybe_auto_print,
}
use resaprint.EmailIngest.Marked.{Returns-maybe_auto_print}
use resaprint.Parsers.{Engine, load_registry}
use resaprint.UnparsedEmails.Actions.{
  get_unparsed, as_fetched, with_reason, resolved_by, reparse_failed, mark_resolved, resolve,
  reparse_found, reparse_unparsed_email, reparse_page, reparse_unparsed_email_action,
}
use resaprint.UnparsedEmails.Stored.{ingest-Stores}
use resaprint.UnparsedEmails.Uncommitted.{ingest-Uncommitted}
use resaprint.UnparsedEmails.Frames.{emails, emails-same, ingest-Leaves, maybe_auto_print-Leaves}

module _ (env : Env) (services : Services) (engine : Engine) (now : Time) (admin : AdminPin)
    (email : UnparsedEmail) where
  -- The parser that the registry of a state finds.
  abbrev pub found_parser : Db → Outcome (Option ReservationParser)
  found_parser db = find (load_registry engine db) email.subject email.body email.content_type

  -- What the parser makes of the email, in a session that begins with the state.
  abbrev pub ingested : ReservationParser → Db → Outcome Reservation
  ingested parser db =
      (ingest env services now parser (as_fetched email) (is_cancellation parser.kind)
        (record { committed = db; current = db })).0

  -- Why the email cannot be stored: a parser's test raises, there is no parser, or the parser or the
  -- database raises.
  abbrev pub Fails : Db → Exception → Option String → Type 0
  Fails db e slug =
      ((found_parser db ≡ raised e) × (slug ≡ none))
      ⊎ (((found_parser db ≡ returned none)
            × (e ≡ parser_error "no matching parser")
            × (slug ≡ none))
          ⊎ ((parser : ReservationParser) × (found_parser db ≡ returned (some parser))
              × (ingested parser db ≡ raised e)
              × (slug ≡ some parser.slug)))

  -- The email is kept with the reason, and the reservations are those of the state `db`.
  abbrev pub IsSetAside : Db → Db → Type 0
  IsSetAside db db' =
      (e : Exception) × (slug : Option String) × Fails db e slug
      × (get_unparsed email.id db' ≡ some (with_reason (reason_of env services now e) slug email))
      × (db'.reservations ≡ db.reservations)

  -- The email is resolved by the reservation that its parser gives, which is stored.
  abbrev pub IsResolved : Db → Db → Type 0
  IsResolved db db' =
      (parser : ReservationParser) × (r : Reservation) × (found_parser db ≡ returned (some parser))
      × (ingested parser db ≡ returned r)
      × In r db'.reservations.rows
      × (get_unparsed email.id db' ≡ some (resolved_by now r.id email))

  abbrev Ends : Db → Outcome (Unit {0}) × Session → Type 0
  Ends db (r, s) = (r ≡ returned tt) × (IsSetAside db s.current ⊎ IsResolved db s.current)

  failed :
      (slug : Option String) (e : Exception) (s : Session)
      → get_unparsed email.id s.committed ≡ some email
      → ((reparse_failed env services engine now admin email.id slug e s).0 ≡ returned none)
        × (get_unparsed email.id
              (reparse_failed env services engine now admin email.id slug e s).1.current
            ≡ some (with_reason (reason_of env services now e) slug email))
        × ((reparse_failed env services engine now admin email.id slug e s).1.current.reservations
            ≡ s.committed.reservations)
  unfolding reparse_failed
  failed slug e s found = (
    rw found refl,
    rw found (
        get-update (λ e. e.id) email.id (with_reason (reason_of env services now e) slug)
          (λ x. refl) s.committed.unparsed_emails.rows email found),
    rw found refl,
  )

  resolved :
      (parser : ReservationParser) (r : Reservation) (s : Session)
      → get_unparsed email.id s.current ≡ some email
      → ((resolve env services engine now admin email parser r s).0 ≡ returned tt)
        × (get_unparsed email.id (resolve env services engine now admin email parser r s).1.current
            ≡ some (resolved_by now r.id email))
        × ((resolve env services engine now admin email parser r s).1.current.reservations
            ≡ s.current.reservations)
  unfolding resolve
  resolved parser r s found =
      let marked = (mark_resolved env services engine now admin email parser r s).1 in
      let print = maybe_auto_print env services now r.id in
      let (u, e) = (Returns-maybe_auto_print env services now r.id).result marked in
      (
        e,
        ap (λ rows. get (λ e. e.id) email.id rows)
              ((maybe_auto_print-Leaves emails emails-same env services now r.id).keeps marked).0
            ∙ get-update (λ e. e.id) email.id (resolved_by now r.id) (λ x. refl)
                s.current.unparsed_emails.rows email found,
        ((maybe_auto_print-Leaves (λ db. db.reservations) (λ _ _ _ e. e) env services now
              r.id).keeps
            marked).0,
      )

  module _ (db : Db) (stored : get_unparsed email.id db ≡ some email) where
    abbrev start : Session
    start = record { committed = db; current = db }

    reparse_found-Ends :
        (parser : Outcome (Option ReservationParser))
        → found_parser db ≡ parser
        → Ends db (reparse_found env services engine now admin email parser start)
    unfolding reparse_found
    reparse_found-Ends (raised e) p =
        let (r, kept, same) = failed none e start stored in
        (rw r refl, rw r (inl (e, none, inl (p, refl), kept, same)))
    reparse_found-Ends (returned none) p =
        let e = parser_error "no matching parser" in
        let (r, kept, same) = failed none e start stored in
        (rw r refl, rw r (inl (e, none, inr (inl (p, refl, refl)), kept, same)))
    reparse_found-Ends (returned (some parser)) p =
        let cancels = is_cancellation parser.kind in
        let body = ingest env services now parser (as_fetched email) cancels in
        let handler = reparse_failed env services engine now admin email.id (some parser.slug) in
        let s1 = (body start).1 in
        let keeps =
          (ingest-Leaves env services now parser (as_fetched email) cancels).keeps start in
        elim (Outcome-cases (body start).0) [
          | inl (r, e) ↦
              let tried =
                try_except-returned (body >>= λ r. pure (some r)) handler start s1 (some r)
                  (>>=-step body (λ r. pure (some r)) start s1 r (ap (λ o. (o, s1)) e)) in
              let found1 : get_unparsed email.id s1.current ≡ some email =
                ap (λ rows. get (λ e. e.id) email.id rows) keeps.0 ∙ stored in
              let m = ingest-Stores env services now parser (as_fetched email) cancels start r e in
              let (ok, mark, same) = resolved parser r s1 found1 in
              let m' = subst (λ t. In r t.rows) (sym same) m in
              rw tried (ok, inr (parser, r, p, e, m', mark))
          | inr (e, h) ↦
              let tried =
                try_except-raised (body >>= λ r. pure (some r)) handler start s1 e
                  (>>=-raised body (λ r. pure (some r)) start s1 e (ap (λ o. (o, s1)) h)) in
              let stored1 : get_unparsed email.id s1.committed ≡ some email =
                ap (λ rows. get (λ e. e.id) email.id rows) (elim keeps.1 [ inl c ↦ c | inr c ↦ c ])
                ∙ stored in
              let (r, kept, same) = failed (some parser.slug) e s1 stored1 in
              let same' =
                same
                ∙ ap (λ d. d.reservations)
                    (ingest-Uncommitted env services now parser (as_fetched email) cancels start e
                      h) in
              rw tried (
                rw r refl,
                rw r (inl (e, some parser.slug, inr (inr (parser, p, h, refl)), kept, same')),
              )
        ]

  -- Parsing a stored email again never raises, whatever parsing, storing and printing do: the
  -- request ends with a page. Either the email's parser gives a reservation, which is then stored,
  -- and the email is resolved by it; or a parser's test raises, there is no parser, or the parser
  -- or the database raises, and then the reservations are as before and the email has that
  -- exception as its reason and is otherwise unchanged.
  pub reparse_unparsed_email_action-outcome :
      (from_detail : Bool) (db : Db)
      → get_unparsed email.id db ≡ some email
      → let result =
          request
            (reparse_unparsed_email_action env services engine now admin email.id from_detail)
            db in
        ((page : Option UnparsedEmail ⊎ List UnparsedEmail) × (result.0 ≡ returned page))
        × (IsSetAside db result.1 ⊎ IsResolved db result.1)
  unfolding request reparse_unparsed_email_action reparse_unparsed_email
  reparse_unparsed_email_action-outcome from_detail db found =
      let s : Session = record { committed = db; current = db } in
      let parser = find (load_registry engine db) email.subject email.body email.content_type in
      let (ok, ends) = reparse_found-Ends db found parser refl in
      let s1 = (reparse_found env services engine now admin email parser s).1 in
      let done : Session = record { committed = s1.current; current = s1.current } in
      let run : reparse_unparsed_email_action env services engine now admin email.id from_detail s
          ≡ reparse_page env services engine now from_detail email.id done =
        rw (found, ok) refl in
      subst
        (λ o.
          ((page : Option UnparsedEmail ⊎ List UnparsedEmail) × (o.0 ≡ returned page))
          × (IsSetAside db o.1.committed ⊎ IsResolved db o.1.committed))
        (sym run) (shown from_detail s1.current ends)
    where
      shown :
          (from_detail : Bool) (db' : Db)
          → IsSetAside db db' ⊎ IsResolved db db'
          → let o =
              reparse_page env services engine now from_detail email.id
                (record { committed = db'; current = db' }) in
            ((page : Option UnparsedEmail ⊎ List UnparsedEmail) × (o.0 ≡ returned page))
            × (IsSetAside db o.1.committed ⊎ IsResolved db o.1.committed)
      shown true db' ends = ((_, refl), ends)
      shown false db' ends = ((_, refl), ends)
