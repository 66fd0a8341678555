-- ===== src/EmailIngest/Failure.antt =====
-- An email that cannot be parsed.
use resaprint.Base.{
  ℕ, ◌≡◌, refl, inl, inr, Bool, true, false, none, some, String, List, [], ◌∷◌, ◌++◌,
}
use resaprint.Models.{UnparsedEmail, UnparsedEmailStatus, Time}
use resaprint.Database.{
  Session, Outcome, Exception, returned, raised, pure, ◌>>=◌, try_except-raised, >>=-raised,
  Outcome-cases,
}
use resaprint.Config.{Env}
use resaprint.EmailIngest.Registry.{ReservationParser, is_cancellation, find}
use resaprint.EmailIngest.Create.{FetchedEmail, record_unparsed, apply_cancellation_email}
use resaprint.EmailIngest.Process.{
  Mark, seen, Services, ingest, reason_of, set_aside, process_email,
}

-- The row of an email that is kept for an operator.
abbrev pub pending_row : Time → FetchedEmail → String → String → ℕ → UnparsedEmail
pending_row now fetched reason slug id = record {
  id = id;
  subject = fetched.subject;
  body = fetched.body;
  content_type = fetched.content_type;
  reason = reason;
  parser_slug = some slug;
  status = UnparsedEmailStatus.pending;
  resolved_reservation_id = none;
  created_at = now;
  resolved_at = none;
}

module _ (env : Env) (services : Services) (now : Time) where
  ingest-raised :
      (parser : ReservationParser) (fetched : FetchedEmail) (e : Exception) (s : Session) (b : Bool)
      → parser.parse fetched.subject fetched.body fetched.content_type ≡ raised e
      → ingest env services now parser fetched b s ≡ (raised e, s)
  unfolding apply_cancellation_email
  ingest-raised parser fetched e s true h = rw h refl
  ingest-raised parser fetched e s false h = rw h refl

  -- The mark, where the server takes it, or what the call raises.
  abbrev pub answered : Outcome (Unit {0}) → Mark → Outcome Mark
  answered (returned _) mark = returned mark
  answered (raised x) mark = raised x

  -- If an email's parser cannot parse it and the database takes its row as an unparsed email, then
  -- processing it leaves the reservations as they were last committed, adds the email to the
  -- unparsed ones, pending and with the reason, commits that, and asks the server to mark the email
  -- as seen, whose answer is that of the call.
  pub process_email-set_aside :
      (registry : List ReservationParser) (fetched : FetchedEmail) (parser : ReservationParser)
      (e : Exception) (s : Session)
      → find registry fetched.subject fetched.body fetched.content_type ≡ returned (some parser)
      → parser.parse fetched.subject fetched.body fetched.content_type ≡ raised e
      → let row =
          pending_row now fetched
            (reason_of env services now e)
            parser.slug
            s.committed.unparsed_emails.next_id in
        services.accepts_email row ≡ true
        → let result = process_email env services now registry fetched s in
          (result.0 ≡ answered (services.mark seen fetched.uid) seen)
          × (result.1.current.reservations ≡ s.committed.reservations)
          × (result.1.current.unparsed_emails.rows ≡ s.committed.unparsed_emails.rows ++ row ∷ [])
          × (result.1.committed ≡ result.1.current)
  unfolding process_email record_unparsed
  process_email-set_aside registry fetched parser e s found h accepted =
      let failed = ingest-raised parser fetched e s (is_cancellation parser.kind) h in
      let body = ingest env services now parser fetched (is_cancellation parser.kind) in
      let tried =
        try_except-raised (body >>= λ r. pure (some r)) (set_aside env services now parser fetched)
          s s e (>>=-raised body (λ r. pure (some r)) s s e failed) in
      elim (Outcome-cases (services.mark seen fetched.uid)) [
        | inl (a, m) ↦ rw (found, tried, accepted, m) (refl, refl, refl, refl)
        | inr (x, m) ↦ rw (found, tried, accepted, m) (refl, refl, refl, refl)
      ]
