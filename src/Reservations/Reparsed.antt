-- ===== src/Reservations/Reparsed.antt =====
-- What parsing a stored email again leaves of the stored reservations.
use resaprint.Base.{ℕ, inl, inr, Bool, true, false, Option, none, some, String, [], ◌∷◌}
use resaprint.Models.{Reservation, UnparsedEmail, AdminPin, Time, Json}
use resaprint.Database.{
  Exception, Outcome, returned, raised, parser_error, other_error, Holds, Holds-pure, Holds-gets,
  Holds-modify, Holds-commit, Holds-rollback, Holds-bind, Holds-then, Holds-or_raise, Holds-try,
}
use resaprint.Config.{Env}
use resaprint.EmailIngest.{
  ReservationParser, Services, is_cancellation, find, ingested_action, maybe_auto_print, reason_of,
}
use resaprint.Parsers.{Engine, load_registry}
use resaprint.UnparsedEmails.{
  get_unparsed, set_unparsed, list_unparsed, with_reason, resolved_by, as_fetched, json_slug,
  reparse_failed, resolve, resolve_if, reparse_found, reparse_unparsed_email, reparse_if,
  reparse_page, reparse_unparsed_email_action,
}
use resaprint.UnparsedEmails.Frames.{maybe_auto_print-Leaves}
use resaprint.Reservations.Created.{Planned, Planned-Frames, log-Planned}
use resaprint.Reservations.Ingested.{ingest-Planned}

module _ (env : Env) (services : Services) (engine : Engine) (now : Time) (admin : AdminPin) where
  reparse_failed-Planned :
      (k : ℕ) (slug : Option String) (e : Exception)
      → Holds Planned (λ _. Unit {0}) (reparse_failed env services engine now admin k slug e)
  unfolding reparse_failed
  reparse_failed-Planned k slug e = Holds-then Holds-rollback (
      Holds-bind {P = λ _. Unit {0}} (Holds-gets (get_unparsed k) (λ _ _. tt)) λ found _.
        Holds-bind {P = λ _. Unit {0}}
          (Holds-or_raise found (other_error "'NoneType' object has no attribute 'reason'")
            (λ _ _. tt))
          λ fresh _.
            Holds-then
              (Holds-modify
                (set_unparsed fresh.id (with_reason (reason_of env services now e) slug))
                (λ db h. h))
              (Holds-then
                (log-Planned admin.label "email.reparse_failed" (some "unparsed_email") (some k) (
                  some (
                    ("parser_slug", json_slug slug)
                    ∷ ("reason", Json.text (reason_of env services now e))
                    ∷ [])))
                (Holds-pure none tt)))

  resolve_if-Planned :
      (email : UnparsedEmail) (parser : ReservationParser) (o : Option Reservation)
      → Holds Planned (λ _. Unit {0}) (resolve_if env services engine now admin email parser o)
  unfolding resolve
  resolve_if-Planned email parser none = Holds-pure tt tt
  resolve_if-Planned email parser (some r) =
      Holds-then
        (Holds-then (Holds-modify (set_unparsed email.id (resolved_by now r.id)) (λ db h. h)) (
          Holds-then
            (log-Planned admin.label
              (ingested_action env services now (is_cancellation parser.kind)) (some "reservation")
              (some r.id)
              (some (
                ("parser_slug", Json.text parser.slug)
                ∷ ("subject", Json.text email.subject)
                ∷ ("via", Json.text "reparse")
                ∷ [])))
            (log-Planned admin.label "email.reparsed" (some "unparsed_email") (some email.id)
              (some (("reservation_id", Json.number r.id) ∷ [])))))
        (Planned-Frames (maybe_auto_print env services now r.id)
          (maybe_auto_print-Leaves (λ db. db.reservations) (λ _ _ _ e. e) env services now r.id))

  reparse_found-Planned :
      (email : UnparsedEmail) (parser : Outcome (Option ReservationParser))
      → Holds Planned (λ _. Unit {0}) (reparse_found env services engine now admin email parser)
  unfolding reparse_found
  reparse_found-Planned email (raised e) =
      Holds-then (reparse_failed-Planned email.id none e) (Holds-pure tt tt)
  reparse_found-Planned email (returned none) =
      Holds-then (reparse_failed-Planned email.id none (parser_error "no matching parser"))
        (Holds-pure tt tt)
  reparse_found-Planned email (returned (some parser)) =
      Holds-bind {P = λ _. Unit {0}}
        (Holds-try
          (Holds-bind
            (ingest-Planned env services now parser (as_fetched email)
              (is_cancellation parser.kind))
            (λ r _. Holds-pure (some r) tt))
          (reparse_failed-Planned email.id (some parser.slug)))
        (λ o _. resolve_if-Planned email parser o)

  reparse_if-Planned :
      (o : Option UnparsedEmail)
      → Holds Planned (λ _. Unit {0}) (reparse_if env services engine now admin o)
  unfolding reparse_unparsed_email
  reparse_if-Planned none = Holds-pure tt tt
  reparse_if-Planned (some email) =
      Holds-then
        (Holds-bind {P = λ _. Unit {0}} (Holds-gets (load_registry engine) (λ _ _. tt))
          (λ registry _.
            reparse_found-Planned email
              (find registry email.subject email.body email.content_type)))
        Holds-commit

  reparse_page-Planned :
      (from_detail : Bool) (k : ℕ)
      → Holds Planned (λ _. Unit {0}) (reparse_page env services engine now from_detail k)
  reparse_page-Planned true k = Holds-gets (λ db. inl (get_unparsed k db)) (λ _ _. tt)
  reparse_page-Planned false k = Holds-gets (λ db. inr (list_unparsed false db)) (λ _ _. tt)

  pub reparse_unparsed_email-Planned :
      (k : ℕ) (from_detail : Bool)
      → Holds Planned
          (λ _. Unit {0})
          (reparse_unparsed_email_action env services engine now admin k from_detail)
  unfolding reparse_unparsed_email_action
  reparse_unparsed_email-Planned k from_detail =
      Holds-then
        (Holds-bind {P = λ _. Unit {0}} (Holds-gets (get_unparsed k) (λ _ _. tt))
          (λ o _. reparse_if-Planned o))
        (reparse_page-Planned from_detail k)
