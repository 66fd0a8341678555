-- ===== src/UnparsedEmails/Actions.antt =====
-- Listing unparsed emails, parsing one again, and ignoring one.
use resaprint.Base.{
  ℕ, zero, suc, Bool, true, false, Option, none, some, String, List, [], ◌∷◌, get, update, delete,
  select, order_by, leb, if◌then◌else◌, ◌⊎◌, inl, inr,
}
use resaprint.Models.{UnparsedEmail, UnparsedEmailStatus, Reservation, AdminPin, Time, Json}
use resaprint.Database.{
  Db, Action, Exception, Outcome, returned, raised, parser_error, other_error, pure, gets, or_raise,
  modify, commit, rollback, try_except, table_update, table_delete, ◌>>=◌, ◌>>◌,
}
use resaprint.Audit.{log}
use resaprint.Config.{Env}
use resaprint.EmailIngest.{
  FetchedEmail, Services, ReservationParser, is_cancellation, find, ingest, ingested_action,
  reason_of, maybe_auto_print,
}
use resaprint.Parsers.{Engine, load_registry}

-- `.limit(n)`
abbrev pub take {ℓ} : {A : Type ℓ} → ℕ → List A → List A
take zero xs = []
take (suc n) [] = []
take (suc n) (x ∷ xs) = x ∷ take n xs

abbrev pub is_pending : UnparsedEmailStatus → Bool
is_pending UnparsedEmailStatus.pending = true
is_pending UnparsedEmailStatus.resolved = false
is_pending UnparsedEmailStatus.ignored = false

abbrev pub newest_email_first : UnparsedEmail → UnparsedEmail → Bool
newest_email_first a b = leb b.created_at a.created_at

-- `_list_unparsed`
unfoldable pub list_unparsed : Bool → Db → List UnparsedEmail
unfolding select order_by
list_unparsed true db = take 200 (order_by newest_email_first db.unparsed_emails.rows)
list_unparsed false db =
    take 200
      (order_by newest_email_first (select (λ e. is_pending e.status) db.unparsed_emails.rows))

abbrev pub get_unparsed : ℕ → Db → Option UnparsedEmail
get_unparsed k db = get (λ e. e.id) k db.unparsed_emails.rows

abbrev pub set_unparsed : ℕ → (UnparsedEmail → UnparsedEmail) → Db → Db
set_unparsed k f db = record db {
  unparsed_emails = table_update (λ e. e.id) k f db.unparsed_emails;
}

abbrev pub remove_unparsed : ℕ → Db → Db
remove_unparsed k db = record db { unparsed_emails = table_delete (λ e. e.id) k db.unparsed_emails }

abbrev pub as_fetched : UnparsedEmail → FetchedEmail
as_fetched unparsed = record {
  uid = "";
  subject = unparsed.subject;
  body = unparsed.body;
  content_type = unparsed.content_type;
}

abbrev pub json_slug : Option String → Json
json_slug none = Json.null
json_slug (some slug) = Json.text slug

abbrev pub with_reason : String → Option String → UnparsedEmail → UnparsedEmail
with_reason reason slug e = record e { reason = reason; parser_slug = slug }

abbrev pub resolved_by : Time → ℕ → UnparsedEmail → UnparsedEmail
resolved_by now reservation_id e = record e {
  status = UnparsedEmailStatus.resolved;
  resolved_reservation_id = some reservation_id;
  resolved_at = some now;
}

abbrev pub log_ignored : AdminPin → UnparsedEmail → Action (Unit {0})
log_ignored admin unparsed =
    log admin.label "email.ignored" (some "unparsed_email") (some unparsed.id)
      (some (("subject", Json.text unparsed.subject) ∷ []))

abbrev pub ignore_if_pending : AdminPin → Option UnparsedEmail → Action (Unit {0})
ignore_if_pending admin none = pure tt
ignore_if_pending admin (some unparsed) =
    if is_pending unparsed.status
    then log_ignored admin unparsed >> modify (remove_unparsed unparsed.id) >> commit
    else pure tt

unfoldable pub ignore_unparsed_email_action : AdminPin → ℕ → Action (List UnparsedEmail)
unfolding delete list_unparsed
ignore_unparsed_email_action admin unparsed_id =
    gets (get_unparsed unparsed_id) >>= ignore_if_pending admin >> gets (list_unparsed false)

module _ (env : Env) (services : Services) (engine : Engine) (now : Time) where
  -- The `except` branch of `_reparse_unparsed_email`.
  unfoldable pub reparse_failed :
      AdminPin → ℕ → Option String → Exception → Action (Option Reservation)
  unfolding update
  reparse_failed admin unparsed_id slug e = do
    rollback
    found ← gets (get_unparsed unparsed_id)
    fresh ← or_raise found (other_error "'NoneType' object has no attribute 'reason'")
    modify (set_unparsed fresh.id (with_reason (reason_of env services now e) slug))
    log admin.label "email.reparse_failed" (some "unparsed_email") (some unparsed_id) (
        some (
          ("parser_slug", json_slug slug)
          ∷ ("reason", Json.text (reason_of env services now e))
          ∷ []))
    pure none

  -- What follows the `try`.
  abbrev pub mark_resolved :
      AdminPin → UnparsedEmail → ReservationParser → Reservation → Action (Unit {0})
  mark_resolved admin unparsed parser reservation = do
    modify (set_unparsed unparsed.id (resolved_by now reservation.id))
    log admin.label (ingested_action env services now (is_cancellation parser.kind))
        (some "reservation") (some reservation.id)
        (some (
          ("parser_slug", Json.text parser.slug)
          ∷ ("subject", Json.text unparsed.subject)
          ∷ ("via", Json.text "reparse")
          ∷ []))
    log admin.label "email.reparsed" (some "unparsed_email") (some unparsed.id)
        (some (("reservation_id", Json.number reservation.id) ∷ []))

  unfoldable pub resolve :
      AdminPin → UnparsedEmail → ReservationParser → Reservation → Action (Unit {0})
  unfolding update
  resolve admin unparsed parser reservation =
      mark_resolved admin unparsed parser reservation
      >> maybe_auto_print env services now reservation.id

  abbrev pub resolve_if :
      AdminPin → UnparsedEmail → ReservationParser → Option Reservation → Action (Unit {0})
  resolve_if admin unparsed parser none = pure tt
  resolve_if admin unparsed parser (some reservation) = resolve admin unparsed parser reservation

  -- The `try`, by what the registry finds: only then is the parser's slug known.
  unfoldable pub reparse_found :
      AdminPin → UnparsedEmail → Outcome (Option ReservationParser) → Action (Unit {0})
  unfolding reparse_failed resolve
  reparse_found admin unparsed (raised e) = reparse_failed admin unparsed.id none e >> pure tt
  reparse_found admin unparsed (returned none) =
      reparse_failed admin unparsed.id none (parser_error "no matching parser") >> pure tt
  reparse_found admin unparsed (returned (some parser)) =
      try_except
        (ingest env services now parser (as_fetched unparsed) (is_cancellation parser.kind) >>= λ r.
          pure (some r))
        (reparse_failed admin unparsed.id (some parser.slug))
      >>= resolve_if admin unparsed parser

  -- `_reparse_unparsed_email`
  unfoldable pub reparse_unparsed_email : AdminPin → UnparsedEmail → Action (Unit {0})
  unfolding reparse_found load_registry find
  reparse_unparsed_email admin unparsed = do
    registry ← gets (load_registry engine)
    reparse_found admin unparsed
        (find registry unparsed.subject unparsed.body unparsed.content_type)

  abbrev pub reparse_if : AdminPin → Option UnparsedEmail → Action (Unit {0})
  reparse_if admin none = pure tt
  reparse_if admin (some unparsed) = reparse_unparsed_email admin unparsed >> commit

  -- The pages: of the email, where the request came from it, or of the list.
  abbrev pub reparse_page : Bool → ℕ → Action (Option UnparsedEmail ⊎ List UnparsedEmail)
  reparse_page true unparsed_id = gets (λ db. inl (get_unparsed unparsed_id db))
  reparse_page false unparsed_id = gets (λ db. inr (list_unparsed false db))

  unfoldable pub reparse_unparsed_email_action :
      AdminPin → ℕ → Bool → Action (Option UnparsedEmail ⊎ List UnparsedEmail)
  unfolding reparse_unparsed_email list_unparsed
  reparse_unparsed_email_action admin unparsed_id from_detail =
      gets (get_unparsed unparsed_id) >>= reparse_if admin >> reparse_page from_detail unparsed_id
