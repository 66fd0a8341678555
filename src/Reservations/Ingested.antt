-- ===== src/Reservations/Ingested.antt =====
-- What every email leaves of the stored reservations.
use resaprint.Base.{
  inl, inr, Bool, true, false, Option, none, some, String, List, truthy, Bool-cases,
}
use resaprint.Models.{Reservation, Time}
use resaprint.Database.{
  Outcome, Exception, put_reservation, Holds, Holds-pure, Holds-raise, Holds-gets, Holds-modify,
  Holds-commit, Holds-rollback, Holds-bind, Holds-then, Holds-if, Holds-try,
}
use resaprint.Config.{Env}
use resaprint.EmailIngest.{
  ParsedReservation, ReservationParser, FetchedEmail, Mark, Services, cancel_or_create,
  cancel_by_ref, cancel, latest_with_ref, apply_cancellation_email, ingest, outcome, set_aside,
  finish, process_with, process_email, find, is_cancellation, maybe_auto_print, record_unparsed,
  reason_of, ingested_action, unparsed_row, mark_email,
}
use resaprint.UnparsedEmails.Frames.{outcome-Leaves, maybe_auto_print-Leaves}
use resaprint.Reservations.Created.{
  Planned, Planned-Frames, log-Planned, create_reservation_from_parsed-Planned,
}
use resaprint.Reservations.Consistency.{cancel-Planned}

pub outcome-Planned : {A : Type 0} (r : Outcome A) → Holds Planned (λ _. Unit {0}) (outcome r)
outcome-Planned r =
    Planned-Frames (outcome r) (outcome-Leaves (λ db. db.reservations) (λ _ _ _ e. e) r)

module _ (env : Env) (services : Services) (now : Time) where
  cancel_or_create-Planned :
      (parser : ReservationParser) (parsed : ParsedReservation) (body : String)
      (o : Option Reservation)
      → Holds Planned
          (λ _. Unit {0})
          (cancel_or_create env services.encrypt services.le services.accepts now parser parsed body
            o)
  cancel_or_create-Planned parser parsed body (some r) =
      Holds-then (Holds-modify (put_reservation r.id cancel) (cancel-Planned r.id))
        (Holds-pure (cancel r) tt)
  cancel_or_create-Planned parser parsed body none =
      create_reservation_from_parsed-Planned env services now parsed parser.slug body _

  cancel_by_ref-Planned :
      (parser : ReservationParser) (parsed : ParsedReservation) (body : String)
      (ref : Option String)
      → Holds Planned
          (λ _. Unit {0})
          (cancel_by_ref env services.encrypt services.le services.accepts now parser parsed body
            ref)
  cancel_by_ref-Planned parser parsed body none = Holds-raise _
  cancel_by_ref-Planned parser parsed body (some ref) =
      Holds-if (truthy ref)
        (λ _.
          Holds-bind {P = λ _. Unit {0}} (Holds-gets (latest_with_ref ref) (λ _ _. tt))
            (λ o _. cancel_or_create-Planned parser parsed body o))
        (λ _. Holds-raise _)

  pub ingest-Planned :
      (parser : ReservationParser) (fetched : FetchedEmail) (cancels : Bool)
      → Holds Planned (λ _. Unit {0}) (ingest env services now parser fetched cancels)
  unfolding apply_cancellation_email
  ingest-Planned parser fetched true =
      Holds-bind (outcome-Planned (parser.parse fetched.subject fetched.body fetched.content_type))
        (λ parsed _. cancel_by_ref-Planned parser parsed fetched.body parsed.external_ref)
  ingest-Planned parser fetched false =
      Holds-bind (outcome-Planned (parser.parse fetched.subject fetched.body fetched.content_type))
        (λ parsed _.
          create_reservation_from_parsed-Planned env services now parsed parser.slug fetched.body _)

  record_unparsed-Planned :
      (fetched : FetchedEmail) (reason : String) (slug : Option String)
      → Holds Planned
          (λ _. Unit {0})
          (record_unparsed services.accepts_email now fetched reason slug)
  unfolding record_unparsed
  record_unparsed-Planned fetched reason slug = record {
    after = λ s h k.
        elim (Bool-cases (
          services.accepts_email
            (unparsed_row now fetched reason slug s.current.unparsed_emails.next_id))) [
              | inl taken ↦ rw taken (h, k, tt)
              | inr not_taken ↦ rw not_taken (h, k, tt)
            ];
  }

  mark-Planned :
      (fetched : FetchedEmail) (mark : Mark)
      → Holds Planned (λ _. Unit {0}) (mark_email env services now fetched mark)
  mark-Planned fetched mark =
      Holds-then (outcome-Planned (services.mark mark fetched.uid)) (Holds-pure mark tt)

  set_aside-Planned :
      (parser : ReservationParser) (fetched : FetchedEmail) (e : Exception)
      → Holds Planned (λ _. Unit {0}) (set_aside env services now parser fetched e)
  set_aside-Planned parser fetched e = Holds-then Holds-rollback (
      Holds-then (record_unparsed-Planned fetched (reason_of env services now e) (some parser.slug))
        (Holds-then Holds-commit (Holds-pure none tt)))

  finish-Planned :
      (parser : ReservationParser) (fetched : FetchedEmail) (o : Option Reservation)
      → Holds Planned (λ _. Unit {0}) (finish env services now parser fetched o)
  finish-Planned parser fetched none = mark-Planned fetched Mark.seen
  finish-Planned parser fetched (some r) =
      Holds-then
        (log-Planned "system" (ingested_action env services now (is_cancellation parser.kind))
          (some "reservation") (some r.id) _)
        (Holds-then Holds-commit (
          Holds-then
            (Planned-Frames (maybe_auto_print env services now r.id) (
              maybe_auto_print-Leaves (λ db. db.reservations) (λ _ _ _ e. e) env services now r.id))
            (mark-Planned fetched Mark.processed)))

  process_with-Planned :
      (fetched : FetchedEmail) (o : Option ReservationParser)
      → Holds Planned (λ _. Unit {0}) (process_with env services now fetched o)
  process_with-Planned fetched none =
      Holds-then (record_unparsed-Planned fetched "no matching parser" none)
        (Holds-then Holds-commit (mark-Planned fetched Mark.seen))
  process_with-Planned fetched (some parser) =
      Holds-bind {P = λ _. Unit {0}}
        (Holds-try
          (Holds-bind (ingest-Planned parser fetched (is_cancellation parser.kind))
            (λ r _. Holds-pure (some r) tt))
          (set_aside-Planned parser fetched))
        (λ o _. finish-Planned parser fetched o)

  pub process_email-Planned :
      (registry : List ReservationParser) (fetched : FetchedEmail)
      → Holds Planned (λ _. Unit {0}) (process_email env services now registry fetched)
  unfolding process_email
  process_email-Planned registry fetched =
      Holds-bind (outcome-Planned (find registry fetched.subject fetched.body fetched.content_type))
        (λ o _. process_with-Planned fetched o)
