-- ===== src/UnparsedEmails/Uncommitted.antt =====
-- Storing what an email says commits nothing where it raises.
use resaprint.Base.{
  ◌≡◌, refl, inl, inr, Bool, true, false, Option, none, some, String, truthy, Bool-cases,
}
use resaprint.Models.{Reservation, ReservationStatus, AppSettings, Time}
use resaprint.Database.{
  Session, Action, Exception, raised, ◌>>=◌, Returns, Returns-pure, Returns-bind, Returns-then,
  Returns-gets, Returns-modify, Outcome-cases, put_reservation,
}
use resaprint.RoomAssignment.{assign_rooms_for_reservation}
use resaprint.Config.{Env, get_or_create_settings}
use resaprint.EmailIngest.{
  Services, ReservationParser, ParsedReservation, FetchedEmail, ingest,
  create_reservation_from_parsed, assign_if_enabled, new_reservation, cancel_or_create,
  cancel_by_ref, latest_with_ref, apply_cancellation_email,
}
use resaprint.EmailIngest.Marked.{Returns-get_or_create_settings}

abbrev pub Uncommitted : {A : Type 0} → Action A → Session → Type 0
Uncommitted m s = (e : Exception) → (m s).0 ≡ raised e → (m s).1.committed ≡ s.committed

Returns-Uncommitted : {A : Type 0} (m : Action A) (s : Session) → Returns m → Uncommitted m s
Returns-Uncommitted m s p e h = let (a, q) = p.result s in absurd (cc)

module _ (env : Env) (services : Services) (now : Time) where
  Returns-assign :
      (on : Bool) (r : Reservation)
      → Returns (assign_if_enabled env services.encrypt services.le now on r)
  Returns-assign false r = Returns-pure r
  Returns-assign true r =
      Returns-bind (Returns-gets (λ db. assign_rooms_for_reservation services.le db r)) (λ assigned.
        Returns-then (Returns-modify (put_reservation r.id (λ _. assigned)))
          (Returns-pure assigned))

  Returns-settings :
      (r : Reservation)
      → Returns (
          get_or_create_settings env services.encrypt >>= λ (a : AppSettings).
          assign_if_enabled env services.encrypt services.le now a.room_auto_assign_enabled r)
  Returns-settings r =
      Returns-bind (Returns-get_or_create_settings env services now)
        (λ settings. Returns-assign settings.room_auto_assign_enabled r)

  create-Uncommitted :
      (parsed : ParsedReservation) (slug body : String) (status : ReservationStatus) (s : Session)
      → Uncommitted
          (create_reservation_from_parsed env services.encrypt services.le services.accepts now
            parsed slug body status)
          s
  unfolding create_reservation_from_parsed
  create-Uncommitted parsed slug body status s e h =
      let row = new_reservation now parsed slug body status s.current.next_room_line_id in
      let r = row s.current.reservations.next_id in
      elim (Bool-cases (services.accepts r)) [
        | inl taken ↦ rw taken (Returns-Uncommitted _ _ (Returns-settings r) e (rw taken at h))
        | inr not_taken ↦ rw not_taken refl
      ]

  cancel_or_create-Uncommitted :
      (parser : ReservationParser) (parsed : ParsedReservation) (body : String)
      (o : Option Reservation) (s : Session)
      → Uncommitted
          (cancel_or_create env services.encrypt services.le services.accepts now parser parsed body
            o)
          s
  cancel_or_create-Uncommitted parser parsed body (some r) s e h = refl
  cancel_or_create-Uncommitted parser parsed body none s e h =
      create-Uncommitted parsed parser.slug body ReservationStatus.cancelled s e h

  cancel_by_ref-Uncommitted :
      (parser : ReservationParser) (parsed : ParsedReservation) (body : String)
      (ref : Option String) (s : Session)
      → Uncommitted
          (cancel_by_ref env services.encrypt services.le services.accepts now parser parsed body
            ref)
          s
  cancel_by_ref-Uncommitted parser parsed body none s e h = refl
  cancel_by_ref-Uncommitted parser parsed body (some ref) s e h = elim (Bool-cases (truthy ref)) [
    | inl t ↦ rw t (
        cancel_or_create-Uncommitted parser parsed body (latest_with_ref ref s.current) s e
          (rw t at h))
    | inr f ↦ rw f refl
  ]

  pub ingest-Uncommitted :
      (parser : ReservationParser) (fetched : FetchedEmail) (cancels : Bool) (s : Session)
      (e : Exception)
      → (ingest env services now parser fetched cancels s).0 ≡ raised e
      → (ingest env services now parser fetched cancels s).1.committed ≡ s.committed
  unfolding apply_cancellation_email
  ingest-Uncommitted parser fetched true s e h =
      elim (Outcome-cases (parser.parse fetched.subject fetched.body fetched.content_type)) [
        | inl (parsed, p) ↦ rw p (
            cancel_by_ref-Uncommitted parser parsed fetched.body parsed.external_ref s e
              (rw p at h))
        | inr (x, p) ↦ rw p refl
      ]
  ingest-Uncommitted parser fetched false s e h =
      elim (Outcome-cases (parser.parse fetched.subject fetched.body fetched.content_type)) [
        | inl (parsed, p) ↦ rw p (
            create-Uncommitted parsed parser.slug fetched.body ReservationStatus.confirmed s e
              (rw p at h))
        | inr (x, p) ↦ rw p refl
      ]
