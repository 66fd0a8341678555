-- ===== src/UnparsedEmails/Stored.antt =====
-- The reservation that an email gives is stored.
use resaprint.Base.{
  ℕ, ◌≡◌, refl, sym, subst, inl, inr, Bool, true, false, Option, none, some, String, [], ◌∷◌, In,
  select, order_by, truthy, Bool-cases,
}
use resaprint.Base.Lemmas.{In-append_right, In-update_self, In-select, In-order_by, first-In}
use resaprint.Models.{Reservation, ReservationStatus, AppSettings, Time}
use resaprint.Database.{
  Db, Session, Action, returned, raised, parser_error, put_reservation, ◌>>=◌, >>=-returned,
  Outcome-cases,
}
use resaprint.RoomAssignment.{assign_rooms_for_reservation}
use resaprint.Config.{Env, get_or_create_settings}
use resaprint.EmailIngest.{
  Services, ReservationParser, ParsedReservation, FetchedEmail, ingest,
  create_reservation_from_parsed, assign_if_enabled, add_reservation, new_reservation,
  cancel_or_create, cancel_by_ref, refused, latest_with_ref, cancel, has_ref, newest_first,
  apply_cancellation_email,
}
use resaprint.UnparsedEmails.Frames.{settings-Leaves}

abbrev pub IsStored : ℕ → Db → Type 0
IsStored k db = (x : Reservation) × In x db.reservations.rows × (x.id ≡ k)

-- What a handler returns is stored when it ends.
abbrev Stores : Action Reservation → Session → Type 0
Stores m s = (r : Reservation) → (m s).0 ≡ returned r → In r (m s).1.current.reservations.rows

latest_with_ref-In :
    (ref : String) (db : Db) (r : Reservation)
    → latest_with_ref ref db ≡ some r
    → In r db.reservations.rows
unfolding latest_with_ref
latest_with_ref-In ref db r h =
    (In-select (has_ref ref) r db.reservations.rows (
      In-order_by newest_first r (select (has_ref ref) db.reservations.rows)
        (first-In r (order_by newest_first (select (has_ref ref) db.reservations.rows)) h))).0

module _ (env : Env) (services : Services) (now : Time) where
  assign-Stores :
      (on : Bool) (r : Reservation) (s : Session)
      → In r s.current.reservations.rows
      → Stores (assign_if_enabled env services.encrypt services.le now on r) s
  assign-Stores false r s m x h = let e : r ≡ x = cc in rw (← e) m
  assign-Stores true r s m x h =
      let assigned = assign_rooms_for_reservation services.le s.current r in
      let e : assigned ≡ x = cc in
      subst (λ y. In y (put_reservation r.id (λ _. assigned) s.current).reservations.rows) e
        (In-update_self (λ r. r.id) r.id (λ _. assigned) r s.current.reservations.rows m refl)

  settings-Stores :
      (r : Reservation) (s : Session)
      → In r s.current.reservations.rows
      → Stores
          (get_or_create_settings env services.encrypt >>= λ (a : AppSettings).
            assign_if_enabled env services.encrypt services.le now a.room_auto_assign_enabled r)
          s
  settings-Stores r s m x h =
      let settings = get_or_create_settings env services.encrypt in
      let next = λ (a : AppSettings).
        assign_if_enabled env services.encrypt services.le now a.room_auto_assign_enabled r in
      let (a, _, rest) = >>=-returned settings next s h in
      let same : (settings s).1.current.reservations ≡ s.current.reservations =
        ((settings-Leaves (λ db. db.reservations) (λ _ _ _ e. e) env services now).keeps s).0 in
      let m' : In r (settings s).1.current.reservations.rows =
        subst (λ t. In r t.rows) (sym same) m in
      subst (λ o. In x o.1.current.reservations.rows) (sym rest)
        (assign-Stores a.room_auto_assign_enabled r (settings s).1 m' x
          (subst (λ o. o.0 ≡ returned x) rest h))

  create-Stores :
      (parsed : ParsedReservation) (slug body : String) (status : ReservationStatus) (s : Session)
      → Stores
          (create_reservation_from_parsed env services.encrypt services.le services.accepts now
            parsed slug body status)
          s
  unfolding create_reservation_from_parsed
  create-Stores parsed slug body status s x h =
      let row = new_reservation now parsed slug body status s.current.next_room_line_id in
      let r = row s.current.reservations.next_id in
      let m = In-append_right r s.current.reservations.rows (r ∷ []) (inl refl) in
      elim (Bool-cases (services.accepts r)) [
        | inl taken ↦ rw taken (settings-Stores r (add_reservation row s).1 m x (rw taken at h))
        | inr not_taken ↦ let h' : raised refused ≡ returned x = rw not_taken at h in absurd (cc)
      ]

  cancel_or_create-Stores :
      (parser : ReservationParser) (parsed : ParsedReservation) (body : String)
      (o : Option Reservation) (s : Session)
      → ((r : Reservation) → o ≡ some r → In r s.current.reservations.rows)
      → Stores
          (cancel_or_create env services.encrypt services.le services.accepts now parser parsed body
            o)
          s
  cancel_or_create-Stores parser parsed body (some r) s m x h =
      let e : cancel r ≡ x = cc in
      subst (λ y. In y (put_reservation r.id cancel s.current).reservations.rows) e
        (In-update_self (λ r. r.id) r.id cancel r s.current.reservations.rows (m r refl) refl)
  cancel_or_create-Stores parser parsed body none s m x h =
      create-Stores parsed parser.slug body ReservationStatus.cancelled s x h

  cancel_by_ref-Stores :
      (parser : ReservationParser) (parsed : ParsedReservation) (body : String)
      (ref : Option String) (s : Session)
      → Stores
          (cancel_by_ref env services.encrypt services.le services.accepts now parser parsed body
            ref)
          s
  cancel_by_ref-Stores parser parsed body none s x h = absurd (cc)
  cancel_by_ref-Stores parser parsed body (some ref) s x h = elim (Bool-cases (truthy ref)) [
    | inl t ↦ rw t (
        cancel_or_create-Stores parser parsed body (latest_with_ref ref s.current) s
          (λ r e. latest_with_ref-In ref s.current r e) x (rw t at h))
    | inr f ↦
        let h' : raised
              (parser_error "cancellation email has no reservation reference (external_ref)")
            ≡ returned x =
          rw f at h in
        absurd (cc)
  ]

  pub ingest-Stores :
      (parser : ReservationParser) (fetched : FetchedEmail) (cancels : Bool) (s : Session)
      (r : Reservation)
      → (ingest env services now parser fetched cancels s).0 ≡ returned r
      → In r (ingest env services now parser fetched cancels s).1.current.reservations.rows
  unfolding apply_cancellation_email
  ingest-Stores parser fetched true s x h =
      elim (Outcome-cases (parser.parse fetched.subject fetched.body fetched.content_type)) [
        | inl (parsed, e) ↦
            rw e
              (cancel_by_ref-Stores parser parsed fetched.body parsed.external_ref s x (rw e at h))
        | inr (y, e) ↦ let h' : raised y ≡ returned x = rw e at h in absurd (cc)
      ]
  ingest-Stores parser fetched false s x h =
      elim (Outcome-cases (parser.parse fetched.subject fetched.body fetched.content_type)) [
        | inl (parsed, e) ↦ rw e (
            create-Stores parsed parser.slug fetched.body ReservationStatus.confirmed s x
              (rw e at h))
        | inr (y, e) ↦ let h' : raised y ≡ returned x = rw e at h in absurd (cc)
      ]
