-- ===== src/EmailIngest/Cancellation.antt =====
-- Cancellation emails for reservations that exist.
use resaprint.Base.{
  ℕ, ◌≡◌, refl, sym, ◌∙◌, ap, Bool, true, false, some, inl, inr, Bool-cases, String, List, [], ◌∷◌,
  map, ◌==◌, ==_iff, select, first, order_by, insert_by, update, truthy, if◌then◌else◌, none,
  Option, subst, ◌≢◌, ◌⊎◌, ◌<◌, ◌↔◌, In, text_eq, eq_iff, arith,
}
use resaprint.Base.Lemmas.{In-update_self, In-update_of, In-select, In-select_of, In-order_by}
use resaprint.Models.{Reservation, Time, ReservationStatus}
use resaprint.Database.{Db, Session, Outcome, returned, put_reservation}
use resaprint.Config.{Env}
use resaprint.EmailIngest.Registry.{ReservationParser, ParsedReservation}
use resaprint.EmailIngest.Create.{
  has_ref, newest_first, latest_with_ref, cancel, apply_cancellation_email,
}

-- Cancelling the reservation with an id commutes with the query, whose conditions it does not touch.
module _ (k : ℕ) where
  abbrev cancelled : List Reservation → List Reservation
  cancelled rs = update (λ r. r.id) k cancel rs

  abbrev cancel_if : Reservation → Reservation
  cancel_if r = if r.id == k then cancel r else r

  cancelled-twice : (rs : List Reservation) → cancelled (cancelled rs) ≡ cancelled rs
  unfolding update
  cancelled-twice [] = refl
  cancelled-twice (r ∷ rs) = elim (Bool-cases (r.id == k)) [
    | inl t ↦ rw (t, t, cancelled-twice rs) refl
    | inr f ↦ rw (f, f, cancelled-twice rs) refl
  ]

  cancelled-ids : (rs : List Reservation) → map (λ r. r.id) (cancelled rs) ≡ map (λ r. r.id) rs
  unfolding update
  cancelled-ids [] = refl
  cancelled-ids (r ∷ rs) = elim (Bool-cases (r.id == k)) [
    | inl t ↦ rw (t, cancelled-ids rs) refl
    | inr f ↦ rw (f, cancelled-ids rs) refl
  ]

  select-cancelled :
      (ref : String) (rs : List Reservation)
      → select (has_ref ref) (cancelled rs) ≡ cancelled (select (has_ref ref) rs)
  unfolding update select
  select-cancelled ref [] = refl
  select-cancelled ref (r ∷ rs) = elim (Bool-cases (r.id == k)) [
    | inl t ↦ elim (Bool-cases (has_ref ref r)) [
      | inl h ↦ rw (t, h, select-cancelled ref rs, t) refl
      | inr h ↦ rw (t, h, select-cancelled ref rs) refl
    ]
    | inr f ↦ elim (Bool-cases (has_ref ref r)) [
      | inl h ↦ rw (f, h, select-cancelled ref rs, f) refl
      | inr h ↦ rw (f, h, select-cancelled ref rs) refl
    ]
  ]

  newest_first-cancel_if :
      (a b : Reservation) → newest_first (cancel_if a) (cancel_if b) ≡ newest_first a b
  newest_first-cancel_if a b = elim (Bool-cases (a.id == k)) [
    | inl t ↦ elim (Bool-cases (b.id == k)) [ inl u ↦ rw (t, u) refl | inr g ↦ rw (t, g) refl ]
    | inr f ↦ elim (Bool-cases (b.id == k)) [ inl u ↦ rw (f, u) refl | inr g ↦ rw (f, g) refl ]
  ]

  insert_by-cancelled :
      (r : Reservation) (rs : List Reservation)
      → insert_by newest_first (cancel_if r) (cancelled rs)
        ≡ cancelled (insert_by newest_first r rs)
  unfolding update
  insert_by-cancelled r [] = refl
  insert_by-cancelled r (x ∷ xs) =
      let order = newest_first-cancel_if r x in
      elim (Bool-cases (newest_first r x)) [
        | inl t ↦
            let t' : newest_first (cancel_if r) (cancel_if x) ≡ true = order ∙ t in rw (t', t) refl
        | inr f ↦
            let f' : newest_first (cancel_if r) (cancel_if x) ≡ false = order ∙ f in
            rw (f', f, insert_by-cancelled r xs) refl
      ]

  order_by-cancelled :
      (rs : List Reservation)
      → order_by newest_first (cancelled rs) ≡ cancelled (order_by newest_first rs)
  unfolding update order_by
  order_by-cancelled [] = refl
  order_by-cancelled (r ∷ rs) =
      ap (insert_by newest_first (cancel_if r)) (order_by-cancelled rs)
      ∙ insert_by-cancelled r (order_by newest_first rs)

  first-cancelled :
      (rs : List Reservation) (r : Reservation)
      → first rs ≡ some r
      → first (cancelled rs) ≡ some (cancel_if r)
  unfolding update
  first-cancelled [] r h = cc
  first-cancelled (x ∷ xs) r h = let e : x ≡ r = cc in ap (λ y. some (cancel_if y)) e

latest-cancelled :
    (ref : String) (db : Db) (r : Reservation)
    → latest_with_ref ref db ≡ some r
    → latest_with_ref ref (put_reservation r.id cancel db) ≡ some (cancel r)
unfolding latest_with_ref
latest-cancelled ref db r h =
    let rows = select (has_ref ref) db.reservations.rows in
    let own : (r.id == r.id) ≡ true = (==_iff r.id r.id).1 refl in
    ap (λ rs. first (order_by newest_first rs)) (select-cancelled r.id ref db.reservations.rows)
    ∙ ap first (order_by-cancelled r.id rows)
    ∙ first-cancelled r.id (order_by newest_first rows) r h
    ∙ ap (λ b. some (if b then cancel r else r)) own

-- The reservation is stored and bears the reference, and all others that bear it are older.
pub record IsNewest (ref : String) (r : Reservation) (rs : List Reservation) : Type 0 where
  pub stored : In r rs
  pub bears : r.external_ref ≡ some ref
  pub newest :
      (x : Reservation)
      → In x rs
      → x.external_ref ≡ some ref
      → (x ≡ r) ⊎ (x.created_at < r.created_at)

abbrev IsOlder : Reservation → Reservation → Type 0
IsOlder r x = (x ≡ r) ⊎ (x.created_at < r.created_at)

first-insert_newest :
    (r : Reservation) (rs : List Reservation)
    → ((x : Reservation) → In x rs → IsOlder r x)
    → first (insert_by newest_first r rs) ≡ some r
first-insert_newest r [] older = refl
first-insert_newest r (x ∷ xs) older = elim (older x (inl refl)) [
  | inl e ↦ let t : newest_first r x ≡ true = ground arith in rw t refl
  | inr lt ↦ let t : newest_first r x ≡ true = ground arith in rw t refl
]

first-insert_older :
    (r x : Reservation) (rs : List Reservation)
    → IsOlder r x
    → first rs ≡ some r
    → first (insert_by newest_first x rs) ≡ some r
first-insert_older r x [] older h = cc
first-insert_older r x (y ∷ ys) older h =
    let e : y ≡ r = cc in
    elim (Bool-cases (newest_first x y)) [
      | inl t ↦ elim older [
        | inl same ↦ rw t (ap some same)
        | inr lt ↦ absurd (let t' : newest_first x r ≡ true = rw (← e) t in ground arith)
      ]
      | inr f ↦ rw f h
    ]

first-order_newest :
    (r : Reservation) (rs : List Reservation)
    → In r rs
    → ((x : Reservation) → In x rs → IsOlder r x)
    → first (order_by newest_first rs) ≡ some r
unfolding order_by
first-order_newest r [] m older = elim m [ ]
first-order_newest r (x ∷ xs) m older = elim m [
  | inl e ↦
      subst (λ y. first (insert_by newest_first y (order_by newest_first xs)) ≡ some r) e
        (first-insert_newest r (order_by newest_first xs)
          (λ y n. older y (inr (In-order_by newest_first y xs n))))
  | inr n ↦
      first-insert_older r x (order_by newest_first xs) (older x (inl refl))
        (first-order_newest r xs n (λ y i. older y (inr i)))
]

has_ref_iff :
    (ref : String) (r : Reservation) → (has_ref ref r ≡ true) ↔ (r.external_ref ≡ some ref)
has_ref_iff ref r = go r.external_ref
  where
    go :
        (o : Option String)
        → ((elim o [ none ↦ false | some other ↦ text_eq other ref ]) ≡ true) ↔ (o ≡ some ref)
    go none = ((λ h. cc), λ h. cc)
    go (some other) = (
      (λ h. ap some ((eq_iff other ref).0 h)),
      λ h. (eq_iff other ref).1 (let e : other ≡ ref = cc in e),
    )

latest-IsNewest :
    (ref : String) (db : Db) (r : Reservation)
    → IsNewest ref r db.reservations.rows
    → latest_with_ref ref db ≡ some r
unfolding latest_with_ref
latest-IsNewest ref db r n =
    let rows = db.reservations.rows in
    first-order_newest r (select (has_ref ref) rows)
      (In-select_of (has_ref ref) r rows n.stored ((has_ref_iff ref r).1 n.bears))
      (λ x m.
        let (i, h) = In-select (has_ref ref) x rows m in n.newest x i ((has_ref_iff ref x).0 h))

module _ (env : Env) (encrypt : String → String) (le : String → String → Bool)
    (accepts : Reservation → Bool) (parser : ReservationParser)
    (subject body content_type : String) where
  abbrev apply : Time → Session → Outcome Reservation × Session
  apply now = apply_cancellation_email env encrypt le accepts now parser subject body content_type

  apply-known :
      (now : Time) (s : Session) (parsed : ParsedReservation) (ref : String) (r : Reservation)
      → parser.parse subject body content_type ≡ returned parsed
      → parsed.external_ref ≡ some ref
      → truthy ref ≡ true
      → latest_with_ref ref s.current ≡ some r
      → apply now s
        ≡ (returned (cancel r), record s { current = put_reservation r.id cancel s.current })
  unfolding apply_cancellation_email
  apply-known now s parsed ref r p e t h = rw (p, e, t, h) refl

  -- If a cancellation email is parsed to a non-empty reference, a stored reservation bears it and
  -- all others that bear it are older, then the email is answered with that reservation, cancelled;
  -- the cancelled one is stored, no id is added or lost, and the reservations with other ids stay.
  -- Processed again, at any time, the email returns the same reservation and changes nothing.
  pub apply_cancellation_email-idempotent :
      (now later : Time) (s : Session) (parsed : ParsedReservation) (ref : String) (r : Reservation)
      → parser.parse subject body content_type ≡ returned parsed
      → parsed.external_ref ≡ some ref
      → truthy ref ≡ true
      → IsNewest ref r s.current.reservations.rows
      → let result =
          apply_cancellation_email env encrypt le accepts now parser subject body content_type s in
        let rows = result.1.current.reservations.rows in
        let cancelled_r = record r { status = ReservationStatus.cancelled } in
        (result.0 ≡ returned cancelled_r)
        × In cancelled_r rows
        × (map (λ r. r.id) rows ≡ map (λ r. r.id) s.current.reservations.rows)
        × ((x : Reservation) → In x s.current.reservations.rows → x.id ≢ r.id → In x rows)
        × (apply_cancellation_email env encrypt le accepts later parser subject body content_type
              result.1
            ≡ (returned cancelled_r, result.1))
  apply_cancellation_email-idempotent now later s parsed ref r p e t newest =
      let h = latest-IsNewest ref s.current r newest in
      let known = apply-known now s parsed ref r p e t h in
      let s1 = record s { current = put_reservation r.id cancel s.current } in
      let again =
        apply-known later s1 parsed ref (cancel r) p e t (latest-cancelled ref s.current r h) in
      let still : put_reservation r.id cancel s1.current ≡ s1.current =
        ap
          (λ rows. record s1.current {
            reservations = record s1.current.reservations { rows = rows };
          })
          (cancelled-twice r.id s.current.reservations.rows) in
      (
        ap (λ x. x.0) known,
        subst (λ x. In (cancel r) x.1.current.reservations.rows) (sym known)
            (In-update_self (λ r. r.id) r.id cancel r s.current.reservations.rows newest.stored
              refl),
        ap (λ x. map (λ r. r.id) x.1.current.reservations.rows) known
            ∙ cancelled-ids r.id s.current.reservations.rows,
        λ x m ne.
            subst (λ o. In x o.1.current.reservations.rows) (sym known)
              (In-update_of (λ r. r.id) r.id cancel x s.current.reservations.rows m ne),
        ap (λ x. apply later x.1) known
            ∙ again
            ∙ ap (λ db. (returned (cancel r), record s { current = db })) still
            ∙ ap (λ x. (returned (cancel r), x.1)) (sym known),
      )
