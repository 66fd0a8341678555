-- ===== src/AdminUi/Weeks.antt =====
-- The numbers of the walk-ins of a week.
use Prim.Native.String.{◌++◌ as append_text}
use resaprint.Base.{
  ℕ, suc, ◌+◌, ◌≡◌, refl, inl, inr, Bool, true, ◌&&◌, Option, some, String, List, [], ◌∷◌, ◌++◌, In,
  arith, length, select, leb, Bool-cases, ◌/◌, ◌≤◌, ◌==◌, ==_iff, ◌∙◌, text_eq, ap, false,
}
use resaprint.Base.Lemmas.{In-append_right}
use resaprint.Models.{Reservation, AdminPin, Date, Decimal, Time}
use resaprint.Database.{Session}
use resaprint.EmailIngest.{get_room}
use resaprint.AdminUi.Booking.{
  monday_of, is_walkin, count_walkins, WalkinForm, next_walkin_ref, id_of, walkin_reservation,
  create_walkin_action,
}

length-select_append :
    (p : Reservation → Bool) (rs : List Reservation) (r : Reservation)
    → p r ≡ true
    → length (select p (rs ++ r ∷ [])) ≡ suc (length (select p rs))
unfolding select
length-select_append p [] r h = rw h refl
length-select_append p (x ∷ rs) r h = elim (Bool-cases (p x)) [
  | inl t ↦ rw (t, length-select_append p rs r h) refl
  | inr f ↦ rw f (length-select_append p rs r h)
]

-- The weeks from Monday to Sunday, numbered; day 1 was a Monday.
abbrev pub week_of : Date → ℕ
week_of day = (day + 6) / 7

-- A reservation from the channel "01" whose guest arrives in the week.
abbrev pub is_walkin_of : ℕ → Reservation → Bool
is_walkin_of week r = text_eq r.source_channel "01" && week_of r.checkin == week

abbrev pub walkins_of : ℕ → List Reservation → ℕ
walkins_of week rs = length (select (is_walkin_of week) rs)

in_week_of :
    (today day : Date)
    → 1 ≤ today
    → (leb (monday_of today) day && leb day (monday_of today + 6)) ≡ (week_of day == week_of today)
in_week_of today day h = elim (Bool-cases (week_of day == week_of today)) [
  | inl t ↦
      let e = (==_iff (week_of day) (week_of today)).0 t in
      let low : leb (monday_of today) day ≡ true = ground arith in
      let high : leb day (monday_of today + 6) ≡ true = ground arith in rw (t, low, high) refl
  | inr f ↦ elim (Bool-cases (leb (monday_of today) day)) [
    | inr before ↦ rw (f, before) refl
    | inl low ↦ elim (Bool-cases (leb day (monday_of today + 6))) [
      | inr after ↦ rw (f, low, after) refl
      | inl high ↦ absurd (let e : week_of day ≡ week_of today = ground arith in ground arith)
    ]
  ]
]

is_walkin-week :
    (today : Date) (r : Reservation)
    → 1 ≤ today
    → is_walkin (monday_of today) r ≡ is_walkin_of (week_of today) r
is_walkin-week today r h = elim (Bool-cases (text_eq r.source_channel "01")) [
  | inl t ↦ rw t (in_week_of today r.checkin h)
  | inr f ↦ rw f refl
]

count_walkins_lem :
    (today : Date) (rs : List Reservation)
    → 1 ≤ today
    → length (select (is_walkin (monday_of today)) rs) ≡ walkins_of (week_of today) rs
unfolding select
count_walkins_lem today [] h = refl
count_walkins_lem today (r ∷ rs) h = elim (Bool-cases (is_walkin_of (week_of today) r)) [
  | inl t ↦
      let t' : is_walkin (monday_of today) r ≡ true = is_walkin-week today r h ∙ t in
      rw (t, t', count_walkins_lem today rs h) refl
  | inr f ↦
      let f' : is_walkin (monday_of today) r ≡ false = is_walkin-week today r h ∙ f in
      rw (f, f', count_walkins_lem today rs h) refl
]

module _ (decimal : String → Option Decimal) (ddmmyy : Date → String)
    (two_digits : ℕ → String) where
  -- If days are counted from one, then a walk-in is stored and committed with the room of the form,
  -- if there is such a room. It is one more of the walk-ins that arrive in the week, Monday to
  -- Sunday, of its day, and its reference is the day followed by the number of them, itself
  -- included.
  pub create_walkin_action-counts :
      (now : Time) (today : Date) (admin : AdminPin) (form : WalkinForm) (s : Session)
      → 1 ≤ today
      → let s' = (create_walkin_action decimal ddmmyy two_digits now today admin form s).1 in
        let walkins = λ (t : Session). walkins_of (week_of today) t.current.reservations.rows in
        (s'.committed ≡ s'.current)
        × (walkins s' ≡ suc (walkins s))
        × ((r : Reservation) × In r s'.current.reservations.rows
            × (r.external_ref ≡ some (append_text (ddmmyy today) (two_digits (walkins s'))))
            × (r.assigned_room_id
                ≡ id_of decimal ddmmyy two_digits (get_room s.current (some form.room_id))))
  unfolding create_walkin_action count_walkins walkin_reservation next_walkin_ref
  create_walkin_action-counts now today admin form s h =
      let rows = s.current.reservations.rows in
      let row =
        walkin_reservation decimal ddmmyy two_digits now today form
          (get_room s.current (some form.room_id))
          (next_walkin_ref decimal ddmmyy two_digits today s.current)
          s.current.reservations.next_id in
      let more : walkins_of (week_of today) (rows ++ row ∷ [])
          ≡ suc (walkins_of (week_of today) rows) =
        length-select_append (is_walkin_of (week_of today)) rows row
          ((==_iff (week_of today) (week_of today)).1 refl) in
      (
        refl,
        more,
        (
          row,
          In-append_right row rows (row ∷ []) (inl refl),
          ap (λ n. some (append_text (ddmmyy today) (two_digits n)))
              (let c = count_walkins_lem today rows h in
                let e : length (select (is_walkin (monday_of today)) rows) + 1
                    ≡ walkins_of (week_of today) (rows ++ row ∷ []) =
                  omega (arith, c, more) in
                e),
          refl,
        ),
      )
