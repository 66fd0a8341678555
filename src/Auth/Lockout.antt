-- ===== src/Auth/Lockout.antt =====
-- The lockout: how many PINs are tried against one row.
use resaprint.Base.{
  ℕ, ◌+◌, ◌*◌, ◌≤◌, ◌<◌, ◌≡◌, refl, ◌∙◌, ap, inl, inr, Bool, true, false, Option, none, some,
  String, List, [], ◌∷◌, map, arith, All, get, ◌==◌, Bool-cases, sym, ◌⊎◌, In, select, any, ==_iff,
  ltb, Option-cases,
}
use mathlib.Core.Option
use resaprint.Base.Lemmas.{any-In, In-select, In-map, get-In}
use resaprint.Models.{AdminPin, Time}
use resaprint.Database.{Session, returned}
use resaprint.Auth.Defs.{
  Settings, is_tested, reaches_threshold, penalize, after_failure, attempt_login, find_match,
}
use resaprint.Auth.Login.{attempt_login-failed, find_match-compares}

abbrev pub Attempt : Type 0
Attempt = Time × String

module _ (config : Settings) (verify : String → String → Bool) where
  abbrev pub after_attempt : Attempt → Session → Session
  after_attempt (now, pin) s = (attempt_login config verify now pin s).1

  -- Every attempt of the sequence fails.
  abbrev pub AllFail : List Attempt → Session → Type 0
  AllFail [] s = Unit
  AllFail ((now, pin) ∷ ats) s =
      ((attempt_login config verify now pin s).0 ≡ returned none)
      × AllFail ats (attempt_login config verify now pin s).1

  abbrev pub pin_row : ℕ → Session → Option AdminPin
  pin_row k s = get (λ p. p.id) k s.current.admin_pins.rows

  abbrev pub one_if : Bool → ℕ
  one_if true = 1
  one_if false = 0

  abbrev pub tested_row : Time → Option AdminPin → ℕ
  tested_row now none = 0
  tested_row now (some p) = one_if (is_tested now p)

  -- How many attempts of the sequence find the row active and unlocked.
  abbrev times_tested : ℕ → List Attempt → Session → ℕ
  times_tested k [] s = 0
  times_tested k ((now, pin) ∷ ats) s =
      tested_row now (pin_row k s) + times_tested k ats (attempt_login config verify now pin s).1

  after_failure-id : (now : Time) (p : AdminPin) → (after_failure config now p).id ≡ p.id
  unfolding after_failure penalize
  after_failure-id now p = ground arith

  get-map :
      (now : Time) (k : ℕ) (ps : List AdminPin) (p : AdminPin)
      → get (λ q. q.id) k ps ≡ some p
      → get (λ q. q.id) k (map (after_failure config now) ps) ≡ some (after_failure config now p)
  unfolding get after_failure
  get-map now k [] p h = cc
  get-map now k (q ∷ ps) p h = elim (Bool-cases (q.id == k)) [
    | inl t ↦
        let e : some q ≡ some p = rw t at h in
        rw (after_failure-id now q, t)
          (ap (λ (o : Option AdminPin). Option.map (after_failure config now) o) e)
    | inr f ↦
        let e : get (λ q. q.id) k ps ≡ some p = rw f at h in
        rw (after_failure-id now q, f) (get-map now k ps p e)
  ]

  pin_row-failure :
      (now : Time) (pin : String) (k : ℕ) (s : Session) (p : AdminPin)
      → (attempt_login config verify now pin s).0 ≡ returned none
      → pin_row k s ≡ some p
      → pin_row k (attempt_login config verify now pin s).1 ≡ some (after_failure config now p)
  pin_row-failure now pin k s p failed found =
      rw (attempt_login-failed config verify now pin s failed).1
        (get-map now k s.current.admin_pins.rows p found)

  after_failure_untested :
      (now : Time) (p : AdminPin) → is_tested now p ≡ false → after_failure config now p ≡ p
  unfolding after_failure
  after_failure_untested now p e = rw e

  after_failure-locks :
      (now : Time) (p : AdminPin)
      → is_tested now p ≡ true
      → reaches_threshold config p ≡ true
      → ((after_failure config now p).locked_until ≡ some (now + 60 * config.pin_lockout_minutes))
        × ((after_failure config now p).failed_attempts ≡ 0)
  unfolding after_failure penalize
  after_failure-locks now p t l = rw (t, l) (refl, refl)

  after_failure-counts :
      (now : Time) (p : AdminPin)
      → is_tested now p ≡ true
      → reaches_threshold config p ≡ false
      → (after_failure config now p).failed_attempts ≡ p.failed_attempts + 1
  unfolding after_failure penalize
  after_failure-counts now p t l = rw (t, l) refl

  module _ (k : ℕ) (start : Time) where
    -- The attempts fall in one period of the lockout's length.
    abbrev pub Within : List Attempt → Type 0
    Within = All (λ (now, _). (start ≤ now) × (now < start + 60 * config.pin_lockout_minutes))

    -- A row that is locked to the end of the period is not tested.
    locked-untested :
        (ats : List Attempt) (s : Session) (p : AdminPin) (t : Time)
        → AllFail ats s
        → Within ats
        → pin_row k s ≡ some p
        → p.locked_until ≡ some t
        → start + 60 * config.pin_lockout_minutes ≤ t
        → times_tested k ats s ≡ 0
    locked-untested [] s p t f b found locked h = refl
    locked-untested ((now, pin) ∷ ats) s p t (f, fs) (b, bs) found locked h =
        let untested : is_tested now p ≡ false = rw locked (ground arith) in
        let found' =
          pin_row-failure now pin k s p f found ∙ ap some (after_failure_untested now p untested) in
        let ih =
          locked-untested ats (attempt_login config verify now pin s).1 p t fs bs found' locked h in
        rw (found, untested) (omega (arith, ih))

    tested-le :
        (ats : List Attempt) (s : Session) (p : AdminPin)
        → AllFail ats s
        → Within ats
        → pin_row k s ≡ some p
        → p.failed_attempts < config.pin_lockout_threshold
        → times_tested k ats s + p.failed_attempts ≤ config.pin_lockout_threshold
    tested-le [] s p f b found h = omega arith
    tested-le ((now, pin) ∷ ats) s p (f, fs) (b, bs) found h =
        let found' = pin_row-failure now pin k s p f found in
        let s' = (attempt_login config verify now pin s).1 in
        elim (Bool-cases (is_tested now p)) [
          | inr untested ↦
              let ih =
                tested-le ats s' p fs bs (found' ∙ ap some (after_failure_untested now p untested))
                  h in
              rw (found, untested) (omega (arith, ih))
          | inl tested ↦ elim (Bool-cases (reaches_threshold config p)) [
            | inl locks ↦
                let (locked, _) = after_failure-locks now p tested locks in
                let none_left =
                  locked-untested ats s' (after_failure config now p) _ fs bs found' locked
                    (omega arith) in
                rw (found, tested, none_left) (omega arith)
            | inr counts ↦
                let more = after_failure-counts now p tested counts in
                let ih =
                  tested-le ats s' (after_failure config now p) fs bs found' (ground arith) in
                rw (found, tested) (omega arith)
          ]
        ]

module _ (config : Settings) (verify : String → String → Bool) (k : ℕ) where
  -- The rows that an attempt's calls of `verify_pin` are for.
  abbrev pub compared : Attempt → Session → List AdminPin
  compared (now, pin) s =
      (find_match config verify now pin (select (λ p. p.is_active) s.current.admin_pins.rows)).1

  -- How many attempts of the sequence call `verify_pin` with the hash of the row with the id.
  abbrev pub times_compared : List Attempt → Session → ℕ
  times_compared [] s = 0
  times_compared ((now, pin) ∷ ats) s =
      one_if config verify (any (λ p. p.id == k) (compared (now, pin) s))
      + times_compared ats (attempt_login config verify now pin s).1

  -- The ids are a primary key.
  abbrev pub HasKeys : Session → Type 0
  HasKeys s =
      (p q : AdminPin)
      → In p s.current.admin_pins.rows
      → In q s.current.admin_pins.rows
      → p.id ≡ q.id
      → p ≡ q

  HasKeys-failed :
      (now : Time) (pin : String) (s : Session)
      → (attempt_login config verify now pin s).0 ≡ returned none
      → HasKeys s
      → HasKeys (attempt_login config verify now pin s).1
  HasKeys-failed now pin s failed keys p q mp mq e =
      let rows = (attempt_login-failed config verify now pin s failed).1 in
      let f = after_failure config now in
      let (p0, ip, ep) = In-map f p s.current.admin_pins.rows (rw rows at mp) in
      let (q0, iq, eq) = In-map f q s.current.admin_pins.rows (rw rows at mq) in
      let same : p0.id ≡ q0.id =
        sym (after_failure-id config verify now p0)
        ∙ ap (λ x. x.id) (sym ep)
        ∙ e
        ∙ ap (λ x. x.id) eq
        ∙ after_failure-id config verify now q0 in
      ep ∙ ap f (keys p0 q0 ip iq same) ∙ sym eq

  compared-tested :
      (now : Time) (pin : String) (s : Session) (p : AdminPin)
      → HasKeys s
      → pin_row config verify k s ≡ some p
      → any (λ q. q.id == k) (compared (now, pin) s) ≡ true
      → is_tested now p ≡ true
  compared-tested now pin s p keys found h =
      let rows = s.current.admin_pins.rows in
      let (q, m, e) = any-In (λ q. q.id == k) (compared (now, pin) s) h in
      let (i, u) = find_match-compares config verify now pin (select (λ p. p.is_active) rows) q m in
      let (i', active) = In-select (λ p. p.is_active) q rows i in
      let (ip, same) = get-In (λ p. p.id) k p rows found in
      let id : q.id ≡ p.id = (==_iff q.id k).0 e ∙ sym same in
      rw (← keys q p i' ip id) (ground arith)

  times_compared-le :
      (ats : List Attempt) (s : Session) (p : AdminPin)
      → AllFail config verify ats s
      → HasKeys s
      → pin_row config verify k s ≡ some p
      → times_compared ats s ≤ times_tested config verify k ats s
  times_compared-le [] s p f keys found = omega arith
  times_compared-le ((now, pin) ∷ ats) s p (f, fs) keys found =
      let ih =
        times_compared-le ats (attempt_login config verify now pin s).1 (after_failure config now p)
          fs (HasKeys-failed now pin s f keys)
          (pin_row-failure config verify now pin k s p f found) in
      elim (Bool-cases (any (λ q. q.id == k) (compared (now, pin) s))) [
        | inl t ↦ rw (t, found, compared-tested now pin s p keys found t) (omega (arith, ih))
        | inr u ↦ rw u (omega (arith, ih))
      ]

-- In a sequence of failed logins that fall in one lockout period, if the ids of the users are
-- unique and the counter of a user is below the threshold at the start, then at most
-- `pin_lockout_threshold` of the logins call `verify_pin` with that user's hash.
pub times_compared-le_threshold :
    (config : Settings) (verify : String → String → Bool) (k : ℕ) (start : Time)
    (attempts : List Attempt) (s : Session) (p : AdminPin)
    → AllFail config verify attempts s
    → Within config verify k start attempts
    → HasKeys config verify k s
    → pin_row config verify k s ≡ some p
    → p.failed_attempts < config.pin_lockout_threshold
    → times_compared config verify k attempts s ≤ config.pin_lockout_threshold
times_compared-le_threshold config verify k start attempts s p failed within keys found h = omega (
  arith,
  tested-le config verify k start attempts s p failed within found h,
  times_compared-le config verify k attempts s p failed keys found,
)

module _ (config : Settings) (now : Time) (p : AdminPin) where
  -- The row can be logged in to: it is active, and a lock has ended.
  abbrev pub IsOpen : Type 0
  IsOpen = (p.is_active ≡ true) × ((t : Time) → p.locked_until ≡ some t → t ≤ now)

  abbrev pub IsShut : Type 0
  IsShut = (p.is_active ≡ false) ⊎ ((t : Time) × (p.locked_until ≡ some t) × (now < t))

  -- What one failed login makes of the row.
  abbrev pub IsCounted : AdminPin → Type 0
  IsCounted p' =
      (IsShut × (p' ≡ p))
      ⊎ ((IsOpen
            × (p.failed_attempts + 1 < config.pin_lockout_threshold)
            × (p' ≡ record p { failed_attempts = p.failed_attempts + 1 }))
          ⊎ (IsOpen
              × (config.pin_lockout_threshold ≤ p.failed_attempts + 1)
              × (p' ≡ record p {
                failed_attempts = 0;
                locked_until = some (now + 60 * config.pin_lockout_minutes);
              })))

  open-cases : (IsOpen × (is_tested now p ≡ true)) ⊎ (IsShut × (is_tested now p ≡ false))
  open-cases = elim (Bool-cases p.is_active) [
    | inr off ↦ inr (inl off, rw off refl)
    | inl on ↦ elim (Option-cases p.locked_until) [
      | inl unlocked ↦ inl ((on, λ t e. cc), rw (on, unlocked) refl)
      | inr (t, locked) ↦ elim (Bool-cases (ltb now t)) [
        | inl later ↦ inr (inr (t, locked, ground arith), rw (on, locked, later) refl)
        | inr over ↦ inl (
          (on, λ u e. let same : t ≡ u = cc in rw (← same) (ground arith)),
          rw (on, locked, over) refl,
        )
      ]
    ]
  ]

  after_failure-IsCounted : IsCounted (after_failure config now p)
  unfolding after_failure penalize
  after_failure-IsCounted = elim open-cases [
    | inr (shut, u) ↦ inl (shut, rw u refl)
    | inl (is_open, t) ↦ elim (Bool-cases (reaches_threshold config p)) [
      | inl reached ↦ inr (inr (is_open, ground arith, rw (t, reached) refl))
      | inr not_reached ↦ inr (inl (is_open, ground arith, rw (t, not_reached) refl))
    ]
  ]

-- A failed login is committed. Of the row that is found under an id, if it is inactive or locked,
-- nothing changes; otherwise its counter goes up by one, or, where that reaches the threshold, goes
-- back to zero and the row is locked for the lockout's length.
pub attempt_login-failure :
    (config : Settings) (verify : String → String → Bool) (now : Time) (pin : String) (s : Session)
    → (attempt_login config verify now pin s).0 ≡ returned none
    → let s' = (attempt_login config verify now pin s).1 in
      (s'.committed ≡ s'.current)
      × ((k : ℕ) (p : AdminPin)
          → pin_row config verify k s ≡ some p
          → (p' : AdminPin) × (pin_row config verify k s' ≡ some p') × IsCounted config now p p')
attempt_login-failure config verify now pin s failed = (
  (attempt_login-failed config verify now pin s failed).0,
  λ k p found. (
    after_failure config now p,
    pin_row-failure config verify now pin k s p failed found,
    after_failure-IsCounted config now p,
  ),
)
