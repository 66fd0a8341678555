-- ===== src/Auth/Login.antt =====
-- Which logins succeed, and what a failed one changes.
use resaprint.Base.{
  ◌≡◌, refl, ap, inl, inr, Bool, true, false, ◌&&◌, none, some, String, List, [], ◌∷◌, map, arith,
  In, select, Bool-cases, Option-cases,
}
use resaprint.Base.Lemmas.{In-select, In-select_of}
use resaprint.Models.{AdminPin, Time}
use resaprint.Database.{Session, Table, returned}
use resaprint.Auth.Defs.{
  Settings, is_locked, is_tested, reaches_threshold, after_failure, after_success, log_locked_out,
  find_match, succeed, fail, finish_login, attempt_login,
}

module _ (config : Settings) (verify : String → String → Bool) (now : Time) where
  find_match_sound :
      (pin : String) (ps : List AdminPin) (p : AdminPin)
      → (find_match config verify now pin ps).0 ≡ some p
      → In p ps × (is_locked now p ≡ false) × (verify pin p.pin_hash ≡ true)
  unfolding find_match
  find_match_sound pin [] p h = cc
  find_match_sound pin (q ∷ ps) p h = elim (Bool-cases (is_locked now q)) [
    | inl locked ↦ let (m, u, v) = find_match_sound pin ps p (rw locked at h) in (inr m, u, v)
    | inr unlocked ↦ elim (Bool-cases (verify pin q.pin_hash)) [
      | inl fits ↦
          let e : some q ≡ some p = rw (unlocked, fits) at h in
          let e' : p ≡ q = cc in (inl e', rw e' unlocked, rw e' fits)
      | inr other ↦
          let (m, u, v) = find_match_sound pin ps p (rw (unlocked, other) at h) in (inr m, u, v)
    ]
  ]

  find_match_complete :
      (pin : String) (ps : List AdminPin) (p : AdminPin)
      → In p ps
      → is_locked now p ≡ false
      → verify pin p.pin_hash ≡ true
      → (q : AdminPin) × ((find_match config verify now pin ps).0 ≡ some q)
  unfolding find_match
  find_match_complete pin [] p m u v = elim m [ ]
  find_match_complete pin (q ∷ ps) p m u v = elim (Bool-cases (is_locked now q)) [
    | inl locked ↦ elim m [
      | inl e ↦ let c : is_locked now p ≡ true = rw e locked in absurd (cc)
      | inr m' ↦ let (x, e) = find_match_complete pin ps p m' u v in (x, rw locked e)
    ]
    | inr unlocked ↦ elim (Bool-cases (verify pin q.pin_hash)) [
      | inl fits ↦ (q, rw (unlocked, fits))
      | inr other ↦ elim m [
        | inl e ↦ let c : verify pin p.pin_hash ≡ false = rw e other in absurd (cc)
        | inr m' ↦ let (x, e) = find_match_complete pin ps p m' u v in (x, rw (unlocked, other) e)
      ]
    ]
  ]

  -- A row whose hash is compared is an unlocked candidate.
  pub find_match-compares :
      (pin : String) (ps : List AdminPin) (p : AdminPin)
      → In p (find_match config verify now pin ps).1
      → In p ps × (is_locked now p ≡ false)
  unfolding find_match
  find_match-compares pin [] p m = elim m [ ]
  find_match-compares pin (q ∷ ps) p m = elim (Bool-cases (is_locked now q)) [
    | inl locked ↦ let (i, u) = find_match-compares pin ps p (rw locked at m) in (inr i, u)
    | inr unlocked ↦ elim (Bool-cases (verify pin q.pin_hash)) [
      | inl fits ↦
          let m' : In p (q ∷ []) = rw (unlocked, fits) at m in
          elim m' [ inl e ↦ (inl e, rw e unlocked) | inr n ↦ elim n [ ] ]
      | inr other ↦
          let m' : In p (q ∷ (find_match config verify now pin ps).1) = rw (unlocked, other) at m in
          elim m' [
            | inl e ↦ (inl e, rw e unlocked)
            | inr n ↦ let (i, u) = find_match-compares pin ps p n in (inr i, u)
          ]
    ]
  ]

  -- Logging the lockouts touches neither the pins nor what is committed.
  log_locked_out-keeps :
      (ps : List AdminPin) (s : Session)
      → let (r, s') = log_locked_out config now ps s in
        (r ≡ returned tt) × (s'.current.admin_pins ≡ s.current.admin_pins)
  unfolding log_locked_out
  log_locked_out-keeps [] s = (refl, refl)
  log_locked_out-keeps (p ∷ ps) s =
      elim (Bool-cases (is_tested now p && reaches_threshold config p)) [
        | inl t ↦ rw t (log_locked_out-keeps ps _)
        | inr f ↦ rw f (log_locked_out-keeps ps s)
      ]

  -- What a failed login leaves behind.
  fail_lem :
      (candidates : List AdminPin) (s : Session)
      → let (r, s') = fail config verify now candidates s in
        (r ≡ returned none)
        × (s'.committed ≡ s'.current)
        × (s'.current.admin_pins.rows ≡ map (after_failure config now) s.current.admin_pins.rows)
  unfolding fail
  fail_lem candidates s =
      let penalized : Session = record s {
        current = record s.current {
          admin_pins = record s.current.admin_pins {
            rows = map (after_failure config now) s.current.admin_pins.rows;
          };
        };
      } in
      let (e, kept) = log_locked_out-keeps candidates penalized in
      rw e (refl, refl, ap (λ (t : Table AdminPin). t.rows) kept)

  module _ (pin : String) (s : Session) where
    abbrev candidates : List AdminPin
    candidates = select (λ p. p.is_active) s.current.admin_pins.rows

    attempt_login-match :
        (p : AdminPin)
        → (find_match config verify now pin candidates).0 ≡ some p
        → attempt_login config verify now pin s ≡ succeed config verify now p s
    unfolding attempt_login finish_login
    attempt_login-match p e = rw e

    attempt_login-no_match :
        (find_match config verify now pin candidates).0 ≡ none
        → attempt_login config verify now pin s ≡ fail config verify now candidates s
    unfolding attempt_login finish_login
    attempt_login-no_match e = rw e

    succeed_lem :
        (p : AdminPin) → (succeed config verify now p s).0 ≡ returned (some (after_success now p))
    unfolding succeed
    succeed_lem p = refl

    -- A row that `attempt_login` returns is an active PIN that was not locked and that the entered
    -- PIN fits, with its counter and its lock reset and the login dated.
    pub attempt_login_sound :
        (q : AdminPin)
        → (attempt_login config verify now pin s).0 ≡ returned (some q)
        → (p : AdminPin) × In p s.current.admin_pins.rows
          × (is_tested now p ≡ true)
          × (verify pin p.pin_hash ≡ true)
          × (q ≡ after_success now p)
    attempt_login_sound q h = elim (Option-cases (find_match config verify now pin candidates).0) [
      | inl e ↦
          let h' : (fail config verify now candidates s).0 ≡ returned (some q) =
            rw (attempt_login-no_match e) at h in
          absurd (cc (fail_lem candidates s).0)
      | inr (p, e) ↦
          let (m, u, v) = find_match_sound pin candidates p e in
          let (m', active) = In-select (λ p. p.is_active) p s.current.admin_pins.rows m in
          let h' : (succeed config verify now p s).0 ≡ returned (some q) =
            rw (attempt_login-match p e) at h in
          (p, m', ground arith, v, cc (succeed_lem p))
    ]

    -- If the PIN fits an active row that is not locked, then `attempt_login` returns a row: the
    -- login succeeds.
    pub attempt_login_complete :
        (p : AdminPin)
        → In p s.current.admin_pins.rows
        → is_tested now p ≡ true
        → verify pin p.pin_hash ≡ true
        → (q : AdminPin) × ((attempt_login config verify now pin s).0 ≡ returned (some q))
    attempt_login_complete p m t v =
        let m' = In-select_of (λ p. p.is_active) p s.current.admin_pins.rows m (ground arith) in
        let (q, e) = find_match_complete pin candidates p m' (ground arith) v in
        (after_success now q, rw (attempt_login-match q e) (succeed_lem q))

    -- A failed login is committed, and each row of an active PIN that is not locked is replaced by
    -- the one after a failure, the others kept.
    pub attempt_login-failed :
        (attempt_login config verify now pin s).0 ≡ returned none
        → let s' = (attempt_login config verify now pin s).1 in
          (s'.committed ≡ s'.current)
          × (s'.current.admin_pins.rows ≡ map (after_failure config now) s.current.admin_pins.rows)
    attempt_login-failed h = elim (Option-cases (find_match config verify now pin candidates).0) [
      | inl e ↦
          let (_, durable, rows) = fail_lem candidates s in
          rw (attempt_login-no_match e) (durable, rows)
      | inr (p, e) ↦
          let h' : (succeed config verify now p s).0 ≡ returned none =
            rw (attempt_login-match p e) at h in
          absurd (cc (succeed_lem p))
    ]
