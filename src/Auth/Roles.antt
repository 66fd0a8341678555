-- ===== src/Auth/Roles.antt =====
-- The guards of the JSON routes and those of the pages.
use resaprint.Base.{
  ℕ, ◌≡◌, refl, inl, inr, true, ◌&&◌, Option, none, some, String, List, [], ◌∷◌, arith, In, ◌==◌,
  AtMostOne, no_row, one_row, many_rows, at_most_one, if◌then◌else◌, Bool-cases, Option-cases,
}
use resaprint.Base.Lemmas.{In-select}
use resaprint.Models.{AdminPin}
use resaprint.Database.{
  Db, Session, Outcome, returned, raised, Exception, http_error, not_authenticated_html,
  forbidden_html, and_then,
}
use resaprint.Auth.Defs.{active_pins_with_id}
use resaprint.Auth.Guards.{
  is_admin, one_or, read_session_token, require_admin_session, require_admin_session_html,
  require_admin_role, require_admin_role_html,
}

-- A query for at most one row that returned one.
module _ {A : Type 0} where
  pub at_most_one-one_row : (ps : List A) (p : A) → at_most_one ps ≡ one_row p → In p ps
  at_most_one-one_row [] p h = cc
  at_most_one-one_row (q ∷ []) p h = inl (cc)
  at_most_one-one_row (q ∷ r ∷ ps) p h = cc

  pub one_or-returned :
      (e : Exception) (rows : AtMostOne A) (s : Session) (p : A)
      → (one_or e rows s).0 ≡ returned p
      → rows ≡ one_row p
  one_or-returned e no_row s p h = cc
  one_or-returned e (one_row q) s p h = cc
  one_or-returned e many_rows s p h = cc

-- 401 becomes the redirect to the login page, 403 the one to the dashboard.
abbrev pub html_exception : Exception → Exception
html_exception (http_error status detail) =
    if status == 403 then forbidden_html else not_authenticated_html
html_exception e = e

abbrev pub html_outcome : {A : Type 0} → Outcome A → Outcome A
html_outcome (returned a) = returned a
html_outcome (raised e) = raised (html_exception e)

In-active_pins_with_id :
    (k : ℕ) (db : Db) (p : AdminPin)
    → In p (active_pins_with_id k db)
    → In p db.admin_pins.rows × (p.id ≡ k) × (p.is_active ≡ true)
unfolding active_pins_with_id
In-active_pins_with_id k db p m =
    let (row, e) = In-select (λ p. p.id == k && p.is_active) p db.admin_pins.rows m in
    (row, ground arith, ground arith)

role-returned :
    (r : Outcome AdminPin) (s : Session) (p : AdminPin)
    → (and_then r
        (λ admin.
          if is_admin admin.role
          then (λ t. (returned admin, t))
          else (λ t. (raised (http_error 403 "admin role required"), t)))
        s).0
      ≡ returned p
    → (r ≡ returned p) × (is_admin p.role ≡ true)
role-returned (raised e) s p h = absurd (cc)
role-returned (returned q) s p h = elim (Bool-cases (is_admin q.role)) [
  | inl t ↦ let e : returned q ≡ returned p = rw t at h in let e' : q ≡ p = cc in (e, rw (← e') t)
  | inr f ↦
      let c : raised (http_error 403 "admin role required") ≡ returned p = rw f at h in absurd (cc)
]

module _ (loads : String → Option (Option ℕ)) where
  read_session_token_sound :
      (token : String) (k : ℕ)
      → read_session_token loads token ≡ some k
      → loads token ≡ some (some k)
  unfolding read_session_token
  read_session_token_sound token k h = ground arith

  session_html_lem :
      (cookie : Option String) (s : Session)
      → require_admin_session_html loads cookie s
        ≡ (html_outcome (require_admin_session loads cookie s).0, s)
  unfolding require_admin_session require_admin_session_html
  session_html_lem none s = refl
  session_html_lem (some cookie) s = elim (Option-cases (read_session_token loads cookie)) [
    | inl e ↦ rw (e, require_admin_session, require_admin_session_html)
    | inr (k, e) ↦
        rw (e, require_admin_session, require_admin_session_html)
          (found k (at_most_one (active_pins_with_id k s.current)))
  ]
    where
      found :
          (k : ℕ) (rows : AtMostOne AdminPin)
          → one_or not_authenticated_html rows s
            ≡ (html_outcome (one_or (http_error 401 "session no longer valid") rows s).0, s)
      found k no_row = refl
      found k (one_row p) = refl
      found k many_rows = refl

  session_keeps :
      (cookie : Option String) (s : Session) → (require_admin_session loads cookie s).1 ≡ s
  unfolding require_admin_session
  session_keeps none s = refl
  session_keeps (some cookie) s = elim (Option-cases (read_session_token loads cookie)) [
    | inl e ↦ rw (e, require_admin_session)
    | inr (k, e) ↦
        rw (e, require_admin_session) (found (at_most_one (active_pins_with_id k s.current)))
  ]
    where
      found :
          (rows : AtMostOne AdminPin)
          → (one_or (http_error 401 "session no longer valid") rows s).1 ≡ s
      found no_row = refl
      found (one_row p) = refl
      found many_rows = refl

  -- The guard of the admin pages decides as the guard of the admin routes: it returns the same row,
  -- redirects to the login where that answers 401, and to the dashboard where it answers 403.
  pub require_admin_role_html-agrees :
      (cookie : Option String) (s : Session)
      → require_admin_role_html loads cookie s
        ≡ (html_outcome (require_admin_role loads cookie s).0, s)
  unfolding require_admin_role require_admin_role_html
  require_admin_role_html-agrees cookie s =
      rw (session_html_lem cookie s)
        (step (require_admin_session loads cookie s).0 (require_admin_session loads cookie s).1)
    where
      step :
          (r : Outcome AdminPin) (s' : Session)
          → and_then
              (html_outcome r)
              (λ admin.
                if is_admin admin.role
                then (λ t. (returned admin, t))
                else (λ t. (raised forbidden_html, t)))
              s
            ≡ (
              html_outcome
                  (and_then r
                    (λ admin.
                      if is_admin admin.role
                      then (λ t. (returned admin, t))
                      else (λ t. (raised (http_error 403 "admin role required"), t)))
                    s').0,
              s,
            )
      step (returned p) s' = elim (Bool-cases (is_admin p.role)) [ inl t ↦ rw t | inr f ↦ rw f ]
      step (raised e) s' = refl

  -- Whom a session's token names, the row of whom is active.
  abbrev pub Authenticated : Option String → Session → AdminPin → Type 0
  Authenticated cookie s p =
      (token : String) × (cookie ≡ some token)
      × (loads token ≡ some (some p.id))
      × In p s.current.admin_pins.rows
      × (p.is_active ≡ true)

  session-Authenticated :
      (cookie : Option String) (s : Session) (p : AdminPin)
      → (require_admin_session loads cookie s).0 ≡ returned p
      → Authenticated cookie s p
  unfolding require_admin_session
  session-Authenticated none s p h = cc
  session-Authenticated (some token) s p h = elim (Option-cases (read_session_token loads token)) [
    | inl e ↦
        let c : raised (http_error 401 "invalid or expired session") ≡ returned p =
          rw (e, require_admin_session) at h in
        cc
    | inr (k, e) ↦
        let one =
          one_or-returned (http_error 401 "session no longer valid")
            (at_most_one (active_pins_with_id k s.current)) s p
            (rw (e, require_admin_session) at h) in
        let m = at_most_one-one_row (active_pins_with_id k s.current) p one in named k e m
  ]
    where
      named :
          (k : ℕ)
          → read_session_token loads token ≡ some k
          → In p (active_pins_with_id k s.current)
          → Authenticated (some token) s p
      named k e m =
          let (row, same, active) = In-active_pins_with_id k s.current p m in
          (token, refl, rw same (read_session_token_sound token k e), row, active)

  -- A row that the guard of the admin routes returns is active, has the role admin, and bears the
  -- id that the cookie's token names.
  pub require_admin_role_sound :
      (cookie : Option String) (s : Session) (p : AdminPin)
      → (require_admin_role loads cookie s).0 ≡ returned p
      → Authenticated cookie s p × (is_admin p.role ≡ true)
  unfolding require_admin_role
  require_admin_role_sound cookie s p h =
      let (same, role) =
        role-returned (require_admin_session loads cookie s).0
          (require_admin_session loads cookie s).1 p h in
      (session-Authenticated cookie s p same, role)
