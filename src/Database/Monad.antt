-- ===== src/Database/Monad.antt =====
-- A handler: it reads and changes the session, and returns or raises.
use resaprint.Base.{ℕ, ◌≡◌, refl, ap, Bool, true, false, Option, none, some, String}
use resaprint.Database.State.{Db, Session}

pub data Exception : Type 0 where
  -- HTTPException(status_code, detail)
  http_error : (status : ℕ) (detail : String) → Exception
  -- The two exceptions of backend/app/exceptions.py.
  not_authenticated_html : Exception
  forbidden_html : Exception
  -- A violated NOT NULL or UNIQUE constraint.
  integrity_error : Exception
  -- `scalar_one_or_none` on several rows.
  multiple_results_found : Exception
  -- services/parser_registry.py
  parser_error : (message : String) → Exception
  -- Any other exception, with its text.
  other_error : (message : String) → Exception

pub data Outcome (A : Type 0) : Type 0 where
  returned : A → Outcome A
  raised : Exception → Outcome A

abbrev pub Action : Type 0 → Type 0
Action A = Session → Outcome A × Session

module _ {A : Type 0} where
  abbrev pub pure : A → Action A
  pure a s = (returned a, s)

  abbrev pub raise : Exception → Action A
  raise e s = (raised e, s)

  abbrev pub gets : (Db → A) → Action A
  gets f s = (returned (f s.current), s)

  -- The value, or the exception where it is missing.
  abbrev pub or_raise : Option A → Exception → Action A
  or_raise none e = raise e
  or_raise (some a) e = pure a

abbrev pub and_then : {A B : Type 0} → Outcome A → (A → Action B) → Action B
and_then (returned a) f = f a
and_then (raised e) f = raise e

infixl 5 ◌>>=◌ ◌>>◌
abbrev pub ◌>>=◌ : {A B : Type 0} → Action A → (A → Action B) → Action B
◌>>=◌ m f s = let (r, s') = m s in and_then r f s'

abbrev pub ◌>>◌ : {A B : Type 0} → Action A → Action B → Action B
m >> k = m >>= λ _. k

abbrev pub modify : (Db → Db) → Action (Unit {0})
modify f s = (returned tt, record s { current = f s.current })

abbrev pub commit : Action (Unit {0})
commit s = (returned tt, record { committed = s.current; current = s.current })

abbrev pub rollback : Action (Unit {0})
rollback s = (returned tt, record { committed = s.committed; current = s.committed })

abbrev pub unless : Bool → Exception → Action (Unit {0})
unless true e = pure tt
unless false e = raise e

-- `if c: body`
abbrev pub when : Bool → Action (Unit {0}) → Action (Unit {0})
when true m = m
when false m = pure tt

abbrev pub handle : {A : Type 0} → Outcome A → (Exception → Action A) → Action A
handle (returned a) h = pure a
handle (raised e) h = h e

-- `try: body` / `except Exception as exc: handler exc`
abbrev pub try_except : {A : Type 0} → Action A → (Exception → Action A) → Action A
try_except m h s = let (r, s') = m s in handle r h s'

-- `get_db`: a request has its own session, which is closed behind it.
unfoldable pub request : {A : Type 0} → Action A → Db → Outcome A × Db
request m db = let (r, s) = m (record { committed = db; current = db }) in (r, s.committed)

and_then-returned :
    {A B : Type 0} (r : Outcome A) (f : A → Action B) (s : Session) {b : B}
    → (and_then r f s).0 ≡ returned b
    → (a : A) × (r ≡ returned a) × (and_then r f s ≡ f a s)
and_then-returned (returned a) f s h = (a, refl, refl)
and_then-returned (raised e) f s h = absurd (cc)

-- A chain that returns returned at its first step, and goes on from there.
pub >>=-returned :
    {A B : Type 0} (m : Action A) (f : A → Action B) (s : Session) {b : B}
    → ((m >>= f) s).0 ≡ returned b
    → (a : A) × ((m s).0 ≡ returned a) × ((m >>= f) s ≡ f a (m s).1)
>>=-returned m f s h = and_then-returned (m s).0 f (m s).1 h

-- Steps whose result is known.
pub >>=-step :
    {A B : Type 0} (m : Action A) (f : A → Action B) (s s' : Session) (a : A)
    → m s ≡ (returned a, s')
    → (m >>= f) s ≡ f a s'
>>=-step m f s s' a e = ap (λ r. and_then r.0 f r.1) e

pub >>=-raised :
    {A B : Type 0} (m : Action A) (f : A → Action B) (s s' : Session) (x : Exception)
    → m s ≡ (raised x, s')
    → (m >>= f) s ≡ (raised x, s')
>>=-raised m f s s' x e = ap (λ r. and_then r.0 f r.1) e

pub try_except-raised :
    {A : Type 0} (m : Action A) (h : Exception → Action A) (s s' : Session) (x : Exception)
    → m s ≡ (raised x, s')
    → try_except m h s ≡ h x s'
try_except-raised m h s s' x e = ap (λ r. handle r.0 h r.1) e

pub try_except-returned :
    {A : Type 0} (m : Action A) (h : Exception → Action A) (s s' : Session) (a : A)
    → m s ≡ (returned a, s')
    → try_except m h s ≡ (returned a, s')
try_except-returned m h s s' a e = ap (λ r. handle r.0 h r.1) e
