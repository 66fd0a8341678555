-- ===== src/Database/Total.antt =====
-- Handlers that never raise.
use resaprint.Base.{◌≡◌, refl, ◌∙◌, ap, Bool, true, false, ◌⊎◌, inl, inr, if◌then◌else◌}
use resaprint.Database.State.{Db, Session}
use resaprint.Database.Monad.{
  Exception, Outcome, returned, raised, Action, pure, gets, and_then, ◌>>=◌, ◌>>◌, modify, commit,
  rollback, try_except,
}

-- The handler never raises.
pub record Returns {A : Type 0} (m : Action A) : Type 0 where
  pub result : (s : Session) → (a : A) × ((m s).0 ≡ returned a)

pub Returns-pure : {A : Type 0} (a : A) → Returns (pure a)
Returns-pure a = record { result = λ s. (a, refl) }

pub Returns-bind :
    {A B : Type 0} {m : Action A} {f : A → Action B}
    → Returns m
    → ((a : A) → Returns (f a))
    → Returns (m >>= f)
Returns-bind {m} {f} p q = record {
  result = λ s.
      let (a, e) = p.result s in
      let (b, h) = (q a).result (m s).1 in (b, ap (λ r. (and_then r f (m s).1).0) e ∙ h);
}

pub Returns-then :
    {A B : Type 0} {m : Action A} {n : Action B} → Returns m → Returns n → Returns (m >> n)
Returns-then p q = Returns-bind p (λ _. q)

pub Returns-gets : {A : Type 0} (f : Db → A) → Returns (gets f)
Returns-gets f = record { result = λ s. (f s.current, refl) }

pub Returns-modify : (f : Db → Db) → Returns (modify f)
Returns-modify f = record { result = λ s. (tt, refl) }

pub Returns-commit : Returns commit
Returns-commit = record { result = λ s. (tt, refl) }

pub Returns-rollback : Returns rollback
Returns-rollback = record { result = λ s. (tt, refl) }

pub Returns-if :
    {A : Type 0} (b : Bool) {m n : Action A} → Returns m → Returns n → Returns (if b then m else n)
Returns-if true p q = p
Returns-if false p q = q

pub Outcome-cases :
    {A : Type 0} (r : Outcome A) → ((a : A) × (r ≡ returned a)) ⊎ ((e : Exception) × (r ≡ raised e))
Outcome-cases (returned a) = inl (a, refl)
Outcome-cases (raised e) = inr (e, refl)

pub Returns-try :
    {A : Type 0} (m : Action A) (h : Exception → Action A)
    → ((e : Exception) → Returns (h e))
    → Returns (try_except m h)
Returns-try m h p = record {
  result = λ s. elim (Outcome-cases (m s).0) [
    | inl (a, e) ↦ (a, rw (try_except, e) refl)
    | inr (x, e) ↦ rw (try_except, e) ((p x).result (m s).1)
  ];
}
