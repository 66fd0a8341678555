-- ===== src/Database/Hoare.antt =====
-- A logic for handlers: an invariant of the database that every step keeps, in what is committed
-- and in what the session sees, and what is known of a value that is returned.
use resaprint.Base.{Bool, true, false, Option, none, some, ◌≡◌, refl, if◌then◌else◌}
use resaprint.Database.State.{Db, Session}
use resaprint.Database.Monad.{
  Exception, Outcome, returned, raised, Action, pure, raise, gets, or_raise, and_then, ◌>>=◌, ◌>>◌,
  modify, commit, rollback, handle, try_except, request,
}

abbrev pub Post : {A : Type 0} → (A → Type 0) → Outcome A → Type 0
Post P (returned a) = P a
Post P (raised e) = Unit

pub record Holds (I : Db → Type 0) {A : Type 0} (P : A → Type 0) (m : Action A) : Type 0 where
  pub after :
      (s : Session)
      → I s.committed
      → I s.current
      → I (m s).1.committed × I (m s).1.current × Post P (m s).0

module _ {I : Db → Type 0} where
  pub Holds-pure : {A : Type 0} {P : A → Type 0} (a : A) → P a → Holds I P (pure a)
  Holds-pure a p = record { after = λ s h k. (h, k, p) }

  pub Holds-raise : {A : Type 0} {P : A → Type 0} (e : Exception) → Holds I P (raise {A = A} e)
  Holds-raise e = record { after = λ s h k. (h, k, tt) }

  pub Holds-gets :
      {A : Type 0} {P : A → Type 0} (f : Db → A)
      → ((db : Db) → I db → P (f db))
      → Holds I P (gets f)
  Holds-gets f p = record { after = λ s h k. (h, k, p s.current k) }

  pub Holds-modify :
      (f : Db → Db) → ((db : Db) → I db → I (f db)) → Holds I (λ _. Unit {0}) (modify f)
  Holds-modify f p = record { after = λ s h k. (h, p s.current k, tt) }

  pub Holds-commit : Holds I (λ _. Unit {0}) commit
  Holds-commit = record { after = λ s h k. (k, k, tt) }

  pub Holds-rollback : Holds I (λ _. Unit {0}) rollback
  Holds-rollback = record { after = λ s h k. (h, h, tt) }

  Holds-and_then :
      {A B : Type 0} {P : A → Type 0} {Q : B → Type 0} (r : Outcome A) (f : A → Action B)
      → Post P r
      → ((a : A) → P a → Holds I Q (f a))
      → (s : Session) → I s.committed
      → I s.current
      → I (and_then r f s).1.committed × I (and_then r f s).1.current × Post Q (and_then r f s).0
  Holds-and_then (returned a) f p q s h k = (q a p).after s h k
  Holds-and_then (raised e) f p q s h k = (h, k, tt)

  pub Holds-bind :
      {A B : Type 0} {P : A → Type 0} {Q : B → Type 0} {m : Action A} {f : A → Action B}
      → Holds I P m
      → ((a : A) → P a → Holds I Q (f a))
      → Holds I Q (m >>= f)
  Holds-bind {P} {m} {f} p q = record {
    after = λ s h k.
        let (h', k', post) = p.after s h k in Holds-and_then {P = P} (m s).0 f post q (m s).1 h' k';
  }

  pub Holds-then :
      {A B : Type 0} {P : A → Type 0} {Q : B → Type 0} {m : Action A} {n : Action B}
      → Holds I P m
      → Holds I Q n
      → Holds I Q (m >> n)
  Holds-then p q = Holds-bind p (λ _ _. q)

  pub Holds-if :
      {A : Type 0} {P : A → Type 0} (b : Bool) {m n : Action A}
      → (b ≡ true → Holds I P m)
      → (b ≡ false → Holds I P n)
      → Holds I P (if b then m else n)
  Holds-if true p q = p refl
  Holds-if false p q = q refl

  pub Holds-or_raise :
      {A : Type 0} {P : A → Type 0} (o : Option A) (e : Exception)
      → ((a : A) → o ≡ some a → P a)
      → Holds I P (or_raise o e)
  Holds-or_raise none e p = Holds-raise e
  Holds-or_raise (some a) e p = Holds-pure a (p a refl)

  Holds-handle :
      {A : Type 0} {P : A → Type 0} (r : Outcome A) (h : Exception → Action A)
      → Post P r
      → ((e : Exception) → Holds I P (h e))
      → Holds I P (handle r h)
  Holds-handle (returned a) h p q = Holds-pure a p
  Holds-handle (raised e) h p q = q e

  pub Holds-try :
      {A : Type 0} {P : A → Type 0} {m : Action A} {h : Exception → Action A}
      → Holds I P m
      → ((e : Exception) → Holds I P (h e))
      → Holds I P (try_except m h)
  Holds-try {m} {h} p q = record {
    after = λ s k l.
        let (k', l', post) = p.after s k l in (Holds-handle (m s).0 h post q).after (m s).1 k' l';
  }

  -- A request keeps the invariant of what is stored, also where it raises.
  pub Holds-request :
      {A : Type 0} {P : A → Type 0} (m : Action A) (db : Db)
      → Holds I P m
      → I db
      → I (request m db).1
  unfolding request
  Holds-request m db p h = (p.after (record { committed = db; current = db }) h h).0
