-- ===== src/Database/Frame.antt =====
-- What a handler leaves alone: a view of the database that its steps keep. They may commit what the
-- session sees, but roll nothing back.
use resaprint.Base.{
  ◌≡◌, refl, sym, subst, ◌∙◌, ◌⊎◌, inl, inr, Bool, true, false, Option, none, some, if◌then◌else◌,
}
use resaprint.Database.State.{Db, Session}
use resaprint.Database.Monad.{
  Exception, Outcome, returned, raised, Action, pure, raise, gets, or_raise, and_then, ◌>>=◌, ◌>>◌,
  modify, commit, unless, handle, try_except,
}
use resaprint.Database.Hoare.{Holds, Post}

module _ {X : Type 0} (view : Db → X) where
  -- The session `t` after the session `s`.
  abbrev Kept : Session → Session → Type 0
  Kept s t =
      (view t.current ≡ view s.current)
      × ((view t.committed ≡ view s.committed) ⊎ (view t.committed ≡ view s.current))

  pub record Frames {A : Type 0} (m : Action A) : Type 0 where
    pub keeps : (s : Session) → Kept s (m s).1

  kept : (s : Session) → Kept s s
  kept s = (refl, inl refl)

  Kept-trans : (s t u : Session) → Kept s t → Kept t u → Kept s u
  Kept-trans s t u (e, c) (f, d) = (
    f ∙ e,
    (elim d [ inl g ↦ elim c [ inl h ↦ inl (g ∙ h) | inr h ↦ inr (g ∙ h) ] | inr g ↦ inr (g ∙ e) ]),
  )

Post-any : {A : Type 0} (r : Outcome A) → Post (λ _. Unit {0}) r
Post-any (returned a) = tt
Post-any (raised e) = tt

module _ {X : Type 0} {view : Db → X} where
  pub Frames-pure : {A : Type 0} (a : A) → Frames view (pure a)
  Frames-pure a = record { keeps = kept view }

  pub Frames-raise : {A : Type 0} (e : Exception) → Frames view (raise {A = A} e)
  Frames-raise e = record { keeps = kept view }

  pub Frames-gets : {A : Type 0} (f : Db → A) → Frames view (gets f)
  Frames-gets f = record { keeps = kept view }

  pub Frames-modify : (f : Db → Db) → ((db : Db) → view (f db) ≡ view db) → Frames view (modify f)
  Frames-modify f same = record { keeps = λ s. (same s.current, inl refl) }

  pub Frames-commit : Frames view commit
  Frames-commit = record { keeps = λ s. (refl, inr refl) }

  pub Frames-unless : (b : Bool) (e : Exception) → Frames view (unless b e)
  Frames-unless true e = Frames-pure tt
  Frames-unless false e = Frames-raise e

  pub Frames-or_raise : {A : Type 0} (o : Option A) (e : Exception) → Frames view (or_raise o e)
  Frames-or_raise none e = Frames-raise e
  Frames-or_raise (some a) e = Frames-pure a

  and_then-keeps :
      {A B : Type 0} (r : Outcome A) (f : A → Action B) (s : Session)
      → ((a : A) → Frames view (f a))
      → Kept view s (and_then r f s).1
  and_then-keeps (returned a) f s q = (q a).keeps s
  and_then-keeps (raised e) f s q = kept view s

  pub Frames-bind :
      {A B : Type 0} {m : Action A} {f : A → Action B}
      → Frames view m
      → ((a : A) → Frames view (f a))
      → Frames view (m >>= f)
  Frames-bind {m} {f} p q = record {
    keeps = λ s.
        Kept-trans view s (m s).1 (and_then (m s).0 f (m s).1).1 (p.keeps s)
          (and_then-keeps (m s).0 f (m s).1 q);
  }

  pub Frames-then :
      {A B : Type 0} {m : Action A} {n : Action B}
      → Frames view m
      → Frames view n
      → Frames view (m >> n)
  Frames-then p q = Frames-bind p (λ _. q)

  pub Frames-if :
      {A : Type 0} (b : Bool) {m n : Action A}
      → Frames view m
      → Frames view n
      → Frames view (if b then m else n)
  Frames-if true p q = p
  Frames-if false p q = q

  handle-keeps :
      {A : Type 0} (r : Outcome A) (h : Exception → Action A) (s : Session)
      → ((e : Exception) → Frames view (h e))
      → Kept view s (handle r h s).1
  handle-keeps (returned a) h s q = kept view s
  handle-keeps (raised e) h s q = (q e).keeps s

  pub Frames-try :
      {A : Type 0} {m : Action A} {h : Exception → Action A}
      → Frames view m
      → ((e : Exception) → Frames view (h e))
      → Frames view (try_except m h)
  Frames-try {m} {h} p q = record {
    keeps = λ s.
        Kept-trans view s (m s).1 (handle (m s).0 h (m s).1).1 (p.keeps s)
          (handle-keeps (m s).0 h (m s).1 q);
  }

  -- An invariant of the view is kept.
  pub Holds-Frames :
      {A : Type 0} (I : X → Type 0) (m : Action A)
      → Frames view m
      → Holds (λ db. I (view db)) (λ _. Unit {0}) m
  Holds-Frames I m p = record {
    after = λ s h k.
        let (e, c) = p.keeps s in
        (
          (elim c [ inl g ↦ subst I (sym g) h | inr g ↦ subst I (sym g) k ]),
          subst I (sym e) k,
          Post-any (m s).0,
        );
  }
