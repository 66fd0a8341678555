-- ===== src/Base/Lemmas.antt =====
-- What the queries over rows return, row by row.
use mathlib.Core.Path.{◌≡◌, refl, ap}
use mathlib.Core.Logic.{◌≢◌, ◌⊎◌, inl, inr}
use mathlib.Core.Bool.{Bool, true, not}
use mathlib.Core.Option.{none, some}
use mathlib.Core.List.{List, [], ◌∷◌, ◌++◌, map}
use Prim.Native.Nat.{ℕ, ◌<◌}
use native.Mathlib.Omega.{arith}
use resaprint.Base.Tests.{◌==◌, ==_iff, Bool-cases}
use resaprint.Base.Rows.{In, All, select, first, insert_by, order_by, any, get, update, delete}

module _ {A : Type 0} where
  pub In-append_left : (a : A) (xs ys : List A) → In a xs → In a (xs ++ ys)
  In-append_left a [] ys h = elim h [ ]
  In-append_left a (x ∷ xs) ys h = elim h [ inl e ↦ inl e | inr m ↦ inr (In-append_left a xs ys m) ]

  pub In-append_right : (a : A) (xs ys : List A) → In a ys → In a (xs ++ ys)
  In-append_right a [] ys h = h
  In-append_right a (x ∷ xs) ys h = inr (In-append_right a xs ys h)

  pub In-append : (a : A) (xs ys : List A) → In a (xs ++ ys) → In a xs ⊎ In a ys
  In-append a [] ys h = inr h
  In-append a (x ∷ xs) ys h = elim h [
    | inl e ↦ inl (inl e)
    | inr m ↦ elim (In-append a xs ys m) [ inl l ↦ inl (inr l) | inr r ↦ inr r ]
  ]

  pub In-select : (p : A → Bool) (a : A) (xs : List A) → In a (select p xs) → In a xs × (p a ≡ true)
  unfolding select
  In-select p a [] h = elim h [ ]
  In-select p a (x ∷ xs) h = elim (Bool-cases (p x)) [
    | inl yes_p ↦ ground (arith, In-select p a xs)
    | inr no_p ↦ ground (arith, In-select p a xs)
  ]

  pub In-select_of :
      (p : A → Bool) (a : A) (xs : List A) → In a xs → p a ≡ true → In a (select p xs)
  unfolding select
  In-select_of p a [] h e = elim h [ ]
  In-select_of p a (x ∷ xs) h e = elim (Bool-cases (p x)) [
    | inl yes_p ↦ ground (arith, In-select_of p a xs)
    | inr no_p ↦ ground (arith, In-select_of p a xs)
  ]

  pub In-insert_by :
      (le : A → A → Bool) (a x : A) (xs : List A) → In a (insert_by le x xs) → In a (x ∷ xs)
  In-insert_by le a x [] h = h
  In-insert_by le a x (y ∷ ys) h = elim (Bool-cases (le x y)) [
    | inl t ↦ ground arith
    | inr f ↦ ground (arith, In-insert_by le a x ys)
  ]

  pub In-insert_by_of :
      (le : A → A → Bool) (a x : A) (xs : List A) → In a (x ∷ xs) → In a (insert_by le x xs)
  In-insert_by_of le a x [] h = h
  In-insert_by_of le a x (y ∷ ys) h = elim (Bool-cases (le x y)) [
    | inl t ↦ ground arith
    | inr f ↦ ground (arith, In-insert_by_of le a x ys)
  ]

  pub In-order_by : (le : A → A → Bool) (a : A) (xs : List A) → In a (order_by le xs) → In a xs
  unfolding order_by
  In-order_by le a [] h = h
  In-order_by le a (x ∷ xs) h = elim (In-insert_by le a x (order_by le xs) h) [
    | inl e ↦ inl e
    | inr m ↦ inr (In-order_by le a xs m)
  ]

  pub In-order_by_of : (le : A → A → Bool) (a : A) (xs : List A) → In a xs → In a (order_by le xs)
  unfolding order_by
  In-order_by_of le a [] h = h
  In-order_by_of le a (x ∷ xs) h =
      In-insert_by_of le a x (order_by le xs)
        (elim h [ inl e ↦ inl e | inr m ↦ inr (In-order_by_of le a xs m) ])

  pub first-In : (a : A) (xs : List A) → first xs ≡ some a → In a xs
  first-In a [] h = cc
  first-In a (x ∷ xs) h = ground arith

  pub first-none : (a : A) (xs : List A) → first xs ≡ none → ¬ In a xs
  first-none a [] h = λ m. m
  first-none a (x ∷ xs) h = cc

  pub any-In : (p : A → Bool) (xs : List A) → any p xs ≡ true → (a : A) × In a xs × (p a ≡ true)
  unfolding any
  any-In p [] h = cc
  any-In p (x ∷ xs) h = elim (Bool-cases (p x)) [
    | inl t ↦ (x, inl refl, t)
    | inr f ↦ let (a, m, e) = any-In p xs (ground arith) in (a, inr m, e)
  ]

  pub any_of-In : (p : A → Bool) (a : A) (xs : List A) → In a xs → p a ≡ true → any p xs ≡ true
  unfolding any
  any_of-In p a [] h e = elim h [ ]
  any_of-In p a (x ∷ xs) h e = ground (arith, any_of-In p a xs)

  module _ (key_of : A → ℕ) (k : ℕ) where
    pub get-In : (a : A) (xs : List A) → get key_of k xs ≡ some a → In a xs × (key_of a ≡ k)
    unfolding get
    get-In a [] h = cc
    get-In a (x ∷ xs) h = ground (arith, get-In a xs)

    pub In-update :
        (f : A → A) (a : A) (xs : List A)
        → In a (update key_of k f xs)
        → (In a xs × (key_of a ≢ k)) ⊎ ((x : A) × In x xs × (key_of x ≡ k) × (a ≡ f x))
    unfolding update
    In-update f a [] h = elim h [ ]
    In-update f a (x ∷ xs) h = elim h [
      | inl e ↦ elim (Bool-cases (key_of x == k)) [
        | inl same ↦ inr (x, inl refl, ground arith, ground arith)
        | inr other ↦ inl (ground arith, ground arith)
      ]
      | inr m ↦ elim (In-update f a xs m) [
        | inl (m', ne) ↦ inl (inr m', ne)
        | inr (y, m', e, e') ↦ inr (y, inr m', e, e')
      ]
    ]

    pub In-delete : (a : A) (xs : List A) → In a (delete key_of k xs) → In a xs × (key_of a ≢ k)
    unfolding delete
    In-delete a xs h = ground (arith, In-select (λ x. not (key_of x == k)) a xs)

module _ {A : Type 0} where
  pub All-append : (P : A → Type 0) (xs ys : List A) → All P xs → All P ys → All P (xs ++ ys)
  All-append P [] ys h k = k
  All-append P (x ∷ xs) ys h k = (h.0, All-append P xs ys h.1 k)

  pub All-map :
      (P : A → Type 0) (f : A → A) (xs : List A)
      → ((x : A) → P x → P (f x))
      → All P xs
      → All P (map f xs)
  All-map P f [] keep h = tt
  All-map P f (x ∷ xs) keep h = (keep x h.0, All-map P f xs keep h.1)

  pub All-In : (P : A → Type 0) (xs : List A) (a : A) → All P xs → In a xs → P a
  All-In P [] a h m = elim m [ ]
  All-In P (x ∷ xs) a h m = elim m [ inl e ↦ rw e h.0 | inr n ↦ All-In P xs a h.1 n ]

  pub All-imp : (P Q : A → Type 0) (xs : List A) → ((x : A) → P x → Q x) → All P xs → All Q xs
  All-imp P Q [] f h = tt
  All-imp P Q (x ∷ xs) f h = (f x h.0, All-imp P Q xs f h.1)

  module _ (key_of : A → ℕ) (k : ℕ) where
    pub All-update :
        (P : A → Type 0) (f : A → A) (xs : List A)
        → ((x : A) → P x → key_of x ≡ k → P (f x))
        → All P xs
        → All P (update key_of k f xs)
    unfolding update
    All-update P f [] keep h = tt
    All-update P f (x ∷ xs) keep h = elim (Bool-cases (key_of x == k)) [
      | inl t ↦ rw t (keep x h.0 ((==_iff _ _).0 t), All-update P f xs keep h.1)
      | inr g ↦ rw g (h.0, All-update P f xs keep h.1)
    ]

    -- A row with a new key is found, and is the one that an assignment changes.
    pub get-append_new :
        (xs : List A) (x : A)
        → All (λ y. key_of y < k) xs
        → key_of x ≡ k
        → get key_of k (xs ++ x ∷ []) ≡ some x
    unfolding get
    get-append_new [] x h e = ground arith
    get-append_new (y ∷ ys) x h e = ground (arith, get-append_new ys x h.1 e)

    pub update-append_new :
        (f : A → A) (xs : List A) (x : A)
        → All (λ y. key_of y < k) xs
        → key_of x ≡ k
        → update key_of k f (xs ++ x ∷ []) ≡ xs ++ f x ∷ []
    unfolding update
    update-append_new f [] x h e = rw ((==_iff _ _).1 e) refl
    update-append_new f (y ∷ ys) x h e = elim (Bool-cases (key_of y == k)) [
      | inl t ↦ absurd (ground arith)
      | inr g ↦ rw (g, update-append_new f ys x h.1 e)
    ]

module _ {A : Type 0} (key_of : A → ℕ) (k : ℕ) where
  -- A row with another key, and the changed row, are there after an assignment.
  pub In-update_of :
      (f : A → A) (a : A) (xs : List A) → In a xs → key_of a ≢ k → In a (update key_of k f xs)
  unfolding update
  In-update_of f a [] m ne = elim m [ ]
  In-update_of f a (x ∷ xs) m ne = elim m [
    | inl e ↦ inl (ground arith)
    | inr n ↦ inr (In-update_of f a xs n ne)
  ]

  pub In-update_self :
      (f : A → A) (a : A) (xs : List A) → In a xs → key_of a ≡ k → In (f a) (update key_of k f xs)
  unfolding update
  In-update_self f a [] m e = elim m [ ]
  In-update_self f a (x ∷ xs) m e = elim m [
    | inl same ↦ inl (ground arith)
    | inr n ↦ inr (In-update_self f a xs n e)
  ]

  pub In-delete_of : (a : A) (xs : List A) → In a xs → key_of a ≢ k → In a (delete key_of k xs)
  unfolding delete
  In-delete_of a xs m ne = In-select_of (λ x. not (key_of x == k)) a xs m (ground arith)

  pub All-delete : (P : A → Type 0) (xs : List A) → All P xs → All P (delete key_of k xs)
  unfolding delete select
  All-delete P [] h = tt
  All-delete P (x ∷ xs) h = elim (Bool-cases (key_of x == k)) [
    | inl t ↦ rw t (All-delete P xs h.1)
    | inr f ↦ rw f (h.0, All-delete P xs h.1)
  ]

  -- The changed row is found under its key.
  pub get-update :
      (f : A → A)
      → ((x : A) → key_of (f x) ≡ key_of x)
      → (xs : List A) (a : A) → get key_of k xs ≡ some a
      → get key_of k (update key_of k f xs) ≡ some (f a)
  unfolding get update
  get-update f keeps [] a h = absurd (cc)
  get-update f keeps (x ∷ xs) a h = elim (Bool-cases (key_of x == k)) [
    | inl t ↦ let same : x ≡ a = ground arith in rw (t, keeps x, t, same) refl
    | inr g ↦
        let h' : get key_of k xs ≡ some a = rw g at h in rw (g, g) (get-update f keeps xs a h')
  ]

pub In-map :
    {A B : Type 0} (f : A → B) (b : B) (xs : List A)
    → In b (map f xs)
    → (a : A) × In a xs × (b ≡ f a)
In-map f b [] m = elim m [ ]
In-map f b (x ∷ xs) m = elim m [
  | inl e ↦ (x, inl refl, e)
  | inr n ↦ let (a, i, e) = In-map f b xs n in (a, inr i, e)
]

pub In-map_of : {A B : Type 0} (f : A → B) (a : A) (xs : List A) → In a xs → In (f a) (map f xs)
In-map_of f a [] m = elim m [ ]
In-map_of f a (x ∷ xs) m = elim m [ inl e ↦ inl (ap f e) | inr n ↦ inr (In-map_of f a xs n) ]
