-- ===== src/Prelude/Lists.antt =====
-- Lists as Rust's `Vec` and its iterators use them, measured by native numbers.
use Prim.Native.Nat.{ℕ, zero, suc, ◌≤◌}
use mathlib.Core.Path.{◌≡◌, refl, sym, ap}
use mathlib.Core.Logic.{◌⊎◌, inl, inr}
use mathlib.Core.Bool.{Bool, true, false, ◌&&◌, ◌||◌}
use mathlib.Core.Option.{Option, none, some}
use mathlib.Core.List.{List, [], ◌∷◌, ◌++◌, map}
use native.Mathlib.Omega.{arith}
use mathlib.Core.Path.{subst}
use angularjs_lsp.Prelude.Tests.{if◌then◌else◌, Bool-cases, Option-cases}
use angularjs_lsp.Prelude.Equality.{Eq, ◌==◌, ==_sound}

module _ {ℓ} {A : Type ℓ} where
  abbrev pub length : List A → ℕ
  length [] = 0
  length (x ∷ xs) = suc (length xs)

  abbrev pub get_elem? : List A → ℕ → Option A
  get_elem? [] i = none
  get_elem? (x ∷ xs) zero = some x
  get_elem? (x ∷ xs) (suc i) = get_elem? xs i

  abbrev pub take : ℕ → List A → List A
  take zero xs = []
  take (suc n) [] = []
  take (suc n) (x ∷ xs) = x ∷ take n xs

  abbrev pub drop : ℕ → List A → List A
  drop zero xs = xs
  drop (suc n) [] = []
  drop (suc n) (x ∷ xs) = drop n xs

  abbrev pub get_last? : List A → Option A
  get_last? [] = none
  get_last? (x ∷ []) = some x
  get_last? (x ∷ y ∷ xs) = get_last? (y ∷ xs)

  -- `iter().any(p)`
  abbrev pub any : (A → Bool) → List A → Bool
  any p [] = false
  any p (x ∷ xs) = p x || any p xs

  -- `iter().all(p)`
  abbrev pub all : (A → Bool) → List A → Bool
  all p [] = true
  all p (x ∷ xs) = p x && all p xs

  -- `retain(p)`, and `iter().filter(p)`
  abbrev pub retain : (A → Bool) → List A → List A
  retain p [] = []
  retain p (x ∷ xs) = let rest = retain p xs in if p x then x ∷ rest else rest

  -- `iter().find(p)`, and a loop that returns at the first hit
  abbrev pub find : (A → Bool) → List A → Option A
  find p [] = none
  find p (x ∷ xs) = let rest = find p xs in if p x then some x else rest

  abbrev pub is_empty : List A → Bool
  is_empty [] = true
  is_empty (x ∷ xs) = false

  -- `iter().flat_map(f)`
  abbrev pub flat_map {κ} : {B : Type κ} → (A → List B) → List A → List B
  flat_map f [] = []
  flat_map f (x ∷ xs) = f x ++ flat_map f xs

  pub any-append : (p : A → Bool) (xs ys : List A) → any p (xs ++ ys) ≡ (any p xs || any p ys)
  any-append p [] ys = refl
  any-append p (x ∷ xs) ys = ground (arith, any-append p xs ys)

  pub retain-append :
      (p : A → Bool) (xs ys : List A) → retain p (xs ++ ys) ≡ retain p xs ++ retain p ys
  retain-append p [] ys = refl
  retain-append p (x ∷ xs) ys = ground (arith, retain-append p xs ys)

  pub retain-retain :
      (p q : A → Bool) (xs : List A) → retain p (retain q xs) ≡ retain (λ x. q x && p x) xs
  retain-retain p q [] = refl
  retain-retain p q (x ∷ xs) = ground (arith, retain-retain p q xs)

  pub retain_idem : (p : A → Bool) (xs : List A) → retain p (retain p xs) ≡ retain p xs
  retain_idem p [] = refl
  retain_idem p (x ∷ xs) = ground (arith, retain_idem p xs)

  pub length-retain-le : (p : A → Bool) (xs : List A) → length (retain p xs) ≤ length xs
  length-retain-le p [] = omega arith
  length-retain-le p (x ∷ xs) = ground (arith, length-retain-le p xs)

-- Being an element, by recursion, so that it computes to a sum.
module _ {A : Type 0} where
  abbrev pub In : A → List A → Type 0
  In a [] = ⊥
  In a (x ∷ xs) = (a ≡ x) ⊎ In a xs

  pub In-append_left : (a : A) (xs ys : List A) → In a xs → In a (xs ++ ys)
  In-append_left a [] ys h = absurd h
  In-append_left a (x ∷ xs) ys (inl e) = inl e
  In-append_left a (x ∷ xs) ys (inr h) = inr (In-append_left a xs ys h)

  pub In-append_right : (a : A) (xs ys : List A) → In a ys → In a (xs ++ ys)
  In-append_right a [] ys h = h
  In-append_right a (x ∷ xs) ys h = inr (In-append_right a xs ys h)

  pub In-append : (a : A) (xs ys : List A) → In a (xs ++ ys) → In a xs ⊎ In a ys
  In-append a [] ys h = inr h
  In-append a (x ∷ xs) ys (inl e) = inl (inl e)
  In-append a (x ∷ xs) ys (inr h) = elim (In-append a xs ys h) [
    | inl l ↦ inl (inr l)
    | inr r ↦ inr r
  ]

  -- An element of what is kept is an element that passes, and conversely.
  pub In-retain : (a : A) (p : A → Bool) (xs : List A) → In a (retain p xs) → In a xs × (p a ≡ true)
  In-retain a p [] h = absurd h
  In-retain a p (x ∷ xs) h = ground (arith, In-retain a p xs)

  pub retain-In : (a : A) (p : A → Bool) (xs : List A) → In a xs → p a ≡ true → In a (retain p xs)
  retain-In a p [] h pa = absurd h
  retain-In a p (x ∷ xs) (inl e) pa = rw (sym e, pa) (inl refl)
  retain-In a p (x ∷ xs) (inr h) pa = ground (arith, retain-In a p xs h pa)

  pub find-some : (p : A → Bool) (xs : List A) (a : A) → find p xs ≡ some a → In a xs × (p a ≡ true)
  find-some p [] a h = cc
  find-some p (x ∷ xs) a h = ground (arith, find-some p xs a)

  pub find-none : (p : A → Bool) (xs : List A) (a : A) → find p xs ≡ none → In a xs → p a ≡ false
  find-none p [] a h i = absurd i
  find-none p (x ∷ xs) a h (inl e) = ground arith
  find-none p (x ∷ xs) a h (inr i) = ground (arith, find-none p xs a)

  pub any-In : (p : A → Bool) (xs : List A) (a : A) → In a xs → p a ≡ true → any p xs ≡ true
  any-In p [] a h pa = absurd h
  any-In p (x ∷ xs) a (inl e) pa = ground arith
  any-In p (x ∷ xs) a (inr h) pa = ground (arith, any-In p xs a h pa)

  pub any_witness :
      (p : A → Bool) (xs : List A) → any p xs ≡ true → (a : A) × In a xs × (p a ≡ true)
  any_witness p [] h = cc
  any_witness p (x ∷ xs) h = elim (Bool-cases (p x)) [
    | inl px ↦ (x, inl refl, px)
    | inr npx ↦ let (a, i, pa) = any_witness p xs (ground arith) in (a, inr i, pa)
  ]

  pub any-false : (p : A → Bool) (xs : List A) (a : A) → any p xs ≡ false → In a xs → p a ≡ false
  any-false p [] a h i = absurd i
  any-false p (x ∷ xs) a h (inl e) = ground arith
  any-false p (x ∷ xs) a h (inr i) = ground (arith, any-false p xs a)

  pub any-none : (p : A → Bool) (xs : List A) → ((a : A) → In a xs → p a ≡ false) → any p xs ≡ false
  any-none p [] h = refl
  any-none p (x ∷ xs) h = ground (arith, h x (inl refl), any-none p xs (λ a i. h a (inr i)))

module _ {A B : Type 0} (f : A → List B) where
  pub In-flat_map : (b : B) (xs : List A) → In b (flat_map f xs) → (a : A) × In a xs × In b (f a)
  In-flat_map b [] h = absurd h
  In-flat_map b (x ∷ xs) h = elim (In-append b (f x) (flat_map f xs) h) [
    | inl l ↦ (x, inl refl, l)
    | inr r ↦ let (a, i, j) = In-flat_map b xs r in (a, inr i, j)
  ]

  pub flat_map-In : (b : B) (a : A) (xs : List A) → In a xs → In b (f a) → In b (flat_map f xs)
  flat_map-In b a [] h j = absurd h
  flat_map-In b a (x ∷ xs) (inl e) j = In-append_left b (f x) (flat_map f xs) (rw (← e) j)
  flat_map-In b a (x ∷ xs) (inr h) j =
      In-append_right b (f x) (flat_map f xs) (flat_map-In b a xs h j)

module _ {A B : Type 0} (f : A → B) where
  pub In-map : (b : B) (xs : List A) → In b (map f xs) → (a : A) × In a xs × (b ≡ f a)
  In-map b [] h = absurd h
  In-map b (x ∷ xs) (inl e) = (x, inl refl, e)
  In-map b (x ∷ xs) (inr h) = let (a, i, e) = In-map b xs h in (a, inr i, e)

  pub map-In : (a : A) (xs : List A) → In a xs → In (f a) (map f xs)
  map-In a [] h = absurd h
  map-In a (x ∷ xs) (inl e) = inl (ap f e)
  map-In a (x ∷ xs) (inr h) = inr (map-In a xs h)

-- `iter().filter_map(f)`, and a loop that pushes at most one element for each
module _ {A B : Type 0} (f : A → Option B) where
  unfoldable pub filter_map : List A → List B
  filter_map [] = []
  filter_map (x ∷ xs) = let rest = filter_map xs in elim (f x) [ none ↦ rest | some b ↦ b ∷ rest ]

  turn_none : (x : A) (xs : List A) → f x ≡ none → filter_map (x ∷ xs) ≡ filter_map xs
  unfolding filter_map
  turn_none x xs h = ground arith

  turn_some : (x : A) (xs : List A) (b : B) → f x ≡ some b → filter_map (x ∷ xs) ≡ b ∷ filter_map xs
  unfolding filter_map
  turn_some x xs b h = ground arith

  pub In-filter_map :
      (b : B) (xs : List A) → In b (filter_map xs) → (a : A) × In a xs × (f a ≡ some b)
  unfolding filter_map
  In-filter_map b [] h = absurd h
  In-filter_map b (x ∷ xs) h = elim (Option-cases (f x)) [
    | inl fx ↦
        let (a, i, e) = In-filter_map b xs (subst (In b) (turn_none x xs fx) h) in (a, inr i, e)
    | inr (c, fx) ↦ elim (subst (In b) (turn_some x xs c fx) h) [
      | inl e ↦ (x, inl refl, rw e fx)
      | inr i ↦ let (a, j, e) = In-filter_map b xs i in (a, inr j, e)
    ]
  ]

  pub filter_map-In : (a : A) (b : B) (xs : List A) → In a xs → f a ≡ some b → In b (filter_map xs)
  filter_map-In a b [] i e = absurd i
  filter_map-In a b (x ∷ xs) (inl p) e =
      subst (In b) (sym (turn_some x xs b (rw (← p) e))) (inl refl)
  filter_map-In a b (x ∷ xs) (inr i) e =
      let later = filter_map-In a b xs i e in
      elim (Option-cases (f x)) [
        | inl fx ↦ subst (In b) (sym (turn_none x xs fx)) later
        | inr (c, fx) ↦ subst (In b) (sym (turn_some x xs c fx)) (inr later)
      ]

-- Membership tests, and the sets that are kept as lists without repetition.
module _ {A : Type 0} ⦃e : Eq A⦄ where
  -- `contains(&a)`
  unfoldable pub contains : List A → A → Bool
  contains [] a = false
  contains (x ∷ xs) a = (x == a) || contains xs a

  -- `HashSet::insert`
  unfoldable pub set_insert : A → List A → List A
  set_insert a xs = if contains xs a then xs else xs ++ a ∷ []

  pub contains-In : (a : A) (xs : List A) → In a xs → contains xs a ≡ true
  unfolding contains
  contains-In a [] h = absurd h
  contains-In a (x ∷ xs) (inl p) = ground (arith, e.beq_iff x a)
  contains-In a (x ∷ xs) (inr h) = ground (arith, contains-In a xs h)

  pub In-of_contains : (a : A) (xs : List A) → contains xs a ≡ true → In a xs
  unfolding contains
  In-of_contains a [] h = absurd (cc)
  In-of_contains a (x ∷ xs) h = elim (Bool-cases (x == a)) [
    | inl p ↦ inl (sym (==_sound x a p))
    | inr n ↦ inr (In-of_contains a xs (ground arith))
  ]

  pub In-set_insert : (a b : A) (xs : List A) → In b xs → In b (set_insert a xs)
  unfolding set_insert
  In-set_insert a b xs h = elim (Bool-cases (contains xs a)) [
    | inl old ↦ rw old h
    | inr new ↦ rw new (In-append_left b xs (a ∷ []) h)
  ]

  pub In-set_insert_self : (a : A) (xs : List A) → In a (set_insert a xs)
  unfolding set_insert
  In-set_insert_self a xs = elim (Bool-cases (contains xs a)) [
    | inl old ↦ rw old (In-of_contains a xs old)
    | inr new ↦ rw new (In-append_right a xs (a ∷ []) (inl refl))
  ]

  pub set_insert-In : (a b : A) (xs : List A) → In b (set_insert a xs) → (b ≡ a) ⊎ In b xs
  unfolding set_insert
  set_insert-In a b xs h = elim (Bool-cases (contains xs a)) [
    | inl old ↦ inr (rw old at h)
    | inr new ↦ elim (In-append b xs (a ∷ []) (rw new at h)) [
      | inl l ↦ inr l
      | inr r ↦ inl (ground arith)
    ]
  ]

  -- No element stands twice.
  abbrev pub NoRepeat : List A → Type 0
  NoRepeat [] = Unit
  NoRepeat (x ∷ xs) = (contains xs x ≡ false) × NoRepeat xs

  contains-push :
      (x a : A) (xs : List A)
      → contains xs x ≡ false
      → (x == a) ≡ false
      → contains (xs ++ a ∷ []) x ≡ false
  unfolding contains
  contains-push x a [] h ne = ground (arith, e.beq_iff x a, e.beq_iff a x)
  contains-push x a (y ∷ xs) h ne = ground (arith, contains-push x a xs)

  NoRepeat-push :
      (a : A) (xs : List A) → NoRepeat xs → contains xs a ≡ false → NoRepeat (xs ++ a ∷ [])
  unfolding contains
  NoRepeat-push a [] h fresh = (refl, tt)
  NoRepeat-push a (x ∷ xs) h fresh =
      (contains-push x a xs (h.0) (ground arith), NoRepeat-push a xs (h.1) (ground arith))

  pub set_insert-NoRepeat : (a : A) (xs : List A) → NoRepeat xs → NoRepeat (set_insert a xs)
  unfolding set_insert
  set_insert-NoRepeat a xs h = elim (Bool-cases (contains xs a)) [
    | inl old ↦ rw old h
    | inr new ↦ rw new (NoRepeat-push a xs h new)
  ]
