-- ===== src/Prelude/Sorting.antt =====
-- `sort_by`: a stable sort, by insertion. `le a b` is `cmp(a, b) != Greater`.
use mathlib.Core.Path.{◌≡◌}
use mathlib.Core.Logic.{◌⊎◌, inl, inr}
use mathlib.Core.Bool.{Bool, true, false}
use mathlib.Core.List.{List, [], ◌∷◌}
use native.Mathlib.Omega.{arith}
use angularjs_lsp.Prelude.Tests.{if◌then◌else◌}
use angularjs_lsp.Prelude.Lists.{In}

module _ {A : Type 0} (le : A → A → Bool) where
  -- before the first element that is not smaller
  unfoldable pub insert_sorted : A → List A → List A
  insert_sorted a [] = a ∷ []
  insert_sorted a (x ∷ xs) =
      let rest = insert_sorted a xs in if le a x then a ∷ x ∷ xs else x ∷ rest

  unfoldable pub sort_by : List A → List A
  unfolding insert_sorted
  sort_by [] = []
  sort_by (x ∷ xs) = insert_sorted x (sort_by xs)

  -- No element stands before one that it follows in the order.
  abbrev pub Sorted : List A → Type 0
  Sorted [] = Unit
  Sorted (x ∷ []) = Unit
  Sorted (x ∷ y ∷ xs) = (le x y ≡ true) × Sorted (y ∷ xs)

  pub In-insert_sorted : (a b : A) (xs : List A) → In b (insert_sorted a xs) → (b ≡ a) ⊎ In b xs
  unfolding insert_sorted
  In-insert_sorted a b [] h = h
  In-insert_sorted a b (x ∷ xs) h = ground (arith, In-insert_sorted a b xs)

  pub insert_sorted-In : (a b : A) (xs : List A) → (b ≡ a) ⊎ In b xs → In b (insert_sorted a xs)
  unfolding insert_sorted
  insert_sorted-In a b [] h = h
  insert_sorted-In a b (x ∷ xs) h = ground (arith, insert_sorted-In a b xs)

  -- Sorting keeps the elements.
  pub In-sort_by : (b : A) (xs : List A) → In b (sort_by xs) → In b xs
  unfolding sort_by
  In-sort_by b [] h = h
  In-sort_by b (x ∷ xs) h = ground (arith, In-insert_sorted x b (sort_by xs) h, In-sort_by b xs)

  pub sort_by-In : (b : A) (xs : List A) → In b xs → In b (sort_by xs)
  unfolding sort_by
  sort_by-In b [] h = h
  sort_by-In b (x ∷ xs) h =
      insert_sorted-In x b (sort_by xs) (elim h [ inl e ↦ inl e | inr i ↦ inr (sort_by-In b xs i) ])

  module _ (total : (a b : A) → le a b ≡ false → le b a ≡ true) where
    pub insert_sorted-Sorted : (a : A) (xs : List A) → Sorted xs → Sorted (insert_sorted a xs)
    unfolding insert_sorted
    insert_sorted-Sorted a [] h = tt
    insert_sorted-Sorted a (x ∷ []) h = ground (arith, total a x)
    insert_sorted-Sorted a (x ∷ y ∷ xs) h =
        ground (arith, total a x, insert_sorted-Sorted a (y ∷ xs) h.1)

    pub sort_by-Sorted : (xs : List A) → Sorted (sort_by xs)
    unfolding sort_by
    sort_by-Sorted [] = tt
    sort_by-Sorted (x ∷ xs) = insert_sorted-Sorted x (sort_by xs) (sort_by-Sorted xs)
