-- ===== src/Controllers/Innermost.antt =====
-- The controller at a line is the last of the controllers there from the outside in.
use mathlib.Core.Option
use angularjs_lsp.Prelude.{
  ℕ, ◌≡◌, refl, sym, ◌∙◌, ap, ◌⊎◌, inl, inr, Bool, true, false, Option, none, some, List, [], ◌∷◌,
  map, arith, Eq, if◌then◌else◌, get_last?, retain, In, sort_by, insert_sorted, Sorted,
  sort_by-Sorted, Bool-cases, Option-cases,
}
use angularjs_lsp.DashMap
use angularjs_lsp.Model.Html.{HtmlControllerScope}
use angularjs_lsp.Controllers.{
  ControllerStore, covers, lies_within, narrower, innermost, outer_first,
  get_all_html_controller_scopes, get_html_controller_at, get_html_controllers_at,
}

module _ {Url : Type 0} where
  -- Of two scopes, one lies within the other: so elements of a document that share a line.
  abbrev pub AreNested : List (HtmlControllerScope Url) → Type 0
  AreNested xs =
      (a b : HtmlControllerScope Url)
      → In a xs
      → In b xs
      → (lies_within a b ≡ true) ⊎ (lies_within b a ≡ true)

  outer_first_trans :
      (a b c : HtmlControllerScope Url)
      → outer_first a b ≡ true
      → outer_first b c ≡ true
      → outer_first a c ≡ true
  outer_first_trans a b c p q = ground arith

  outer_first_total :
      (a b : HtmlControllerScope Url) → outer_first a b ≡ false → outer_first b a ≡ true
  outer_first_total a b p = ground arith

  -- Of nested scopes, one lies within the other exactly when it is not sorted before it.
  lies_within-outer_first :
      (a b : HtmlControllerScope Url)
      → (lies_within a b ≡ true) ⊎ (lies_within b a ≡ true)
      → lies_within a b ≡ outer_first b a
  lies_within-outer_first a b (inl p) = ground arith
  lies_within-outer_first a b (inr p) = ground arith

  -- The later of a scope and what a list ends with.
  later : HtmlControllerScope Url → Option (HtmlControllerScope Url) → HtmlControllerScope Url
  later b none = b
  later b (some m) = if outer_first b m then m else b

  Sorted-last :
      (x : HtmlControllerScope Url) (xs : List (HtmlControllerScope Url))
      (m : HtmlControllerScope Url)
      → Sorted outer_first (x ∷ xs)
      → get_last? (x ∷ xs) ≡ some m
      → outer_first x m ≡ true
  Sorted-last x [] m h e = ground arith
  Sorted-last x (y ∷ xs) m h e = outer_first_trans x y m h.0 (Sorted-last y xs m h.1 e)

  last-cons :
      (x : HtmlControllerScope Url) (xs : List (HtmlControllerScope Url))
      → (m : HtmlControllerScope Url) × (get_last? (x ∷ xs) ≡ some m)
  last-cons x [] = (x, refl)
  last-cons x (y ∷ xs) = last-cons y xs

  last-insert :
      (b : HtmlControllerScope Url) (xs : List (HtmlControllerScope Url))
      → Sorted outer_first xs
      → get_last? (insert_sorted outer_first b xs) ≡ some (later b (get_last? xs))
  unfolding insert_sorted later
  last-insert b [] h = refl
  last-insert b (x ∷ []) h = ground arith
  last-insert b (x ∷ y ∷ xs) h =
      let (m, e) = last-cons y xs in
      ground
        (arith, Sorted-last x (y ∷ xs) m h e, outer_first_trans b x m, last-insert b (y ∷ xs) h.1)

  innermost-retain :
      (test : HtmlControllerScope Url → Bool) (xs : List (HtmlControllerScope Url))
      (best : Option (HtmlControllerScope Url))
      → innermost test xs best ≡ innermost (λ _. true) (retain test xs) best
  unfolding innermost
  innermost-retain test [] best = refl
  innermost-retain test (x ∷ xs) best = elim (Bool-cases (test x)) [
    | inl p ↦ rw p (innermost-retain test xs (narrower best x))
    | inr n ↦ rw n (innermost-retain test xs best)
  ]

  later_inner :
      (b x : HtmlControllerScope Url) (m : Option (HtmlControllerScope Url))
      → outer_first b x ≡ true
      → later b (some (later x m)) ≡ later x m
  unfolding later
  later_inner b x none h = ground arith
  later_inner b x (some m) h = ground (arith, outer_first_trans b x m)

  later_outer :
      (b x : HtmlControllerScope Url) (m : Option (HtmlControllerScope Url))
      → outer_first b x ≡ false
      → later b (some (later x m)) ≡ later b m
  unfolding later
  later_outer b x none h = ground arith
  later_outer b x (some m) h =
      ground (arith, outer_first_total b x h, outer_first_trans x b m, outer_first_trans b m x)

  -- With a best match at hand, the loop ends with it or with what the sorted rest ends with.
  innermost-later :
      (b : HtmlControllerScope Url) (xs : List (HtmlControllerScope Url))
      → AreNested (b ∷ xs)
      → innermost (λ _. true) xs (some b) ≡ some (later b (get_last? (sort_by outer_first xs)))
  unfolding innermost sort_by later
  innermost-later b [] h = refl
  innermost-later b (x ∷ xs) h = elim (Bool-cases (lies_within x b)) [
    | inl inner ↦
        rw
          (
            inner,
            last-insert x (sort_by outer_first xs)
                (sort_by-Sorted outer_first outer_first_total xs),
          )
          (innermost-later x xs (λ a c i j. h a c (inr i) (inr j))
            ∙ ap some (
                sym (
                  later_inner b x (get_last? (sort_by outer_first xs))
                    (sym (nested x b h) ∙ inner))))
    | inr outer ↦
        rw
          (
            outer,
            last-insert x (sort_by outer_first xs)
                (sort_by-Sorted outer_first outer_first_total xs),
          )
          (innermost-later b xs (λ a c i j. h a c (skip a i) (skip c j))
            ∙ ap some (
                sym (
                  later_outer b x (get_last? (sort_by outer_first xs))
                    (sym (nested x b h) ∙ outer))))
  ]
    where
      nested :
          (x b : HtmlControllerScope Url)
          → AreNested (b ∷ x ∷ xs)
          → lies_within x b ≡ outer_first b x
      nested x b h = lies_within-outer_first x b (h x b (inr (inl refl)) (inl refl))

      skip : (a : HtmlControllerScope Url) → In a (b ∷ xs) → In a (b ∷ x ∷ xs)
      skip a (inl e) = inl e
      skip a (inr i) = inr (inr i)

  -- The loop and the sorted list agree on the last scope.
  innermost-last :
      (xs : List (HtmlControllerScope Url))
      → AreNested xs
      → innermost (λ _. true) xs none ≡ get_last? (sort_by outer_first xs)
  unfolding innermost sort_by
  innermost-last [] h = refl
  innermost-last (x ∷ xs) h =
      innermost-later x xs h
      ∙ sym
          (last-insert x (sort_by outer_first xs) (sort_by-Sorted outer_first outer_first_total xs))

last-map :
    {A B : Type 0} (f : A → B) (xs : List A) → get_last? (map f xs) ≡ Option.map f (get_last? xs)
last-map f [] = refl
last-map f (x ∷ []) = refl
last-map f (x ∷ y ∷ xs) = last-map f (y ∷ xs)

module _ {Url : Type 0} ⦃e : Eq Url⦄ where
  at-innermost :
      (s : ControllerStore Url) (uri : Url) (line : ℕ)
      → get_html_controller_at s uri line
        ≡ Option.map
            (λ scope. scope.controller_name)
            (innermost (covers line) (DashMap.get_or uri [] s.html_controller_scopes) none)
  unfolding get_html_controller_at
  at-innermost s uri line = elim (Option-cases (DashMap.get uri s.html_controller_scopes)) [
    | inl miss ↦ rw (miss, get_html_controller_at)
    | inr (scopes, hit) ↦ rw (hit, get_html_controller_at)
  ]

  all_at-sort :
      (s : ControllerStore Url) (uri : Url) (line : ℕ)
      → get_html_controllers_at s uri line
        ≡ map
            (λ scope. scope.controller_name)
            (sort_by outer_first
              (retain (covers line) (DashMap.get_or uri [] s.html_controller_scopes)))
  unfolding get_html_controllers_at
  all_at-sort s uri line = elim (Option-cases (DashMap.get uri s.html_controller_scopes)) [
    | inl miss ↦ rw (miss, get_html_controllers_at)
    | inr (scopes, hit) ↦ rw (hit, get_html_controllers_at)
  ]

  -- Where the scopes that cover a line are nested in one another, the controller at the line is
  -- the last of the controllers at the line listed from the outside in, and none if there are
  -- none.
  pub get_html_controller_at-last :
      (s : ControllerStore Url) (uri : Url) (line : ℕ)
      → AreNested (retain (covers line) (get_all_html_controller_scopes s uri))
      → get_html_controller_at s uri line ≡ get_last? (get_html_controllers_at s uri line)
  unfolding get_all_html_controller_scopes
  get_html_controller_at-last s uri line h =
      let name = λ (scope : HtmlControllerScope Url). scope.controller_name in
      let scopes = DashMap.get_or uri [] s.html_controller_scopes in
      at-innermost s uri line
      ∙ ap (Option.map name) (
          innermost-retain (covers line) scopes none
          ∙ innermost-last (retain (covers line) scopes) h)
      ∙ sym (
          ap get_last? (all_at-sort s uri line)
          ∙ last-map name (sort_by outer_first (retain (covers line) scopes)))
