-- ===== src/Index/Models.antt =====
-- src/index/query.rs: the `ng-model` that a property of a scope comes from.
use angularjs_lsp.Prelude.{
  ◌≡◌, refl, sym, ap, inl, inr, Bool, true, false, ◌&&◌, some, List, [], ◌∷◌, arith, Eq, ◌==◌,
  nat_eq, list_eq, list_beq_iff, ==_sound, find, any, In, In-sort_by, sort_by-In, sort_by, Sorted,
  sort_by-Sorted, find-some, Bool-cases, &&-eq-true, any_witness, any-In,
}
use mathlib.Core.Path.{subst}
use angularjs_lsp.Text.{Str}
use angularjs_lsp.Model.Html.{HtmlNgModelTarget}
use angularjs_lsp.Html.References.{get_ng_model_targets_for_uri}
use angularjs_lsp.Index.{Index}
use angularjs_lsp.Index.SymbolNames.{ng_model_target_tail}
use angularjs_lsp.Index.References.{
  begins_first, target_controllers, find_ng_model_implicit_def_target,
}

module _ {Url : Type 0} where
  begins_first_total :
      (a b : HtmlNgModelTarget Url) → begins_first a b ≡ false → begins_first b a ≡ true
  begins_first_total a b h = ground arith

  begins_first_refl : (a : HtmlNgModelTarget Url) → begins_first a a ≡ true
  begins_first_refl a = ground arith

  begins_first_trans :
      (a b c : HtmlNgModelTarget Url)
      → begins_first a b ≡ true
      → begins_first b c ≡ true
      → begins_first a c ≡ true
  begins_first_trans a b c h k = ground arith

  Sorted-first :
      (x b : HtmlNgModelTarget Url) (xs : List (HtmlNgModelTarget Url))
      → Sorted begins_first (x ∷ xs)
      → In b xs
      → begins_first x b ≡ true
  Sorted-first x b [] h i = absurd i
  Sorted-first x b (y ∷ xs) h (inl same) = rw (same) h.0
  Sorted-first x b (y ∷ xs) h (inr i) = begins_first_trans x y b h.0 (Sorted-first y b xs h.1 i)

  Sorted-rest :
      (x : HtmlNgModelTarget Url) (xs : List (HtmlNgModelTarget Url))
      → Sorted begins_first (x ∷ xs)
      → Sorted begins_first xs
  Sorted-rest x [] h = tt
  Sorted-rest x (y ∷ xs) h = h.1

  -- Of a sorted list, the first hit begins no later than any other.
  find-first :
      (p : HtmlNgModelTarget Url → Bool) (xs : List (HtmlNgModelTarget Url))
      (a b : HtmlNgModelTarget Url)
      → Sorted begins_first xs
      → find p xs ≡ some a
      → In b xs
      → p b ≡ true
      → begins_first a b ≡ true
  find-first p [] a b h f i pb = absurd i
  find-first p (x ∷ xs) a b h f i pb = elim (Bool-cases (p x)) [
    | inl hit ↦
        let at_x : x ≡ a = ground arith in
        elim i [
          | inl same ↦ rw (sym at_x, same) (begins_first_refl x)
          | inr j ↦ rw (sym at_x) (Sorted-first x b xs h j)
        ]
    | inr miss ↦ elim i [
      | inl same ↦ absurd (ground (arith, ap p same))
      | inr j ↦ find-first p xs a b (Sorted-rest x xs h) (rw (miss) at f) j pb
    ]
  ]

module _ {Url : Type 0} ⦃e : Eq Url⦄ (path : Url → Str) (s : Index Url) (uri : Url)
    (controller_name property : Str) where
  -- An `ng-model` of the document that writes the property in the controller's scope.
  abbrev pub Defines : HtmlNgModelTarget Url → Type 0
  Defines t =
      In t (get_ng_model_targets_for_uri s.html uri)
      × (ng_model_target_tail t.property_path ≡ property)
      × In controller_name (target_controllers path s uri t)

  abbrev defines : HtmlNgModelTarget Url → Bool
  defines t =
      ng_model_target_tail t.property_path == property
      && any (λ c. c == controller_name) (target_controllers path s uri t)

  defines_of : (t : HtmlNgModelTarget Url) → Defines t → defines t ≡ true
  defines_of t h = ground (
    arith,
    list_beq_iff (ng_model_target_tail t.property_path) property,
    any-In (λ c. c == controller_name) (target_controllers path s uri t) controller_name h.2
        ((list_beq_iff controller_name controller_name).1 refl),
  )

  -- The ng-model found for a property of a controller is one of the document that writes the
  -- property in the scope of the controller, and no other such one begins before it.
  pub find_ng_model_implicit_def_target-some :
      (t : HtmlNgModelTarget Url)
      → find_ng_model_implicit_def_target path s uri controller_name property ≡ some t
      → Defines t × ((u : HtmlNgModelTarget Url) → Defines u → begins_first t u ≡ true)
  unfolding find_ng_model_implicit_def_target
  find_ng_model_implicit_def_target-some t h =
      let ts = get_ng_model_targets_for_uri s.html uri in
      let (i, test) = find-some defines (sort_by begins_first ts) t h in
      let (tail, written) = &&-eq-true _ _ test in
      let (c, j, same) =
        any_witness (λ c. c == controller_name) (target_controllers path s uri t) written in
      (
        (
          In-sort_by begins_first t ts i,
          ==_sound (ng_model_target_tail t.property_path) property tail,
          subst (λ d. In d (target_controllers path s uri t)) (==_sound c controller_name same) j,
        ),
        λ u d.
            find-first defines (sort_by begins_first ts) t u
              (sort_by-Sorted begins_first begins_first_total ts) h
              (sort_by-In begins_first u ts d.0) (defines_of u d),
      )
