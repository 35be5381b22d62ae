-- ===== src/Handlers/Definition/Chain.antt =====
-- Where a property of a template's scope has no definition.
use angularjs_lsp.Prelude.{
  ◌≡◌, refl, ◌↔◌, inl, inr, Bool, true, none, List, [], ◌∷◌, arith, Eq, In, Option-cases,
  Bool-cases, or_else, or_else-none, if◌then◌else◌,
}
use angularjs_lsp.Text.{Str}
use angularjs_lsp.Model.Symbol.{Symbol}
use angularjs_lsp.Definitions.{get_definitions, find_root_scope_definitions_by_property}
use angularjs_lsp.Index.{Index}
use angularjs_lsp.Index.References.{find_ng_model_implicit_def_target}
use angularjs_lsp.Handlers.Resolve.{scope_name, method_name}
use angularjs_lsp.Handlers.Definition.{
  definition_locations, first_definitions, first_target, build_for_scope,
}

module _ {Url : Type 0} where
  locations-none : (defs : List (Symbol Url)) → definition_locations defs ≡ none → defs ≡ []
  locations-none [] h = refl
  locations-none (d ∷ defs) h = absurd (cc)

  -- No name of a controller is defined.
  abbrev pub Undefined : Index Url → (Str → Str) → List Str → Type 0
  Undefined s name_of controllers =
      (c : Str) → In c controllers → get_definitions s.definitions (name_of c) ≡ []

  undefined :
      (s : Index Url) (name_of : Str → Str) (cs : List Str)
      → first_definitions s name_of cs ≡ none
      → Undefined s name_of cs
  unfolding first_definitions
  undefined s name_of [] h c i = absurd i
  undefined s name_of (x ∷ cs) h c i =
      let (here, later) =
        or_else-none (definition_locations (get_definitions s.definitions (name_of x)))
          (first_definitions s name_of cs) h in
      elim i [
        | inl e ↦ rw e (locations-none (get_definitions s.definitions (name_of x)) here)
        | inr j ↦ undefined s name_of cs later c j
      ]

  first_definitions-none :
      (s : Index Url) (name_of : Str → Str) (cs : List Str)
      → Undefined s name_of cs
      → first_definitions s name_of cs ≡ none
  unfolding first_definitions
  first_definitions-none s name_of [] h = refl
  first_definitions-none s name_of (x ∷ cs) h =
      rw (h x (inl refl)) (first_definitions-none s name_of cs (λ c i. h c (inr i)))

module _ {Url : Type 0} ⦃e : Eq Url⦄ (path : Url → Str) (s : Index Url) (uri : Url) where
  -- No `ng-model` writes the property of a controller.
  abbrev pub Unwritten : Str → List Str → Type 0
  Unwritten property_path controllers =
      (c : Str)
      → In c controllers
      → find_ng_model_implicit_def_target path s uri c property_path ≡ none

  unwritten :
      (property_path : Str) (cs : List Str)
      → first_target path s uri property_path cs ≡ none
      → Unwritten property_path cs
  unfolding first_target
  unwritten property_path [] h c i = absurd i
  unwritten property_path (x ∷ cs) h c i =
      elim (Option-cases (find_ng_model_implicit_def_target path s uri x property_path)) [
        | inr (t, found) ↦ absurd (ground arith)
        | inl absent ↦ elim i [
          | inl e ↦ rw e absent
          | inr j ↦ unwritten property_path cs (ground arith) c j
        ]
      ]

  first_target-none :
      (property_path : Str) (cs : List Str)
      → Unwritten property_path cs
      → first_target path s uri property_path cs ≡ none
  unfolding first_target
  first_target-none property_path [] h = refl
  first_target-none property_path (x ∷ cs) h =
      let later = first_target-none property_path cs (λ c i. h c (inr i)) in
      ground (arith, h x (inl refl))

  -- Nothing defines the property in any of the four ways.
  abbrev pub NowhereDefined : List Str → Str → Bool → Type 0
  NowhereDefined controllers property_path is_alias =
      Undefined s (scope_name property_path) controllers
      × (is_alias ≡ true → Undefined s (method_name property_path) controllers)
      × (find_root_scope_definitions_by_property s.definitions property_path ≡ [])
      × Unwritten property_path controllers

  -- A property of a scope has no definition to go to exactly where no controller defines it, no root
  -- scope does and no ng-model writes it.
  pub build_for_scope-none :
      (controllers : List Str) (property_path : Str) (is_alias : Bool)
      → (build_for_scope path s uri controllers property_path is_alias ≡ none)
        ↔ NowhereDefined controllers property_path is_alias
  unfolding build_for_scope
  build_for_scope-none controllers property_path is_alias = (
    λ h.
        let second =
          if is_alias then first_definitions s (method_name property_path) controllers else none in
        let third =
          definition_locations
            (find_root_scope_definitions_by_property s.definitions property_path) in
        let fourth = first_target path s uri property_path controllers in
        let (a, h1) =
          or_else-none (first_definitions s (scope_name property_path) controllers)
            (or_else second (or_else third fourth)) h in
        let (b, h2) = or_else-none second (or_else third fourth) h1 in
        let (c, d) = or_else-none third fourth h2 in
        (
          undefined s (scope_name property_path) controllers a,
          λ alias. undefined s (method_name property_path) controllers (rw alias at b),
          locations-none (find_root_scope_definitions_by_property s.definitions property_path) c,
          unwritten property_path controllers d,
        ),
    λ (a, b, c, d).
        rw
          (
            first_definitions-none s (scope_name property_path) controllers a,
            c,
            first_target-none property_path controllers d,
          )
          (elim (Bool-cases is_alias) [
            | inl alias ↦
                rw
                  (
                    alias,
                    first_definitions-none s (method_name property_path) controllers (b alias),
                  )
                  refl
            | inr plain ↦ rw plain refl
          ]),
  )
