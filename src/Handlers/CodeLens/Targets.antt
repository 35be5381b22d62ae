-- ===== src/Handlers/CodeLens/Targets.antt =====
-- What the links open.
use angularjs_lsp.Prelude.{
  ℕ, ◌≡◌, ◌≢◌, refl, sym, ◌⊎◌, inl, inr, Bool, true, false, not, Option, none, some, List, [], ◌∷◌,
  ◌++◌, map, arith, Eq, ◌==◌, nat_eq, list_eq, if◌then◌else◌, retain, is_empty, contains, In,
  In-append, In-map, In-flat_map, Bool-cases, Option-cases,
}
use mathlib.Core.Path.{subst}
use angularjs_lsp.Text.{Str, codes, has_text}
use angularjs_lsp.Util.{is_html_file, is_js_file}
use angularjs_lsp.Model.Location.{Location}
use angularjs_lsp.Model.Symbol.{Symbol, controller, kind_eq}
use angularjs_lsp.Model.Template.{BindingSource, ComponentTemplateUrl}
use angularjs_lsp.Index.{Index}
use angularjs_lsp.Index.Declarations.{get_document_symbols, get_templates_for_controller}
use angularjs_lsp.Components.{get_component_binding_for_template, get_component_template_urls}
use angularjs_lsp.Controllers.{get_all_html_controller_scopes}
use angularjs_lsp.Templates.Bindings.{get_all_template_binding_sources}
use angularjs_lsp.Templates.Includes.{
  get_parent_templates_for_child, get_inherited_controllers_for_template,
}
use angularjs_lsp.Templates.Resolution.{get_ng_includes_in_file}
use angularjs_lsp.Handlers.References.{unless_empty}
use angularjs_lsp.Handlers.CodeLens.{
  CodeLens, Command, open_location, opens_or, create_included_by_lens, create_bound_from_lens,
  create_ng_include_lens, create_controller_lens, create_template_lens,
  create_component_controller_lens, create_component_template_url_lens, included_by_lenses,
  bound_lenses, inherited_lenses, ng_include_lenses, component_lenses, scope_lens, template_lenses,
  symbol_lenses, binding_lenses, html_lenses, code_lens_for_js, code_lens_for_html, code_lens,
  resolve_template,
}

-- The command opens at least one place, or is no command.
abbrev pub HasTarget : Command → Type 0
HasTarget c =
    ((c.command ≡ []) × (c.arguments ≡ none))
    ⊎ ((c.command ≡ open_location)
        × (l : Location Str) × (ls : List (Location Str)) × (c.arguments ≡ some (l ∷ ls)))

abbrev pub AllHaveTargets : List CodeLens → Type 0
AllHaveTargets ls = (l : CodeLens) → In l ls → HasTarget l.command

append-AllHaveTargets :
    (xs ys : List CodeLens) → AllHaveTargets xs → AllHaveTargets ys → AllHaveTargets (xs ++ ys)
append-AllHaveTargets xs ys h k l i = elim (In-append l xs ys i) [ inl j ↦ h l j | inr j ↦ k l j ]

one-AllHaveTargets : (x : CodeLens) → HasTarget x.command → AllHaveTargets (x ∷ [])
one-AllHaveTargets x h l (inl e) = subst (λ (c : CodeLens). HasTarget c.command) (sym e) h
one-AllHaveTargets x h l (inr i) = absurd i

map-AllHaveTargets :
    {A : Type 0} (f : A → CodeLens) (xs : List A)
    → ((a : A) → HasTarget ((f a).command))
    → AllHaveTargets (map f xs)
map-AllHaveTargets f xs h l i =
    let (a, j, e) = In-map f l xs i in subst (λ (c : CodeLens). HasTarget c.command) (sym e) (h a)

opens_or-HasTarget :
    (title note : Str) (ls : List (Location Str)) → HasTarget (opens_or title note ls)
unfolding opens_or
opens_or-HasTarget title note [] = inl (refl, refl)
opens_or-HasTarget title note (l ∷ ls) = inr (refl, l, ls, refl)

module _ {Url : Type 0} ⦃e : Eq Url⦄ (path as_str : Url → Str) (resolve : Str → Option Url)
    (s : Index Url) where
  included_by-AllHaveTargets :
      (uri : Url) → AllHaveTargets (included_by_lenses path as_str resolve s uri)
  included_by-AllHaveTargets uri = shown (
      retain (λ p. not (has_text (path p.0) (codes "ng-view-virtual-parent")))
        (get_parent_templates_for_child path s.templates uri))
    where
      shown :
          (parents : List (Url × ℕ))
          → AllHaveTargets
              (if is_empty parents then [] else create_included_by_lens as_str path parents ∷ [])
      shown [] = λ l i. absurd i
      shown (p ∷ parents) =
          one-AllHaveTargets (create_included_by_lens as_str path (p ∷ parents))
            (inr (refl, _, _, refl))

  component_controller-HasTarget :
      (b : ComponentTemplateUrl Url)
      → HasTarget ((create_component_controller_lens path as_str resolve s b).command)
  component_controller-HasTarget b = elim (Option-cases b.controller_name) [
    | inl inline ↦ rw inline (inr (refl, _, _, refl))
    | inr (c, named) ↦ rw named (opens_or-HasTarget _ _ _)
  ]

  component-AllHaveTargets :
      (uri : Url) → AllHaveTargets (component_lenses path as_str resolve s uri)
  component-AllHaveTargets uri = shown (get_component_binding_for_template path s.components uri)
    where
      shown :
          (o : Option (ComponentTemplateUrl Url))
          → AllHaveTargets (elim o [
            | some b ↦ create_component_controller_lens path as_str resolve s b ∷ []
            | none ↦ []
          ])
      shown none = λ l i. absurd i
      shown (some b) =
          one-AllHaveTargets (create_component_controller_lens path as_str resolve s b)
            (component_controller-HasTarget b)

  bound-AllHaveTargets :
      (bs : List (Str × BindingSource × Url × ℕ)) (files controllers : List Str)
      → AllHaveTargets (bound_lenses path as_str resolve s files controllers bs)
  unfolding bound_lenses
  bound-AllHaveTargets [] files controllers = λ l i. absurd i
  bound-AllHaveTargets ((c, source, js_uri, line) ∷ bs) files controllers =
      append-AllHaveTargets _ _
        (unless (contains files (as_str js_uri))
          (create_bound_from_lens as_str path source js_uri line) (inr (refl, _, _, refl)))
        (append-AllHaveTargets _ _
          (unless (contains controllers c)
            (create_controller_lens path as_str resolve s c 0 (codes "Binded"))
            (opens_or-HasTarget _ _ _))
          (bound-AllHaveTargets bs _ _))
    where
      unless :
          (b : Bool) (x : CodeLens)
          → HasTarget x.command
          → AllHaveTargets (if b then [] else x ∷ [])
      unless true x h = λ l i. absurd i
      unless false x h = one-AllHaveTargets x h

  template-AllHaveTargets :
      (d : Symbol Url) → AllHaveTargets (template_lenses path as_str resolve s d)
  template-AllHaveTargets d =
      shown (d.kind == controller) (is_empty (get_templates_for_controller path s d.name))
    where
      shown :
          (a b : Bool)
          → AllHaveTargets (
              if a
              then (if b
                  then []
                  else create_template_lens path as_str resolve s d.name_span.start_line
                      (get_templates_for_controller path s d.name)
                    ∷ [])
              else [])
      shown true true = λ l i. absurd i
      shown true false =
          one-AllHaveTargets
            (create_template_lens path as_str resolve s d.name_span.start_line
              (get_templates_for_controller path s d.name))
            (opens_or-HasTarget _ _ _)
      shown false b = λ l i. absurd i

  symbol-AllHaveTargets : (uri : Url) → AllHaveTargets (symbol_lenses path as_str resolve s uri)
  symbol-AllHaveTargets uri l i =
      let (d, j, k) =
        In-flat_map (template_lenses path as_str resolve s) l (get_document_symbols s uri) i in
      template-AllHaveTargets d l k

  binding-AllHaveTargets : (uri : Url) → AllHaveTargets (binding_lenses path as_str resolve s uri)
  binding-AllHaveTargets uri = map-AllHaveTargets _ _ (λ b. opens_or-HasTarget _ _ _)

  ng_include-HasTarget :
      (line : ℕ) (template_path : Str) (o : Option Url)
      → HasTarget ((create_ng_include_lens as_str line template_path o).command)
  ng_include-HasTarget line template_path none = inl (refl, refl)
  ng_include-HasTarget line template_path (some uri) = inr (refl, _, _, refl)

  inherited-AllHaveTargets :
      (uri : Url) → AllHaveTargets (inherited_lenses path as_str resolve s uri)
  inherited-AllHaveTargets uri =
      map-AllHaveTargets (λ c. create_controller_lens path as_str resolve s c 0 (codes "Inherited"))
        (get_inherited_controllers_for_template path s.templates uri)
        (λ c. opens_or-HasTarget _ _ _)

  scope-AllHaveTargets :
      (uri : Url)
      → AllHaveTargets (
          map (scope_lens path as_str resolve s) (get_all_html_controller_scopes s.controllers uri))
  scope-AllHaveTargets uri =
      map-AllHaveTargets (scope_lens path as_str resolve s)
        (get_all_html_controller_scopes s.controllers uri) (λ c. opens_or-HasTarget _ _ _)

  ng_include-AllHaveTargets :
      (includes : List (ℕ × Str × Option Url))
      → AllHaveTargets (ng_include_lenses path as_str resolve s includes)
  ng_include-AllHaveTargets includes =
      map-AllHaveTargets (λ (i : ℕ × Str × Option Url). create_ng_include_lens as_str i.0 i.1 i.2)
        includes (λ i. ng_include-HasTarget (i.0) (i.1) (i.2))

  html-AllHaveTargets :
      (includes : List (ℕ × Str × Option Url)) (uri : Url)
      → AllHaveTargets (html_lenses path as_str resolve s includes uri)
  unfolding html_lenses
  html-AllHaveTargets includes uri =
      append-AllHaveTargets (included_by_lenses path as_str resolve s uri) _
        (included_by-AllHaveTargets uri)
        (append-AllHaveTargets (bound_lenses path as_str resolve s [] [] bound) _
          (bound-AllHaveTargets bound [] [])
          (append-AllHaveTargets (component_lenses path as_str resolve s uri) _
            (component-AllHaveTargets uri)
            (append-AllHaveTargets (inherited_lenses path as_str resolve s uri) _
              (inherited-AllHaveTargets uri)
              (append-AllHaveTargets scopes _ (scope-AllHaveTargets uri) (
                append-AllHaveTargets (ng_include_lenses path as_str resolve s includes) _
                  (ng_include-AllHaveTargets includes)
                  (append-AllHaveTargets (symbol_lenses path as_str resolve s uri)
                    (binding_lenses path as_str resolve s uri) (symbol-AllHaveTargets uri)
                    (binding-AllHaveTargets uri)))))))
    where
      bound : List (Str × BindingSource × Url × ℕ)
      bound = get_all_template_binding_sources path s.templates uri

      scopes : List CodeLens
      scopes =
          map (scope_lens path as_str resolve s) (get_all_html_controller_scopes s.controllers uri)

  js-AllHaveTargets :
      (uri : Url)
      → AllHaveTargets (
          symbol_lenses path as_str resolve s uri
          ++ (binding_lenses path as_str resolve s uri
              ++ map
                  (create_component_template_url_lens path as_str resolve s)
                  (get_component_template_urls s.components uri)))
  js-AllHaveTargets uri = append-AllHaveTargets _ _ (symbol-AllHaveTargets uri) (
      append-AllHaveTargets _ _ (binding-AllHaveTargets uri)
        (map-AllHaveTargets _ _ (λ t. opens_or-HasTarget _ _ _)))

unless_empty-AllHaveTargets :
    (xs ls : List CodeLens)
    → AllHaveTargets xs
    → unless_empty xs ≡ some ls
    → AllHaveTargets ls × (ls ≢ [])
unless_empty-AllHaveTargets [] ls h e = absurd (ground arith)
unless_empty-AllHaveTargets (x ∷ xs) ls h e =
    let same : x ∷ xs ≡ ls = ground arith in subst (λ l. AllHaveTargets l × (l ≢ [])) same ((h, cc))

module _ {Url : Type 0} ⦃e : Eq Url⦄ (path as_str scheme authority : Url → Str)
    (parse : Str → Option Url) (s : Index Url) where
  -- Where code lenses are shown there is at least one, and each either opens at least one place or
  -- has no command; none opens an empty list.
  pub code_lens-AllHaveTargets :
      (to_lowercase : Str → Str) (uri : Url) (ls : List CodeLens)
      → code_lens path as_str scheme authority parse s to_lowercase uri ≡ some ls
      → AllHaveTargets ls × (ls ≢ [])
  unfolding code_lens code_lens_for_html code_lens_for_js
  code_lens-AllHaveTargets to_lowercase uri ls h =
      let resolve = resolve_template path as_str scheme authority parse s in
      let includes = get_ng_includes_in_file path scheme authority parse s.templates uri in
      let templates = html_lenses path as_str resolve s includes uri in
      let scripts =
        symbol_lenses path as_str resolve s uri
        ++ (binding_lenses path as_str resolve s uri
            ++ map (create_component_template_url_lens path as_str resolve s)
                (get_component_template_urls s.components uri)) in
      elim (Bool-cases (is_html_file path to_lowercase uri)) [
        | inl html ↦
            unless_empty-AllHaveTargets templates ls
              (html-AllHaveTargets path as_str resolve s includes uri) (ground arith)
        | inr other ↦ elim (Bool-cases (is_js_file path uri)) [
          | inl js ↦
              unless_empty-AllHaveTargets scripts ls (js-AllHaveTargets path as_str resolve s uri)
                (ground arith)
          | inr neither ↦ absurd (ground arith)
        ]
      ]
