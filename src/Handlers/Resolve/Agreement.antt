-- ===== src/Handlers/Resolve/Agreement.antt =====
-- The two resolutions of a position, of the handlers and of the index, agree.
use mathlib.Core.Option
use angularjs_lsp.Prelude.{
  ℕ, ◌≡◌, refl, ap, ◌∙◌, sym, inl, inr, Option, none, some, Eq, ◌==◌, nat_eq, list_eq, ==_sound,
  arith, find, find-some, is_some, Option-cases, or_else, and_then,
}
use angularjs_lsp.Text.{Str, codes, split_once, before_first}
use angularjs_lsp.Model.Html.{HtmlLocalVariable, HtmlScopeReference}
use angularjs_lsp.Html.Variables
use angularjs_lsp.Templates.Includes.{get_inherited_local_variables_for_template}
use angularjs_lsp.Index.Declarations.{find_local_variable_definition, find_form_binding_definition}
use angularjs_lsp.Html.Scopes.{find_local_variable_definition-some}
use angularjs_lsp.Model.Location.{Position}
use angularjs_lsp.Html.References.{
  find_ui_sref_reference_at, find_html_directive_reference_at, find_html_scope_reference_at,
}
use angularjs_lsp.Html.Variables.{
  find_html_local_variable_definition_at, find_html_local_variable_at, find_html_form_binding_at,
}
use angularjs_lsp.Index.{Index, resolve_controller_by_alias}
use angularjs_lsp.Index.HtmlPosition.{
  HtmlResolution, ui_sref, directive, local_var_def, local_var_ref, form_binding_def,
  inherited_form_binding, inherited_local_var, scope, resolve_stored, resolve_scope_target,
  resolve_scope_reference, referred_variable,
}
use angularjs_lsp.Handlers.Resolve.{
  HtmlSymbolAtPosition, at_directive, local_variable_definition, local_variable_reference,
  form_binding_definition, form_binding_reference, inherited_local_variable, resolve_symbol,
  resolve_html_position, resolved_alias, candidates, resolve_reference, referenced_variable,
}

and_then-or_else :
    {A B C : Type 0} (x : Option A) (g : A → B) (h : A → C) (f : B → Option C) (y : Option B)
    → ((a : A) → f (g a) ≡ some (h a))
    → and_then (or_else (Option.map g x) y) f ≡ or_else (Option.map h x) (and_then y f)
and_then-or_else none g h f y e = refl
and_then-or_else (some a) g h f y e = e a

module _ {Url : Type 0} ⦃e : Eq Url⦄ (path : Url → Str) (s : Index Url) where
  -- the symbol that a resolution of the index stands for
  abbrev pub symbol_of : HtmlResolution Url → Option (HtmlSymbolAtPosition Url)
  symbol_of (ui_sref r) = none
  symbol_of (directive r) = some (at_directive r)
  symbol_of (local_var_def v) = some (local_variable_definition v)
  symbol_of (local_var_ref v) = some (local_variable_reference v.name v)
  symbol_of (form_binding_def b) = some (form_binding_definition b)
  symbol_of (inherited_form_binding b) = some (form_binding_reference b)
  symbol_of (inherited_local_var v) = some (inherited_local_variable v)
  symbol_of (scope controllers property_path is_alias) =
      resolve_symbol path s is_alias controllers property_path

  named :
      (uri : Url) (name : Str) (line : ℕ) (v : HtmlLocalVariable Url)
      → find_local_variable_definition path s uri name line ≡ some v
      → v.name ≡ name
  unfolding find_local_variable_definition
  named uri name line v h =
      elim (Option-cases (Variables.find_local_variable_definition s.html uri name line)) [
        | inl absent ↦
            elim (Option-cases (
              find (λ v. v.name == name)
                (get_inherited_local_variables_for_template path s.templates uri))) [
                  | inl nothing ↦ ground arith
                  | inr (w, found) ↦
                      let (i, same) =
                        find-some (λ v. v.name == name)
                          (get_inherited_local_variables_for_template path s.templates uri) w
                          found in
                      let inherited : v.name ≡ w.name = ground arith in
                      inherited ∙ ==_sound w.name name same
                ]
        | inr (w, own) ↦
            let it : v ≡ w = ground arith in
            rw it ((find_local_variable_definition-some s.html uri name line w own).1)
      ]

  -- the two ways to tell the controllers of a reference
  targets :
      (uri : Url) (line : ℕ) (property_path : Str)
      → let (resolved_controller, rest) = resolved_alias path s uri line property_path in
        resolve_scope_target path s uri line property_path
        ≡ (candidates path s uri line resolved_controller, rest, is_some resolved_controller)
  unfolding resolve_scope_target
  targets uri line property_path = elim (Option-cases (split_once property_path (codes "."))) [
    | inl absent ↦ ground arith
    | inr (parts, found) ↦
        elim (Option-cases (resolve_controller_by_alias path s uri line (parts.0))) [
          | inl a ↦ ground arith
          | inr (c, a) ↦ ground arith
        ]
  ]

  reference_symbol :
      (uri : Url) (position : Position) (r : HtmlScopeReference Url)
      → symbol_of (resolve_scope_reference path s uri position r)
        ≡ resolve_reference path s uri position.line r
  reference_symbol uri position r =
      elim (Option-cases (
        find_form_binding_definition path s uri (before_first b'.' r.property_path)
          position.line)) [
            | inr (b, form) ↦ ground arith
            | inl no_form ↦
                elim (Option-cases (
                  find_local_variable_definition path s uri (before_first b'.' r.property_path)
                    position.line)) [
                      | inr (v, variable) ↦ ground arith
                      | inl no_variable ↦ ground (arith, targets uri position.line r.property_path)
                    ]
          ]

  variable_symbol :
      (uri : Url) (position : Position) (y : Option (HtmlResolution Url))
      → and_then
          (or_else (Option.map local_var_ref (referred_variable path s uri position)) y)
          symbol_of
        ≡ or_else
            (referenced_variable path s uri position.line position.character)
            (and_then y symbol_of)
  variable_symbol uri position y =
      elim (Option-cases
        (find_html_local_variable_at s.html uri position.line position.character)) [
          | inl no_reference ↦ ground arith
          | inr (r, reference) ↦
              elim (Option-cases
                (find_local_variable_definition path s uri r.variable_name position.line)) [
                  | inl no_variable ↦ ground arith
                  | inr (v, variable) ↦
                      ground (arith, named uri r.variable_name position.line v variable)
                ]
        ]

  scope_reference_symbol :
      (uri : Url) (position : Position)
      → and_then
          (Option.map
            (resolve_scope_reference path s uri position)
            (find_html_scope_reference_at s.html uri position.line position.character))
          symbol_of
        ≡ and_then
            (find_html_scope_reference_at s.html uri position.line position.character)
            (resolve_reference path s uri position.line)
  scope_reference_symbol uri position =
      elim (Option-cases
        (find_html_scope_reference_at s.html uri position.line position.character)) [
          | inl absent ↦ ground arith
          | inr (r, found) ↦ ground (arith, reference_symbol uri position r)
        ]

  -- Where no ui-sref stands at a position, the older resolution of the handlers is the resolution
  -- of the index, without the text of the document, followed by a choice of the symbol that it
  -- stands for.
  pub resolve_html_position-symbol_of :
      (uri : Url) (position : Position)
      → find_ui_sref_reference_at s.html uri position.line position.character ≡ none
      → resolve_html_position path s uri position.line position.character
        ≡ and_then (resolve_stored path s uri position) symbol_of
  unfolding resolve_stored resolve_html_position
  resolve_html_position-symbol_of uri position h = rw h (
      sym (
        and_then-or_else
          (find_html_directive_reference_at s.html uri position.line position.character) directive
          at_directive symbol_of _ (λ r. refl)
        ∙ ap (or_else _) (
            and_then-or_else
              (find_html_local_variable_definition_at s.html uri position.line position.character)
              local_var_def local_variable_definition symbol_of _ (λ v. refl)
            ∙ ap (or_else _) (
                variable_symbol uri position _
                ∙ ap (or_else _) (
                    and_then-or_else
                      (find_html_form_binding_at s.html uri position.line position.character)
                      form_binding_def form_binding_definition symbol_of _ (λ b. refl)
                    ∙ ap (or_else _) (scope_reference_symbol uri position))))))
