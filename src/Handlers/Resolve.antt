-- ===== src/Handlers/Resolve.antt =====
-- src/handler/resolve.rs: the symbol at a position of a template, in one pass. `path` is `Url::path`.
pub mod Agreement
use mathlib.Core.Option
use angularjs_lsp.Prelude.{
  ℕ, Bool, true, false, Option, none, some, List, [], ◌∷◌, ◌++◌, Eq, if◌then◌else◌, find, is_some,
  or_else, and_then,
}
use angularjs_lsp.Text.{Str, codes, split_once, before_first}
use angularjs_lsp.Model.Html.{
  HtmlDirectiveReference, HtmlLocalVariable, HtmlFormBinding, HtmlScopeReference,
}
use angularjs_lsp.Definitions.{has_definition, find_root_scope_symbol_name_by_property}
use angularjs_lsp.Html.References.{find_html_directive_reference_at, find_html_scope_reference_at}
use angularjs_lsp.Html.Variables.{
  find_html_local_variable_definition_at, find_html_local_variable_at, find_html_form_binding_at,
}
use angularjs_lsp.Index.{Index, resolve_controllers_for_html, resolve_controller_by_alias}
use angularjs_lsp.Index.Declarations.{find_local_variable_definition, find_form_binding_definition}

pub data HtmlSymbolAtPosition (Url : Type 0) : Type 0 where
  at_directive : HtmlDirectiveReference Url → HtmlSymbolAtPosition Url
  local_variable_definition : HtmlLocalVariable Url → HtmlSymbolAtPosition Url
  local_variable_reference : Str → HtmlLocalVariable Url → HtmlSymbolAtPosition Url
  form_binding_definition : HtmlFormBinding Url → HtmlSymbolAtPosition Url
  form_binding_reference : HtmlFormBinding Url → HtmlSymbolAtPosition Url
  scope_symbol : Str → Str → Bool → HtmlSymbolAtPosition Url
  root_scope_symbol : Str → HtmlSymbolAtPosition Url
  inherited_local_variable : HtmlLocalVariable Url → HtmlSymbolAtPosition Url

abbrev pub scope_name : Str → Str → Str
scope_name property_path controller = controller ++ (codes ".$scope." ++ property_path)

abbrev pub method_name : Str → Str → Str
method_name property_path controller = controller ++ (b'.' ∷ property_path)

module _ {Url : Type 0} ⦃e : Eq Url⦄ (path : Url → Str) (s : Index Url) where
  -- `(resolved_controller, property_path)`
  abbrev pub resolved_alias : Url → ℕ → Str → Option Str × Str
  resolved_alias uri line property_path = elim (split_once property_path (codes ".")) [
    | none ↦ (none, property_path)
    | some (alias, prop) ↦ elim (resolve_controller_by_alias path s uri line alias) [
      | some controller ↦ (some controller, prop)
      | none ↦ (none, property_path)
    ]
  ]

  abbrev pub candidates : Url → ℕ → Option Str → List Str
  candidates uri line (some controller) = controller ∷ []
  candidates uri line none = resolve_controllers_for_html path s uri line

  -- a loop over the controllers: the first that defines the name
  abbrev pub defined_scope_symbol :
      (Str → Str) → Bool → List Str → Option (HtmlSymbolAtPosition Url)
  defined_scope_symbol name_of is_controller_as controllers =
      Option.map (λ controller. scope_symbol (name_of controller) controller is_controller_as)
        (find (λ controller. has_definition s.definitions (name_of controller)) controllers)

  -- the end of 5c: the loops over the controllers, then the root scope
  abbrev pub resolve_symbol : Bool → List Str → Str → Option (HtmlSymbolAtPosition Url)
  resolve_symbol is_controller_as controllers property_path =
      or_else (defined_scope_symbol (scope_name property_path) is_controller_as controllers) (
        or_else
          (if is_controller_as
            then defined_scope_symbol (method_name property_path) is_controller_as controllers
            else none)
          (Option.map root_scope_symbol
            (find_root_scope_symbol_name_by_property s.definitions property_path)))

  -- 5a to 5c
  abbrev pub resolve_reference :
      Url → ℕ → HtmlScopeReference Url → Option (HtmlSymbolAtPosition Url)
  resolve_reference uri line html_ref =
      let base_name = before_first b'.' html_ref.property_path in
      elim (find_form_binding_definition path s uri base_name line) [
        | some form_binding ↦ some (form_binding_reference form_binding)
        | none ↦ elim (find_local_variable_definition path s uri base_name line) [
          | some var_def ↦ some (inherited_local_variable var_def)
          | none ↦
              let (resolved_controller, property_path) =
                resolved_alias uri line html_ref.property_path in
              resolve_symbol (is_some resolved_controller) (candidates uri line resolved_controller)
                property_path
        ]
      ]

  abbrev pub referenced_variable : Url → ℕ → ℕ → Option (HtmlSymbolAtPosition Url)
  referenced_variable uri line col = elim (find_html_local_variable_at s.html uri line col) [
    | none ↦ none
    | some var_ref ↦
        Option.map (local_variable_reference var_ref.variable_name)
          (find_local_variable_definition path s uri var_ref.variable_name line)
  ]

  unfoldable pub resolve_html_position : Url → ℕ → ℕ → Option (HtmlSymbolAtPosition Url)
  unfolding split_once resolve_controller_by_alias resolve_controllers_for_html has_definition
      find_root_scope_symbol_name_by_property
  resolve_html_position uri line col =
      or_else (Option.map at_directive (find_html_directive_reference_at s.html uri line col)) (
        or_else
          (Option.map local_variable_definition
            (find_html_local_variable_definition_at s.html uri line col))
          (or_else (referenced_variable uri line col) (
            or_else
              (Option.map form_binding_definition (find_html_form_binding_at s.html uri line col))
              (and_then (find_html_scope_reference_at s.html uri line col)
                (resolve_reference uri line)))))
