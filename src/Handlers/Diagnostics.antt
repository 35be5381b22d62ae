-- ===== src/Handlers/Diagnostics.antt =====
-- src/handler/diagnostics.rs: the warnings of a document. `path` is `Url::path`; `to_lowercase` and
-- `decimal` are Rust's on texts and numbers.
pub mod Unused
pub mod Undefined
use angularjs_lsp.Prelude.{
  ℕ, Bool, true, false, not, ◌&&◌, ◌||◌, Option, none, some, List, [], ◌∷◌, ◌++◌, map, Eq, ◌==◌,
  nat_eq, list_eq, if◌then◌else◌, any, is_some, is_empty, filter_map,
}
use mathlib.Core.Option
use angularjs_lsp.Text.{Str, codes, starts_with, has_char, after_last, split_once}
use angularjs_lsp.Config.{DiagnosticsConfig}
use angularjs_lsp.Model.Span.{Span}
use angularjs_lsp.Model.Location.{Range, to_lsp_range}
use angularjs_lsp.Model.Symbol.{Symbol}
use angularjs_lsp.Model.Html.{
  HtmlScopeReference, HtmlLocalVariableReference, scope_reference_span, variable_reference_span,
}
use angularjs_lsp.Definitions.{
  has_definition, any_reference, get_scope_definitions_for_js,
  find_root_scope_definitions_by_property,
}
use angularjs_lsp.Html.References.{get_html_scope_references}
use angularjs_lsp.Html.Variables.{get_all_local_variable_references_for_uri}
use angularjs_lsp.Diagnostics.{DiArityIssue, get_di_arity_issues}
use angularjs_lsp.Index.{Index, resolve_controllers_for_html, resolve_controller_by_alias}
use angularjs_lsp.Index.Declarations.{find_local_variable_definition, find_form_binding_definition}
use angularjs_lsp.Index.References.{is_scope_variable_referenced, has_ng_model_implicit_def}
use angularjs_lsp.Handlers.Resolve.{scope_name, method_name}

pub data DiagnosticSeverity : Type 0 where
  error_severity warning_severity information_severity hint_severity : DiagnosticSeverity

-- the fields of the protocol's `Diagnostic` that the handler fills with more than `None`; its
-- source is always "angularjs-lsp", and `unnecessary` tells whether the tag is set
pub record Diagnostic : Type 0 where
  pub range : Range
  pub severity : DiagnosticSeverity
  pub message : Str
  pub unnecessary : Bool

abbrev pub severity_of : Str → DiagnosticSeverity
severity_of s =
    if s == codes "error"
    then error_severity
    else if s == codes "warning"
    then warning_severity
    else if s == codes "hint"
    then hint_severity
    else if (s == codes "information") || (s == codes "info")
    then information_severity
    else warning_severity

abbrev pub severity_from_str : (Str → Str) → Str → DiagnosticSeverity
severity_from_str to_lowercase s = severity_of (to_lowercase s)

-- the property of a symbol's name, or none where the loop continues
abbrev pub property_name : Str → Option Str
property_name name = elim (split_once name (codes ".$scope.")) [
  | some (controller, property) ↦ some property
  | none ↦ if has_char b'.' name then some (after_last b'.' name) else none
]

abbrev pub quoted : Str → Str
quoted name = codes "'" ++ (name ++ codes "'")

abbrev pub unused_message : Bool → Str → Str
unused_message in_same_js name =
    if in_same_js
    then quoted name ++ codes " is defined but not used in HTML templates or other controllers"
    else quoted name ++ codes " is defined but never referenced"

-- the paths that are skipped
abbrev pub is_dynamic : Str → Bool
is_dynamic property_path =
    has_char b'[' property_path
    || starts_with property_path (codes "'")
    || starts_with property_path (b'"' ∷ [])
    || starts_with property_path (codes "$")

-- "alias.property" or "property"
abbrev pub alias_and_property : Str → Option Str × Str
alias_and_property property_path = elim (split_once property_path (codes ".")) [
  | some (alias, property) ↦ (some alias, property)
  | none ↦ (none, property_path)
]

module _ {Url : Type 0} ⦃e : Eq Url⦄ (path : Url → Str) (s : Index Url) where
  abbrev pub is_used : Url → Str → Bool
  is_used uri name =
      is_scope_variable_referenced path s name
      || any_reference s.definitions name (λ r. not (r.uri == uri))

  -- a turn of the loop of `check_unused_scope_variables`
  abbrev pub unused_diagnostic : DiagnosticSeverity → Url → Symbol Url → Option Diagnostic
  unused_diagnostic severity uri symbol = elim (property_name symbol.name) [
    | none ↦ none
    | some name ↦
        if is_used uri symbol.name
        then none
        else some (record {
          range = to_lsp_range symbol.name_span;
          severity = severity;
          message =
              unused_message (any_reference s.definitions symbol.name (λ r. r.uri == uri)) name;
          unnecessary = true;
        })
  ]

  unfoldable pub check_unused_scope_variables : DiagnosticSeverity → Url → List Diagnostic
  unfolding filter_map
  check_unused_scope_variables severity uri =
      filter_map (unused_diagnostic severity uri) (get_scope_definitions_for_js s.definitions uri)

  abbrev pub has_root_property : Str → Bool
  has_root_property property =
      not (is_empty (find_root_scope_definitions_by_property s.definitions property))

  -- on the `$scope` of the controller or on `this`
  abbrev pub has_property : Str → Str → Bool
  has_property property controller =
      has_definition s.definitions (scope_name property controller)
      || has_definition s.definitions (method_name property controller)

  -- the loop that sets `found` and `any_controller_defined`
  unfoldable pub scan_controllers : Str → List Str → Bool → Bool × Bool
  scan_controllers property [] any_defined = (false, any_defined)
  scan_controllers property (c ∷ cs) any_defined =
      let rest =
        scan_controllers property cs
          (if has_definition s.definitions c then true else any_defined) in
      if has_definition s.definitions c && has_property property c then (true, true) else rest

  abbrev pub missing_in_controller : Str → Str → Str
  missing_in_controller property controller =
      codes "Property "
      ++ (quoted property ++ (codes " is not defined in controller " ++ quoted controller))

  abbrev pub missing_in_scope : Str → Str
  missing_in_scope property =
      codes "Property " ++ (quoted property ++ codes " is not defined in scope")

  -- the message for "alias.property", where there is one
  abbrev pub alias_message : Url → ℕ → Str → Str → Option Str
  alias_message uri line alias property = elim (resolve_controller_by_alias path s uri line alias) [
    | none ↦ none
    | some controller ↦
        if not (has_definition s.definitions controller)
          || has_property property controller
          || has_root_property property
          || has_ng_model_implicit_def path s uri controller property
        then none
        else some (missing_in_controller property controller)
  ]

  -- the message for "property", where there is one
  abbrev pub plain_message : Url → ℕ → Str → Option Str
  plain_message uri line property =
      if is_some (resolve_controller_by_alias path s uri line property)
      then none
      else let controllers = resolve_controllers_for_html path s uri line in
        let (found, any_defined) = scan_controllers property controllers false in
        if not (
            found
            || has_root_property property
            || any (λ c. has_ng_model_implicit_def path s uri c property) controllers)
          && any_defined
        then some (missing_in_scope property)
        else none

  abbrev pub undefined_message : Url → ℕ → Option Str → Str → Option Str
  undefined_message uri line (some alias) property = alias_message uri line alias property
  undefined_message uri line none property = plain_message uri line property

  abbrev pub scope_message : Url → ℕ → Str → Option Str
  scope_message uri line property_path =
      let (alias, property) = alias_and_property property_path in
      let var_name = Option.get_or alias property in
      if is_dynamic property_path
        || is_some (find_local_variable_definition path s uri var_name line)
        || is_some (find_form_binding_definition path s uri var_name line)
      then none
      else undefined_message uri line alias property

  -- a turn of the loop of `check_scope_references`
  abbrev pub scope_diagnostic :
      DiagnosticSeverity → Url → HtmlScopeReference Url → Option Diagnostic
  scope_diagnostic severity uri r =
      Option.map
        (λ message. record {
          range = to_lsp_range (scope_reference_span r);
          severity = severity;
          message = message;
          unnecessary = false;
        })
        (scope_message uri r.start_line r.property_path)

  unfoldable pub check_scope_references : DiagnosticSeverity → Url → List Diagnostic
  unfolding filter_map scan_controllers
  check_scope_references severity uri =
      filter_map (scope_diagnostic severity uri) (get_html_scope_references s.html uri)

  abbrev pub variable_diagnostic :
      DiagnosticSeverity → Url → HtmlLocalVariableReference Url → Option Diagnostic
  variable_diagnostic severity uri r =
      if starts_with r.variable_name (codes "$")
        || is_some (find_local_variable_definition path s uri r.variable_name r.start_line)
      then none
      else some (record {
        range = to_lsp_range (variable_reference_span r);
        severity = severity;
        message =
            codes "Local variable " ++ (quoted r.variable_name ++ codes " is not defined in scope");
        unnecessary = false;
      })

  unfoldable pub check_local_variable_references : DiagnosticSeverity → Url → List Diagnostic
  unfolding filter_map
  check_local_variable_references severity uri =
      filter_map (variable_diagnostic severity uri)
        (get_all_local_variable_references_for_uri s.html uri)

  abbrev pub arity_message : (ℕ → Str) → DiArityIssue Url → Str
  arity_message decimal issue =
      codes "DI array has "
      ++ (decimal issue.di_count
          ++ (codes " dependency name(s) but the function takes "
              ++ (decimal issue.param_count
                  ++ codes
                      " parameter(s); they must match or services will not be injected correctly")))

  unfoldable pub check_di_arity_mismatch : (ℕ → Str) → DiagnosticSeverity → Url → List Diagnostic
  check_di_arity_mismatch decimal severity uri =
      map
        (λ issue. record {
          range = to_lsp_range issue.span;
          severity = severity;
          message = arity_message decimal issue;
          unnecessary = false;
        })
        (get_di_arity_issues s.diagnostics uri)

  module _ (to_lowercase : Str → Str) (config : DiagnosticsConfig) where
    unfoldable pub diagnose_html : Url → List Diagnostic
    unfolding check_scope_references check_local_variable_references
    diagnose_html uri =
        let severity = severity_from_str to_lowercase config.severity in
        if config.enabled
        then check_scope_references severity uri ++ check_local_variable_references severity uri
        else []

    unfoldable pub diagnose_js : (ℕ → Str) → Url → List Diagnostic
    unfolding check_unused_scope_variables check_di_arity_mismatch
    diagnose_js decimal uri =
        let severity = severity_from_str to_lowercase config.severity in
        let di_severity = severity_from_str to_lowercase config.di_arity_severity in
        if config.enabled
        then (if config.unused_scope_variables
            then check_unused_scope_variables severity uri
            else [])
          ++ check_di_arity_mismatch decimal di_severity uri
        else []
