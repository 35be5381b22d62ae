-- ===== src/Index/Declarations.antt =====
-- src/index/query.rs: the variables, forms, templates and symbols of a document, over the stores.
-- `path`, `scheme`, `authority` and `parse` are the URI library's.
use mathlib.Core.Option
use angularjs_lsp.Prelude.{
  ℕ, Bool, ◌&&◌, ◌||◌, Option, none, some, List, ◌∷◌, ◌++◌, map, Eq, ◌==◌, nat_eq, list_eq, nat_beq,
  ltb, leb, find, sort_by,
}
use angularjs_lsp.Text.{Str, codes, ends_with}
use angularjs_lsp.Text.Widths.{byte_len}
use angularjs_lsp.Util.{normalize_template_path}
use angularjs_lsp.Model.Html.{
  HtmlLocalVariable, HtmlFormBinding, InheritedLocalVariable, InheritedFormBinding,
  HtmlControllerScope, HtmlScopeReference, HtmlDirectiveReference, scope_reference_span,
  directive_reference_span,
}
use angularjs_lsp.Model.Symbol.{Symbol, controller, scope_property, directive}
use angularjs_lsp.Definitions.{get_definitions_for_uri}
use angularjs_lsp.Controllers
use angularjs_lsp.Html.Variables
use angularjs_lsp.Html.References.{get_html_scope_references, get_all_directive_references_for_uri}
use angularjs_lsp.Templates.State.{analyzed_html_uris}
use angularjs_lsp.Templates.Inheritance.{push_all_new, same_name}
use angularjs_lsp.Templates.Includes.{
  get_inherited_local_variables_for_template, get_inherited_form_bindings_for_template,
}
use angularjs_lsp.Templates.Bindings
use angularjs_lsp.Templates.Resolution
use angularjs_lsp.Index.{Index}

module _ {Url : Type 0} where
  -- the inherited variable, field by field
  abbrev pub as_variable : InheritedLocalVariable Url → HtmlLocalVariable Url
  as_variable v = record {
    name = v.name;
    source = v.source;
    uri = v.uri;
    scope_start_line = v.scope_start_line;
    scope_end_line = v.scope_end_line;
    name_start_line = v.name_start_line;
    name_start_col = v.name_start_col;
    name_end_line = v.name_end_line;
    name_end_col = v.name_end_col;
  }

  abbrev pub as_form : InheritedFormBinding Url → HtmlFormBinding Url
  as_form b = record {
    name = b.name;
    uri = b.uri;
    scope_start_line = b.scope_start_line;
    scope_end_line = b.scope_end_line;
    name_start_line = b.name_start_line;
    name_start_col = b.name_start_col;
    name_end_line = b.name_end_line;
    name_end_col = b.name_end_col;
  }

  -- the symbols that `get_document_symbols` makes of what a template has
  abbrev pub scope_symbol : HtmlControllerScope Url → Symbol Url
  scope_symbol scope = record {
    name = scope.controller_name;
    kind = controller;
    uri = scope.uri;
    definition_span = record {
      start_line = scope.start_line;
      start_col = 0;
      end_line = scope.end_line;
      end_col = 0;
    };
    name_span = record {
      start_line = scope.start_line;
      start_col = 0;
      end_line = scope.start_line;
      end_col = byte_len scope.controller_name;
    };
    docs = some (codes "ng-controller");
    parameters = none;
  }

  abbrev pub reference_symbol : HtmlScopeReference Url → Symbol Url
  reference_symbol r = record {
    name = r.property_path;
    kind = scope_property;
    uri = r.uri;
    definition_span = scope_reference_span r;
    name_span = scope_reference_span r;
    docs = none;
    parameters = none;
  }

  abbrev pub directive_symbol : HtmlDirectiveReference Url → Symbol Url
  directive_symbol r = record {
    name = r.directive_name;
    kind = directive;
    uri = r.uri;
    definition_span = directive_reference_span r;
    name_span = directive_reference_span r;
    docs = none;
    parameters = none;
  }

  -- the comparison of `get_document_symbols` is not `Greater`
  abbrev pub defined_first : Symbol Url → Symbol Url → Bool
  defined_first a b =
      ltb a.definition_span.start_line b.definition_span.start_line
      || (nat_beq a.definition_span.start_line b.definition_span.start_line
          && leb a.definition_span.start_col b.definition_span.start_col)

module _ {Url : Type 0} ⦃e : Eq Url⦄ (s : Index Url) where
  unfoldable pub get_document_symbols : Url → List (Symbol Url)
  get_document_symbols uri = sort_by defined_first (
      get_definitions_for_uri s.definitions uri
      ++ (map scope_symbol (Controllers.get_all_html_controller_scopes s.controllers uri)
          ++ (map reference_symbol (get_html_scope_references s.html uri)
              ++ map directive_symbol (get_all_directive_references_for_uri s.html uri))))

module _ {Url : Type 0} ⦃e : Eq Url⦄ (path : Url → Str) (s : Index Url) where
  unfoldable pub find_local_variable_definition : Url → Str → ℕ → Option (HtmlLocalVariable Url)
  find_local_variable_definition uri variable_name line =
      elim (Variables.find_local_variable_definition s.html uri variable_name line) [
        | some var ↦ some var
        | none ↦ Option.map as_variable (
            find (λ v. v.name == variable_name)
              (get_inherited_local_variables_for_template path s.templates uri))
      ]

  unfoldable pub find_form_binding_definition : Url → Str → ℕ → Option (HtmlFormBinding Url)
  find_form_binding_definition uri form_name line =
      elim (Variables.find_form_binding_definition s.html uri form_name line) [
        | some binding ↦ some binding
        | none ↦ Option.map as_form (
            find (λ b. b.name == form_name)
              (get_inherited_form_bindings_for_template path s.templates uri))
      ]

  unfoldable pub get_templates_for_controller : Str → List Str
  get_templates_for_controller controller_name =
      push_all_new same_name (Bindings.get_templates_for_controller s.templates controller_name)
        (Controllers.get_html_templates_for_controller path s.controllers controller_name)

  -- the test of both loops of `resolve_template_uri`
  abbrev pub is_template_path : Str → Url → Bool
  is_template_path normalized_path uri =
      ends_with (path uri) (b'/' ∷ normalized_path) || ends_with (path uri) normalized_path

  unfoldable pub resolve_template_uri :
      (Url → Str) → (Url → Str) → (Str → Option Url) → Str → Option Url
  resolve_template_uri scheme authority parse template_path =
      let normalized_path = normalize_template_path template_path in
      elim (find (is_template_path normalized_path)
        (Controllers.html_controller_scope_uris s.controllers)) [
          | some uri ↦ some uri
          | none ↦ elim (find (is_template_path normalized_path) (analyzed_html_uris s.templates)) [
            | some uri ↦ some uri
            | none ↦
                Resolution.resolve_template_uri path scheme authority parse s.templates
                  template_path
          ]
        ]
