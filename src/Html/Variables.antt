-- ===== src/Html/Variables.antt =====
-- src/index/html_store.rs: the variables and the forms that a template declares.
use angularjs_lsp.Prelude.{
  ℕ, ◌&&◌, Option, none, some, List, [], Eq, ◌==◌, nat_eq, list_eq, nat_beq, leb, find, retain,
  flat_map,
}
use angularjs_lsp.DashMap
use angularjs_lsp.DashMap.{DashMap}
use angularjs_lsp.Text.{Str}
use angularjs_lsp.Model.Span
use angularjs_lsp.Model.Html.{
  HtmlLocalVariable, HtmlLocalVariableReference, HtmlFormBinding, variable_reference_span,
  variable_name_span, form_name_span, variable_is_in_scope, form_is_in_scope,
}
use angularjs_lsp.Html.{HtmlStore, max_by_key, push_new, find_in_values}

module _ {Url : Type 0} ⦃e : Eq Url⦄ where
  unfoldable pub add_html_local_variable : HtmlLocalVariable Url → HtmlStore Url → HtmlStore Url
  add_html_local_variable v s = record s {
    html_local_variables =
        DashMap.update v.uri []
          (push_new
            (λ x.
              x.name == v.name
              && nat_beq x.name_start_line v.name_start_line
              && nat_beq x.name_start_col v.name_start_col)
            v)
          s.html_local_variables;
  }

  unfoldable pub add_html_local_variable_reference :
      HtmlLocalVariableReference Url → HtmlStore Url → HtmlStore Url
  add_html_local_variable_reference r s = record s {
    html_local_variable_references =
        DashMap.update r.variable_name []
          (push_new
            (λ x.
              x.uri == r.uri
              && nat_beq x.start_line r.start_line
              && nat_beq x.start_col r.start_col)
            r)
          s.html_local_variable_references;
  }

  unfoldable pub get_local_variables_at : HtmlStore Url → Url → ℕ → List (HtmlLocalVariable Url)
  get_local_variables_at s uri line =
      retain (λ v. variable_is_in_scope v line) (DashMap.get_or uri [] s.html_local_variables)

  unfoldable pub find_local_variable_definition :
      HtmlStore Url → Url → Str → ℕ → Option (HtmlLocalVariable Url)
  unfolding max_by_key
  find_local_variable_definition s uri variable_name line =
      elim (DashMap.get uri s.html_local_variables) [
        | none ↦ none
        | some vars ↦
            max_by_key (λ v. v.scope_start_line)
              (retain (λ v. v.name == variable_name && variable_is_in_scope v line) vars)
      ]

  unfoldable pub get_local_variable_references :
      HtmlStore Url → Url → Str → ℕ → ℕ → List (HtmlLocalVariableReference Url)
  get_local_variable_references s uri variable_name scope_start_line scope_end_line =
      retain
        (λ r. r.uri == uri && leb scope_start_line r.start_line && leb r.start_line scope_end_line)
        (DashMap.get_or variable_name [] s.html_local_variable_references)

  unfoldable pub find_html_local_variable_at :
      HtmlStore Url → Url → ℕ → ℕ → Option (HtmlLocalVariableReference Url)
  unfolding find_in_values
  find_html_local_variable_at s uri line col =
      find_in_values (λ r. r.uri == uri && Span.contains (variable_reference_span r) line col)
        s.html_local_variable_references

  unfoldable pub find_html_local_variable_definition_at :
      HtmlStore Url → Url → ℕ → ℕ → Option (HtmlLocalVariable Url)
  find_html_local_variable_definition_at s uri line col =
      elim (DashMap.get uri s.html_local_variables) [
        | none ↦ none
        | some vars ↦ find (λ v. Span.contains (variable_name_span v) line col) vars
      ]

  unfoldable pub get_all_local_variables : HtmlStore Url → Url → List (HtmlLocalVariable Url)
  get_all_local_variables s uri = DashMap.get_or uri [] s.html_local_variables

  unfoldable pub get_all_local_variable_references_for_uri :
      HtmlStore Url → Url → List (HtmlLocalVariableReference Url)
  get_all_local_variable_references_for_uri s uri =
      retain (λ r. r.uri == uri) (flat_map (λ entry. entry.1) s.html_local_variable_references)

  unfoldable pub add_html_form_binding : HtmlFormBinding Url → HtmlStore Url → HtmlStore Url
  add_html_form_binding b s = record s {
    html_form_bindings =
        DashMap.update b.uri []
          (push_new
            (λ x.
              x.name == b.name
              && nat_beq x.name_start_line b.name_start_line
              && nat_beq x.name_start_col b.name_start_col)
            b)
          s.html_form_bindings;
  }

  unfoldable pub get_form_bindings_at : HtmlStore Url → Url → ℕ → List (HtmlFormBinding Url)
  get_form_bindings_at s uri line =
      retain (λ b. form_is_in_scope b line) (DashMap.get_or uri [] s.html_form_bindings)

  unfoldable pub find_form_binding_definition :
      HtmlStore Url → Url → Str → ℕ → Option (HtmlFormBinding Url)
  unfolding max_by_key
  find_form_binding_definition s uri form_name line = elim (DashMap.get uri s.html_form_bindings) [
    | none ↦ none
    | some bindings ↦
        max_by_key (λ b. b.scope_start_line)
          (retain (λ b. b.name == form_name && form_is_in_scope b line) bindings)
  ]

  unfoldable pub find_html_form_binding_at :
      HtmlStore Url → Url → ℕ → ℕ → Option (HtmlFormBinding Url)
  find_html_form_binding_at s uri line col = elim (DashMap.get uri s.html_form_bindings) [
    | none ↦ none
    | some bindings ↦ find (λ b. Span.contains (form_name_span b) line col) bindings
  ]

  unfoldable pub get_all_form_bindings : HtmlStore Url → Url → List (HtmlFormBinding Url)
  get_all_form_bindings s uri = DashMap.get_or uri [] s.html_form_bindings
