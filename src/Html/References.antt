-- ===== src/Html/References.antt =====
-- src/index/html_store.rs: what a template refers to: scope properties, directives, models, states.
use angularjs_lsp.Prelude.{
  ℕ, ◌&&◌, Option, none, some, List, [], ◌∷◌, ◌++◌, Eq, ◌==◌, nat_eq, list_eq, nat_beq, find,
  retain, flat_map,
}
use angularjs_lsp.DashMap
use angularjs_lsp.DashMap.{DashMap}
use angularjs_lsp.Text.{Str}
use angularjs_lsp.Model.Span
use angularjs_lsp.Model.Html.{
  HtmlScopeReference, HtmlDirectiveReference, HtmlNgModelTarget, HtmlUiSrefReference,
  scope_reference_span, directive_reference_span, ui_sref_reference_span,
}
use angularjs_lsp.Html.{HtmlStore, push_new}

module _ {Url : Type 0} where
  unfoldable pub get_html_directive_references :
      HtmlStore Url → Str → List (HtmlDirectiveReference Url)
  get_html_directive_references s directive_name =
      retain (λ r. r.directive_name == directive_name)
        (flat_map (λ entry. entry.1) s.html_directive_references)

  unfoldable pub get_ui_sref_references_by_state :
      HtmlStore Url → Str → List (HtmlUiSrefReference Url)
  get_ui_sref_references_by_state s state_name =
      retain (λ r. r.state_name == state_name) (flat_map (λ entry. entry.1) s.ui_sref_references)

module _ {Url : Type 0} ⦃e : Eq Url⦄ where
  unfoldable pub add_html_scope_reference : HtmlScopeReference Url → HtmlStore Url → HtmlStore Url
  add_html_scope_reference r s = record s {
    html_scope_references = DashMap.update r.uri [] (λ l. l ++ r ∷ []) s.html_scope_references;
  }

  unfoldable pub find_html_scope_reference_at :
      HtmlStore Url → Url → ℕ → ℕ → Option (HtmlScopeReference Url)
  find_html_scope_reference_at s uri line col = elim (DashMap.get uri s.html_scope_references) [
    | none ↦ none
    | some refs ↦ find (λ r. Span.contains (scope_reference_span r) line col) refs
  ]

  unfoldable pub get_html_scope_references : HtmlStore Url → Url → List (HtmlScopeReference Url)
  get_html_scope_references s uri = DashMap.get_or uri [] s.html_scope_references

  unfoldable pub add_html_directive_reference :
      HtmlDirectiveReference Url → HtmlStore Url → HtmlStore Url
  add_html_directive_reference r s = record s {
    html_directive_references =
        DashMap.update r.uri []
          (push_new
            (λ x.
              x.directive_name == r.directive_name
              && nat_beq x.start_line r.start_line
              && nat_beq x.start_col r.start_col)
            r)
          s.html_directive_references;
  }

  unfoldable pub find_html_directive_reference_at :
      HtmlStore Url → Url → ℕ → ℕ → Option (HtmlDirectiveReference Url)
  find_html_directive_reference_at s uri line col =
      elim (DashMap.get uri s.html_directive_references) [
        | none ↦ none
        | some refs ↦ find (λ r. Span.contains (directive_reference_span r) line col) refs
      ]

  unfoldable pub get_all_directive_references_for_uri :
      HtmlStore Url → Url → List (HtmlDirectiveReference Url)
  get_all_directive_references_for_uri s uri = DashMap.get_or uri [] s.html_directive_references

  unfoldable pub add_ng_model_target : HtmlNgModelTarget Url → HtmlStore Url → HtmlStore Url
  add_ng_model_target t s = record s {
    ng_model_targets = DashMap.update t.uri [] (λ l. l ++ t ∷ []) s.ng_model_targets;
  }

  unfoldable pub get_ng_model_targets_for_uri : HtmlStore Url → Url → List (HtmlNgModelTarget Url)
  get_ng_model_targets_for_uri s uri = DashMap.get_or uri [] s.ng_model_targets

  unfoldable pub add_ui_sref_reference : HtmlUiSrefReference Url → HtmlStore Url → HtmlStore Url
  add_ui_sref_reference r s = record s {
    ui_sref_references = DashMap.update r.uri [] (λ l. l ++ r ∷ []) s.ui_sref_references;
  }

  unfoldable pub find_ui_sref_reference_at :
      HtmlStore Url → Url → ℕ → ℕ → Option (HtmlUiSrefReference Url)
  find_ui_sref_reference_at s uri line col = elim (DashMap.get uri s.ui_sref_references) [
    | none ↦ none
    | some refs ↦ find (λ r. Span.contains (ui_sref_reference_span r) line col) refs
  ]

  unfoldable pub get_ui_sref_references_for_uri :
      HtmlStore Url → Url → List (HtmlUiSrefReference Url)
  get_ui_sref_references_for_uri s uri = DashMap.get_or uri [] s.ui_sref_references
