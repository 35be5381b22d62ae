-- ===== src/Html.antt =====
-- src/index/html_store.rs: what the analysis of templates found, by document.
pub mod Variables
pub mod References
pub mod Contents
pub mod Scopes
use mathlib.Core.Option
use angularjs_lsp.Prelude.{
  ℕ, Bool, true, false, not, ◌&&◌, Option, none, some, List, [], ◌∷◌, ◌++◌, map, Eq, ◌==◌, nat_eq,
  list_eq, nat_beq, leb, if◌then◌else◌, any, find, retain, flat_map,
}
use angularjs_lsp.DashMap
use angularjs_lsp.DashMap.{DashMap}
use angularjs_lsp.Text.{Str}
use angularjs_lsp.Model.Span
use angularjs_lsp.Model.Html.{
  HtmlScopeReference, HtmlLocalVariable, HtmlLocalVariableReference, HtmlFormBinding,
  HtmlDirectiveReference, HtmlNgModelTarget, HtmlUiSrefReference, scope_reference_span,
  variable_reference_span, directive_reference_span, ui_sref_reference_span, variable_name_span,
  form_name_span, variable_is_in_scope, form_is_in_scope,
}

pub record HtmlStore (Url : Type 0) : Type 0 where
  pub html_scope_references : DashMap Url (List (HtmlScopeReference Url))
  pub html_local_variables : DashMap Url (List (HtmlLocalVariable Url))
  pub html_local_variable_references : DashMap Str (List (HtmlLocalVariableReference Url))
  pub html_form_bindings : DashMap Url (List (HtmlFormBinding Url))
  pub html_directive_references : DashMap Url (List (HtmlDirectiveReference Url))
  pub ng_model_targets : DashMap Url (List (HtmlNgModelTarget Url))
  pub ui_sref_references : DashMap Url (List (HtmlUiSrefReference Url))

module _ {A : Type 0} where
  -- `max_by_key`: of the elements with the largest key, the last one
  unfoldable pub max_from : (A → ℕ) → A → List A → A
  max_from key best [] = best
  max_from key best (x ∷ xs) = max_from key (if leb (key best) (key x) then x else best) xs

  unfoldable pub max_by_key : (A → ℕ) → List A → Option A
  unfolding max_from
  max_by_key key [] = none
  max_by_key key (x ∷ xs) = some (max_from key x xs)

  -- `or_default()`, then a push unless an element is the same
  abbrev pub push_new : (A → Bool) → A → List A → List A
  push_new same a l = if any same l then l else l ++ a ∷ []

  -- `for mut entry in map.iter_mut() { entry.value_mut().retain(keep) }`
  unfoldable pub retain_values : {K : Type 0} → (A → Bool) → DashMap K (List A) → DashMap K (List A)
  retain_values keep [] = []
  retain_values keep ((k, l) ∷ m) = (k, retain keep l) ∷ retain_values keep m

  -- the nested loops over all entries that return at the first hit
  unfoldable pub find_in_values : {K : Type 0} → (A → Bool) → DashMap K (List A) → Option A
  find_in_values p m = find p (flat_map (λ entry. entry.1) m)

module _ {Url : Type 0} where
  unfoldable pub new : HtmlStore Url
  new = record {
    html_scope_references = [];
    html_local_variables = [];
    html_local_variable_references = [];
    html_form_bindings = [];
    html_directive_references = [];
    ng_model_targets = [];
    ui_sref_references = [];
  }

  unfoldable pub clear_all : HtmlStore Url → HtmlStore Url
  clear_all s = record {
    html_scope_references = [];
    html_local_variables = [];
    html_local_variable_references = [];
    html_form_bindings = [];
    html_directive_references = [];
    ng_model_targets = [];
    ui_sref_references = [];
  }

module _ {Url : Type 0} ⦃e : Eq Url⦄ where
  unfoldable pub clear_html_references : Url → HtmlStore Url → HtmlStore Url
  unfolding retain_values
  clear_html_references uri s = record s {
    html_scope_references = DashMap.remove uri s.html_scope_references;
    html_local_variables = DashMap.remove uri s.html_local_variables;
    html_local_variable_references =
        retain_values (λ r. not (r.uri == uri)) s.html_local_variable_references;
    html_directive_references = DashMap.remove uri s.html_directive_references;
    ng_model_targets = DashMap.remove uri s.ng_model_targets;
    ui_sref_references = DashMap.remove uri s.ui_sref_references;
  }

  unfoldable pub clear_document : Url → HtmlStore Url → HtmlStore Url
  unfolding retain_values
  clear_document uri s = record {
    html_scope_references = DashMap.remove uri s.html_scope_references;
    html_local_variables = DashMap.remove uri s.html_local_variables;
    html_local_variable_references =
        retain_values (λ r. not (r.uri == uri)) s.html_local_variable_references;
    html_form_bindings = DashMap.remove uri s.html_form_bindings;
    html_directive_references = DashMap.remove uri s.html_directive_references;
    ng_model_targets = DashMap.remove uri s.ng_model_targets;
    ui_sref_references = DashMap.remove uri s.ui_sref_references;
  }
