-- ===== src/Html/Contents.antt =====
-- What a document contributes to the store, and what the clearing of a document leaves.
use angularjs_lsp.Prelude.{
  ◌≡◌, refl, sym, ◌∙◌, ap, Bool, false, not, ◌&&◌, List, [], ◌∷◌, ◌++◌, arith, Eq, ◌==◌,
  if◌then◌else◌, retain, retain-append, retain-retain, flat_map, Bool-cases, inl, inr,
}
use angularjs_lsp.DashMap.{DashMap, get_or-remove}
use angularjs_lsp.Text.{Str}
use angularjs_lsp.Model.Html.{
  HtmlScopeReference, HtmlLocalVariable, HtmlLocalVariableReference, HtmlFormBinding,
  HtmlDirectiveReference, HtmlNgModelTarget, HtmlUiSrefReference,
}
use angularjs_lsp.Html.{HtmlStore, retain_values, clear_html_references, clear_document}
use angularjs_lsp.Html.Variables.{
  get_all_local_variables, get_all_local_variable_references_for_uri, get_all_form_bindings,
}
use angularjs_lsp.Html.References.{
  get_html_scope_references, get_all_directive_references_for_uri, get_ng_model_targets_for_uri,
  get_ui_sref_references_for_uri,
}

-- All that the store tells of one document.
pub record Contents (Url : Type 0) : Type 0 where
  pub scope_references : List (HtmlScopeReference Url)
  pub local_variables : List (HtmlLocalVariable Url)
  pub local_variable_references : List (HtmlLocalVariableReference Url)
  pub form_bindings : List (HtmlFormBinding Url)
  pub directive_references : List (HtmlDirectiveReference Url)
  pub ng_model_targets : List (HtmlNgModelTarget Url)
  pub ui_sref_references : List (HtmlUiSrefReference Url)

abbrev pub nothing : {Url : Type 0} → Contents Url
nothing = record {
  scope_references = [];
  local_variables = [];
  local_variable_references = [];
  form_bindings = [];
  directive_references = [];
  ng_model_targets = [];
  ui_sref_references = [];
}

-- A filter over all values passes through a filter of each.
retain-retain_values :
    {K A : Type 0} (p keep : A → Bool) (m : DashMap K (List A))
    → retain p (flat_map (λ x. x.1) (retain_values keep m))
      ≡ retain (λ a. keep a && p a) (flat_map (λ x. x.1) m)
unfolding retain_values
retain-retain_values p keep [] = refl
retain-retain_values p keep ((k, l) ∷ m) =
    retain-append p (retain keep l) (flat_map (λ x. x.1) (retain_values keep m))
    ∙ ap (λ r. r ++ retain p (flat_map (λ x. x.1) (retain_values keep m))) (retain-retain p keep l)
    ∙ ap (λ r. retain (λ a. keep a && p a) l ++ r) (retain-retain_values p keep m)
    ∙ sym (retain-append (λ a. keep a && p a) l (flat_map (λ x. x.1) m))

retain_ext :
    {A : Type 0} (p q : A → Bool) (xs : List A) → ((a : A) → p a ≡ q a) → retain p xs ≡ retain q xs
retain_ext p q [] h = refl
retain_ext p q (x ∷ xs) h = ground (arith, h x, retain_ext p q xs h)

retain_none : {A : Type 0} (p : A → Bool) (xs : List A) → ((a : A) → p a ≡ false) → retain p xs ≡ []
retain_none p [] h = refl
retain_none p (x ∷ xs) h = ground (arith, h x, retain_none p xs h)

module _ {Url : Type 0} ⦃e : Eq Url⦄ where
  abbrev pub contents : HtmlStore Url → Url → Contents Url
  contents s uri = record {
    scope_references = get_html_scope_references s uri;
    local_variables = get_all_local_variables s uri;
    local_variable_references = get_all_local_variable_references_for_uri s uri;
    form_bindings = get_all_form_bindings s uri;
    directive_references = get_all_directive_references_for_uri s uri;
    ng_model_targets = get_ng_model_targets_for_uri s uri;
    ui_sref_references = get_ui_sref_references_for_uri s uri;
  }

  references-cleared :
      (uri v : Url) (m : DashMap Str (List (HtmlLocalVariableReference Url)))
      → retain (λ r. r.uri == v) (flat_map (λ x. x.1) (retain_values (λ r. not (r.uri == uri)) m))
        ≡ (if uri == v then [] else retain (λ r. r.uri == v) (flat_map (λ x. x.1) m))
  references-cleared uri v m =
      retain-retain_values (λ r. r.uri == v) (λ r. not (r.uri == uri)) m
      ∙ elim (Bool-cases (uri == v)) [
        | inl same ↦ rw same (
            retain_none _ (flat_map (λ x. x.1) m)
              (λ a. ground (arith, e.beq_iff a.uri uri, e.beq_iff a.uri v, e.beq_iff uri v)))
        | inr other ↦ rw other (
            retain_ext _ _ (flat_map (λ x. x.1) m)
              (λ a. ground (arith, e.beq_iff a.uri uri, e.beq_iff a.uri v, e.beq_iff uri v)))
      ]

  -- Clearing a document of the template store takes everything that the store tells of it, over
  -- all seven tables, and nothing of any other document.
  pub contents-clear_document :
      (uri v : Url) (s : HtmlStore Url)
      → contents (clear_document uri s) v ≡ (if uri == v then nothing else contents s v)
  unfolding clear_document get_html_scope_references get_all_local_variables
      get_all_local_variable_references_for_uri get_all_form_bindings
      get_all_directive_references_for_uri get_ng_model_targets_for_uri
      get_ui_sref_references_for_uri
  contents-clear_document uri v s = ground (
    arith,
    get_or-remove uri v [] s.html_scope_references,
    get_or-remove uri v [] s.html_local_variables,
    get_or-remove uri v [] s.html_form_bindings,
    get_or-remove uri v [] s.html_directive_references,
    get_or-remove uri v [] s.ng_model_targets,
    get_or-remove uri v [] s.ui_sref_references,
    references-cleared uri v s.html_local_variable_references,
  )

  -- The lighter clearing before a new pass over a document differs from the full one in one thing:
  -- it keeps the form bindings of the document.
  pub contents-clear_html_references :
      (uri v : Url) (s : HtmlStore Url)
      → contents (clear_html_references uri s) v ≡ (
          if uri == v
          then record nothing { form_bindings = get_all_form_bindings s v }
          else contents s v)
  unfolding clear_html_references get_html_scope_references get_all_local_variables
      get_all_local_variable_references_for_uri get_all_form_bindings
      get_all_directive_references_for_uri get_ng_model_targets_for_uri
      get_ui_sref_references_for_uri
  contents-clear_html_references uri v s = ground (
    arith,
    get_or-remove uri v [] s.html_scope_references,
    get_or-remove uri v [] s.html_local_variables,
    get_or-remove uri v [] s.html_directive_references,
    get_or-remove uri v [] s.ng_model_targets,
    get_or-remove uri v [] s.ui_sref_references,
    references-cleared uri v s.html_local_variable_references,
  )
