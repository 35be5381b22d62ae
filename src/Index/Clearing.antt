-- ===== src/Index/Clearing.antt =====
-- What the index knows of a document after it is cleared.
use angularjs_lsp.Prelude.{
  ℕ, ◌≡◌, ◌≢◌, refl, sym, ◌∙◌, not, Option, none, some, List, [], arith, Eq, ◌==◌, nat_eq, list_eq,
  ==_refl, if◌then◌else◌, retain, In, In-retain,
}
use angularjs_lsp.DashMap
use angularjs_lsp.Text.{Str}
use angularjs_lsp.Model.Symbol.{Symbol, SymbolReference}
use angularjs_lsp.Model.Template.{NgIncludeBinding, ComponentTemplateUrl}
use angularjs_lsp.Definitions.{get_definitions, get_references}
use angularjs_lsp.Definitions.Clear.{IsValid, clear_document-IsValid, clear_document-retain}
use angularjs_lsp.Controllers
use angularjs_lsp.Html.Contents.{contents, nothing, contents-clear_document}
use angularjs_lsp.Exports
use angularjs_lsp.Components
use angularjs_lsp.Components.Bindings.{names_path-In, clear_document-bindings}
use angularjs_lsp.Util.{normalize_template_path}
use angularjs_lsp.Interpolate
use angularjs_lsp.Diagnostics
use angularjs_lsp.Templates.Removal.{clear_document-includes}
use angularjs_lsp.Index.{Index, clear_document}

-- What is left of a document `uri` in an index `s` that comes after `before`.
pub record IsForgotten {Url : Type 0} ⦃e : Eq Url⦄ (path : Url → Str) (uri : Url)
    (before s : Index Url) : Type 0 where
  pub still_valid : IsValid s.definitions
  pub no_symbol : (n : Str) (d : Symbol Url) → In d (get_definitions s.definitions n) → d.uri ≢ uri
  pub no_reference :
      (n : Str) (r : SymbolReference Url) → In r (get_references s.definitions n) → r.uri ≢ uri
  pub no_script_scope : DashMap.get uri s.controllers.controller_scopes ≡ none
  pub no_controller_at :
      (line : ℕ)
      → (Controllers.get_controller_at s.controllers uri line ≡ none)
        × (Controllers.get_injected_services_at s.controllers uri line ≡ [])
  pub no_controller : Controllers.get_all_html_controller_scopes s.controllers uri ≡ []
  pub no_contents : contents s.html uri ≡ nothing
  pub no_include :
      (k : Str) (b : NgIncludeBinding Url)
      → DashMap.get k s.templates.ng_include_bindings ≡ some b
      → b.parent_uri ≢ uri
  pub no_export : Exports.get_export path s.exports uri ≡ none
  pub no_component_object : Exports.get_exported_component_object path s.exports uri ≡ none
  pub no_import : (n : Str) → Exports.get_import_path s.exports uri n ≡ none
  pub no_component : Components.get_component_template_urls s.components uri ≡ []
  pub no_component_binding :
      (t : ComponentTemplateUrl Url)
      → In t (Components.get_component_template_urls before.components uri)
      → DashMap.get
          (normalize_template_path t.template_path)
          s.components.component_template_bindings
        ≡ none
  pub no_interpolation : DashMap.get uri s.interpolate.js_detected ≡ none
  pub no_issue : Diagnostics.get_di_arity_issues s.diagnostics uri ≡ []

module _ {Url : Type 0} ⦃e : Eq Url⦄ where
  elsewhere :
      {A : Type 0} (field : A → Url) (uri : Url) (a : A) (l l' : List A)
      → l' ≡ retain (λ x. not (field x == uri)) l
      → In a l'
      → field a ≢ uri
  elsewhere field uri a l l' same i =
      let (_, test) = In-retain a (λ x. not (field x == uri)) l (rw same at i) in
      λ p. ground (arith, e.beq_iff (field a) uri)

  include_elsewhere :
      (uri : Url) (o : Option (NgIncludeBinding Url)) (b : NgIncludeBinding Url)
      → elim o as (λ _. Option (NgIncludeBinding Url)) [
        | none ↦ none
        | some c ↦ if c.parent_uri == uri then none else some c
      ]
        ≡ some b
      → b.parent_uri ≢ uri
  include_elsewhere uri none b h = absurd (cc)
  include_elsewhere uri (some c) b h = λ p. ground (arith, e.beq_iff c.parent_uri uri)

  -- After a document is cleared, no store of the index tells of its symbols and references,
  -- controller scopes in scripts and in templates, template contents, ng-includes, exports,
  -- component objects and imports, component templates and the bindings of their paths,
  -- interpolation symbols or diagnostics, and the definition store is still valid, if it was valid
  -- and the keys of the ng-includes distinct.
  pub clear_document-IsForgotten :
      (path as_str : Url → Str) (uri : Url) (s : Index Url)
      → IsValid s.definitions
      → DashMap.Distinct s.templates.ng_include_bindings
      → IsForgotten path uri s (clear_document path as_str uri s)
  unfolding clear_document Controllers.clear_document Controllers.get_all_html_controller_scopes
      Controllers.get_controller_at Controllers.get_injected_services_at Exports.clear_document
      Exports.get_export Exports.get_exported_component_object Exports.get_import_path
      Components.clear_document Components.get_component_template_urls Interpolate.clear_document
      Diagnostics.clear_document Diagnostics.get_di_arity_issues
  clear_document-IsForgotten path as_str uri s v d = record {
    still_valid = clear_document-IsValid uri s.definitions v;
    no_symbol = λ n x i.
        elsewhere (λ y. y.uri) uri x (get_definitions s.definitions n) _
          (clear_document-retain uri s.definitions v n).0 i;
    no_reference = λ n x i.
        elsewhere (λ y. y.uri) uri x (get_references s.definitions n) _
          (clear_document-retain uri s.definitions v n).1 i;
    no_script_scope = DashMap.get-remove_self uri s.controllers.controller_scopes;
    no_controller_at = λ line. (
      rw
          (
            DashMap.get-remove_self uri s.controllers.controller_scopes,
            Controllers.get_controller_at,
          )
          refl,
      rw
          (
            DashMap.get-remove_self uri s.controllers.controller_scopes,
            Controllers.get_injected_services_at,
          )
          refl,
    );
    no_controller = rw (DashMap.get-remove_self uri s.controllers.html_controller_scopes) refl;
    no_contents = contents-clear_document uri uri s.html ∙ rw (==_refl uri) refl;
    no_include = λ k b h.
        include_elsewhere uri (DashMap.get k s.templates.ng_include_bindings) b
          (sym (clear_document-includes as_str uri s.templates k d) ∙ h);
    no_export = DashMap.get-remove_self (path uri) s.exports.exports;
    no_component_object = DashMap.get-remove_self (path uri) s.exports.exported_component_objects;
    no_import =
        λ n. rw (DashMap.get-remove_self uri s.exports.imports, Exports.get_import_path) refl;
    no_component = rw (DashMap.get-remove_self uri s.components.component_template_urls) refl;
    no_component_binding = λ t i.
        (clear_document-bindings uri s.components).0 (normalize_template_path t.template_path)
        ∙ rw (names_path-In t (Components.get_component_template_urls s.components uri) i) refl;
    no_interpolation = DashMap.get-remove_self uri s.interpolate.js_detected;
    no_issue = rw (DashMap.get-remove_self uri s.diagnostics.di_arity_issues) refl;
  }
