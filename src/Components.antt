-- ===== src/Components.antt =====
-- src/index/component_store.rs: the templates that components name by `templateUrl`.
-- `path` is `Url::path`, which the program takes from a library.
pub mod Bindings
use mathlib.Core.Option
use angularjs_lsp.Prelude.{
  ℕ, Bool, true, false, Option, none, some, List, [], ◌∷◌, ◌++◌, Eq, ◌==◌, nat_eq, list_eq,
  if◌then◌else◌, find,
}
use angularjs_lsp.DashMap
use angularjs_lsp.DashMap.{DashMap}
use angularjs_lsp.Text.{Str, ends_with}
use angularjs_lsp.Model.Template.{ComponentTemplateUrl}
use angularjs_lsp.Util.{normalize_template_path}

pub record ComponentStore (Url : Type 0) : Type 0 where
  pub component_template_urls : DashMap Url (List (ComponentTemplateUrl Url))
  pub component_template_bindings : DashMap Str (ComponentTemplateUrl Url)

module _ {Url : Type 0} where
  unfoldable pub new : ComponentStore Url
  new = record { component_template_urls = []; component_template_bindings = [] }

  unfoldable pub clear_all : ComponentStore Url → ComponentStore Url
  clear_all s = record { component_template_urls = []; component_template_bindings = [] }

  -- the loop over the entries that returns at the first key that ends the path
  unfoldable pub get_component_binding_for_template :
      (Url → Str) → ComponentStore Url → Url → Option (ComponentTemplateUrl Url)
  get_component_binding_for_template path s uri =
      Option.map (λ entry. entry.1)
        (find (λ entry. ends_with (path uri) entry.0) s.component_template_bindings)

  unfoldable pub resolve_component_controller_by_alias :
      (Url → Str) → ComponentStore Url → Url → Str → Option Str
  unfolding get_component_binding_for_template
  resolve_component_controller_by_alias path s uri alias =
      elim (get_component_binding_for_template path s uri) [
        | none ↦ none
        | some binding ↦ if binding.controller_as == alias then binding.controller_name else none
      ]

  -- the loop of `clear_document` over the templates of the document
  unfoldable pub remove_bindings :
      List (ComponentTemplateUrl Url)
      → DashMap Str (ComponentTemplateUrl Url)
      → DashMap Str (ComponentTemplateUrl Url)
  unfolding normalize_template_path
  remove_bindings [] m = m
  remove_bindings (t ∷ ts) m =
      remove_bindings ts (DashMap.remove (normalize_template_path t.template_path) m)

module _ {Url : Type 0} ⦃e : Eq Url⦄ where
  unfoldable pub add_component_template_url :
      ComponentTemplateUrl Url → ComponentStore Url → ComponentStore Url
  unfolding normalize_template_path
  add_component_template_url t s = record {
    component_template_urls = DashMap.update t.uri [] (λ l. l ++ t ∷ []) s.component_template_urls;
    component_template_bindings =
        DashMap.insert (normalize_template_path t.template_path) t s.component_template_bindings;
  }

  unfoldable pub get_component_template_urls :
      ComponentStore Url → Url → List (ComponentTemplateUrl Url)
  get_component_template_urls s uri = DashMap.get_or uri [] s.component_template_urls

  unfoldable pub clear_document : Url → ComponentStore Url → ComponentStore Url
  unfolding remove_bindings
  clear_document uri s = record {
    component_template_urls = DashMap.remove uri s.component_template_urls;
    component_template_bindings = elim (DashMap.get uri s.component_template_urls) [
      | none ↦ s.component_template_bindings
      | some templates ↦ remove_bindings templates s.component_template_bindings
    ];
  }
