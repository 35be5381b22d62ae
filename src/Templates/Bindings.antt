-- ===== src/Templates/Bindings.antt =====
-- src/index/template_store.rs: the bindings of templates to controllers. `path`, `as_str` and `show`
-- are `Url::path`, `Url::as_str` and the text of a number.
use mathlib.Core.Option
use angularjs_lsp.Prelude.{
  ℕ, Bool, ◌||◌, Option, none, some, List, [], ◌∷◌, ◌++◌, map, Eq, ◌==◌, nat_eq, list_eq,
  if◌then◌else◌, find, retain, is_empty, set_insert,
}
use angularjs_lsp.DashMap
use angularjs_lsp.DashMap.{DashMap}
use angularjs_lsp.Text.{Str}
use angularjs_lsp.Util.{normalize_template_path}
use angularjs_lsp.Model.Template.{
  TemplateBinding, BindingSource, source_eq, route_provider, state_provider,
}
use angularjs_lsp.Templates.State.{TemplateStore}
use angularjs_lsp.Templates.Matching.{filename, matches_path}
use angularjs_lsp.Templates.Inheritance.{propagate_inheritance_to_children}

-- `source == RouteProvider || source == StateProvider`
abbrev pub is_route : BindingSource → Bool
is_route source = source == route_provider || source == state_provider

module _ {Url : Type 0} where
  abbrev pub binding_key : (Url → Str) → (ℕ → Str) → TemplateBinding Url → Str → Str
  binding_key as_str show binding normalized_path =
      as_str binding.binding_uri ++ b'#' ∷ (show binding.binding_line ++ b'#' ∷ normalized_path)

  -- the store before the propagation to the children
  unfoldable pub bind_template :
      (Url → Str) → (ℕ → Str) → TemplateBinding Url → TemplateStore Url → TemplateStore Url
  unfolding normalize_template_path filename
  bind_template as_str show binding s =
      let normalized_path = normalize_template_path binding.template_path in
      record s {
        template_bindings =
            DashMap.insert (binding_key as_str show binding normalized_path)
              (record binding { template_path = normalized_path }) s.template_bindings;
        route_provider_templates =
            if is_route binding.source
            then set_insert normalized_path
                (set_insert (filename normalized_path) s.route_provider_templates)
            else s.route_provider_templates;
      }

  unfoldable pub add_template_binding :
      ℕ
      → (Url → Str)
      → (Url → Str)
      → (ℕ → Str)
      → TemplateBinding Url
      → TemplateStore Url
      → Option (TemplateStore Url)
  unfolding bind_template
  add_template_binding fuel path as_str show binding s =
      let bound = bind_template as_str show binding s in
      Option.map (λ bindings. record bound { ng_include_bindings = bindings })
        (propagate_inheritance_to_children fuel path (normalize_template_path binding.template_path)
          (record {
            controllers = binding.controller_name ∷ [];
            local_variables = [];
            form_bindings = [];
          })
          bound.ng_include_bindings)

  abbrev pub bound_by_path : Str → Str × TemplateBinding Url → Bool
  bound_by_path p entry = matches_path p entry.1.template_path

  abbrev pub bound_by_filename : Str → Str × TemplateBinding Url → Bool
  bound_by_filename p entry = filename entry.1.template_path == filename p

  -- the two loops of `get_controller_for_template` and of `get_template_binding_source`: by path
  -- first, then by file name
  unfoldable pub find_binding :
      Str → DashMap Str (TemplateBinding Url) → Option (TemplateBinding Url)
  find_binding p bindings = elim (find (bound_by_path p) bindings) [
    | some entry ↦ some entry.1
    | none ↦ Option.map (λ entry. entry.1) (find (bound_by_filename p) bindings)
  ]

  unfoldable pub get_controller_for_template : (Url → Str) → TemplateStore Url → Url → Option Str
  unfolding find_binding
  get_controller_for_template path s uri =
      Option.map (λ b. b.controller_name) (find_binding (path uri) s.template_bindings)

  abbrev pub source_of : TemplateBinding Url → Str × BindingSource × Url × ℕ
  source_of b = (b.controller_name, b.source, b.binding_uri, b.binding_line)

  unfoldable pub get_template_binding_source :
      (Url → Str) → TemplateStore Url → Url → Option (Str × BindingSource × Url × ℕ)
  unfolding find_binding
  get_template_binding_source path s uri =
      Option.map source_of (find_binding (path uri) s.template_bindings)

  unfoldable pub get_all_template_binding_sources :
      (Url → Str) → TemplateStore Url → Url → List (Str × BindingSource × Url × ℕ)
  get_all_template_binding_sources path s uri =
      let by_path =
        map (λ c. source_of c.1) (retain (bound_by_path (path uri)) s.template_bindings) in
      if is_empty by_path
      then map (λ c. source_of c.1) (retain (bound_by_filename (path uri)) s.template_bindings)
      else by_path

  -- the loop of `get_templates_for_controller`
  unfoldable pub collect_templates : Str → List Str → DashMap Str (TemplateBinding Url) → List Str
  collect_templates controller_name templates [] = templates
  collect_templates controller_name templates ((key, binding) ∷ bindings) =
      collect_templates controller_name
        (if binding.controller_name == controller_name
          then set_insert binding.template_path templates
          else templates)
        bindings

  unfoldable pub get_templates_for_controller : TemplateStore Url → Str → List Str
  unfolding collect_templates
  get_templates_for_controller s controller_name =
      collect_templates controller_name [] s.template_bindings

  unfoldable pub get_all_template_bindings : TemplateStore Url → List (TemplateBinding Url)
  get_all_template_bindings s = map (λ entry. entry.1) s.template_bindings

module _ {Url : Type 0} ⦃e : Eq Url⦄ where
  unfoldable pub get_template_bindings_for_js_file :
      TemplateStore Url → Url → List (TemplateBinding Url)
  get_template_bindings_for_js_file s uri =
      map (λ entry. entry.1) (retain (λ entry. entry.1.binding_uri == uri) s.template_bindings)
