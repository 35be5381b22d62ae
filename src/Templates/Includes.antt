-- ===== src/Templates/Includes.antt =====
-- src/index/template_store.rs: the `ng-include` bindings. `path` and `as_str` are `Url::path` and
-- `Url::as_str`.
use mathlib.Core.Option
use angularjs_lsp.Prelude.{
  ℕ, Bool, ◌||◌, Option, none, some, List, [], ◌∷◌, ◌++◌, map, Eq, ◌==◌, nat_eq, list_eq,
  if◌then◌else◌, retain, is_empty, flat_map, set_insert,
}
use angularjs_lsp.DashMap
use angularjs_lsp.DashMap.{DashMap}
use angularjs_lsp.Text.{Str}
use angularjs_lsp.Util.{normalize_template_path}
use angularjs_lsp.Model.Html.{InheritedLocalVariable, InheritedFormBinding}
use angularjs_lsp.Model.Template.{NgIncludeBinding}
use angularjs_lsp.Templates.State.{
  TemplateStore, extract_template_path_from_key, make_ng_include_key,
}
use angularjs_lsp.Templates.Matching.{filename, matches_path}
use angularjs_lsp.Templates.Inheritance.{
  push_all_new, same_name, same_variable, same_form, propagate_inheritance_to_children,
}

module _ {Url : Type 0} where
  unfoldable pub add_ng_include_binding_with_key :
      Str → NgIncludeBinding Url → TemplateStore Url → TemplateStore Url
  add_ng_include_binding_with_key key binding s = record s {
    ng_include_by_filename =
        DashMap.update binding.resolved_filename [] (λ l. l ++ key ∷ []) s.ng_include_by_filename;
    ng_include_by_path =
        DashMap.update (normalize_template_path binding.template_path) [] (λ l. l ++ key ∷ [])
          s.ng_include_by_path;
    ng_include_bindings = DashMap.insert key binding s.ng_include_bindings;
  }

  -- the keys under which a template is included: by path, else by file name, else by a search
  unfoldable pub find_all_ng_include_keys_for_template :
      (Url → Str) → TemplateStore Url → Url → List Str
  unfolding matches_path filename
  find_all_ng_include_keys_for_template path s uri =
      let p = path uri in
      let by_path = flat_map (λ c. c.1) (retain (λ c. matches_path p c.0) s.ng_include_by_path) in
      let by_filename = DashMap.get_or (filename p) [] s.ng_include_by_filename in
      let by_search =
        map (λ c. c.0)
          (retain
            (λ c.
              matches_path p (extract_template_path_from_key c.0)
              || c.1.resolved_filename == filename p)
            s.ng_include_bindings) in
      if is_empty by_path then if is_empty by_filename then by_search else by_filename else by_path

  -- the loops over the keys of the getters of inherited names
  unfoldable pub collect_inherited :
      {A : Type 0}
      → (A → A → Bool)
      → (NgIncludeBinding Url → List A)
      → DashMap Str (NgIncludeBinding Url)
      → List A
      → List Str
      → List A
  unfolding push_all_new
  collect_inherited same field bindings acc [] = acc
  collect_inherited same field bindings acc (key ∷ keys) =
      collect_inherited same field bindings
        (elim (DashMap.get key bindings) [
          | none ↦ acc
          | some binding ↦ push_all_new same acc (field binding)
        ])
        keys

  unfoldable pub get_inherited_controllers_for_template :
      (Url → Str) → TemplateStore Url → Url → List Str
  unfolding collect_inherited
  get_inherited_controllers_for_template path s uri =
      collect_inherited same_name (λ b. b.inherited_controllers) s.ng_include_bindings []
        (find_all_ng_include_keys_for_template path s uri)

  unfoldable pub get_inherited_local_variables_for_template :
      (Url → Str) → TemplateStore Url → Url → List (InheritedLocalVariable Url)
  unfolding collect_inherited
  get_inherited_local_variables_for_template path s uri =
      collect_inherited same_variable (λ b. b.inherited_local_variables) s.ng_include_bindings []
        (find_all_ng_include_keys_for_template path s uri)

  unfoldable pub get_inherited_form_bindings_for_template :
      (Url → Str) → TemplateStore Url → Url → List (InheritedFormBinding Url)
  unfolding collect_inherited
  get_inherited_form_bindings_for_template path s uri =
      collect_inherited same_form (λ b. b.inherited_form_bindings) s.ng_include_bindings []
        (find_all_ng_include_keys_for_template path s uri)

  unfoldable pub get_parent_templates_for_child :
      (Url → Str) → TemplateStore Url → Url → List (Url × ℕ)
  unfolding matches_path filename
  get_parent_templates_for_child path s uri =
      map (λ c. (c.1.parent_uri, c.1.line))
        (retain
          (λ c.
            matches_path (path uri) (extract_template_path_from_key c.0)
            || c.1.resolved_filename == filename (path uri))
          s.ng_include_bindings)

  unfoldable pub get_all_ng_include_bindings : TemplateStore Url → List (Str × NgIncludeBinding Url)
  get_all_ng_include_bindings s = map (λ entry. (entry.0, entry.1)) s.ng_include_bindings

module _ {Url : Type 0} ⦃e : Eq Url⦄ (path : Url → Str) where
  -- the test of `queue_child_for_reanalysis`
  abbrev pub is_child : Str → Str → Url → Bool
  is_child resolved_filename normalized_path uri =
      matches_path (path uri) resolved_filename || matches_path (path uri) normalized_path

  -- the loop over the analysed documents
  unfoldable pub queue_children : Str → Str → List Url → List Url → List Url
  unfolding matches_path
  queue_children resolved_filename normalized_path [] pending = pending
  queue_children resolved_filename normalized_path (uri ∷ uris) pending =
      queue_children resolved_filename normalized_path uris
        (if is_child resolved_filename normalized_path uri then set_insert uri pending else pending)

  unfoldable pub queue_child_for_reanalysis : Str → Str → TemplateStore Url → TemplateStore Url
  unfolding queue_children
  queue_child_for_reanalysis resolved_filename normalized_path s = record s {
    pending_reanalysis =
        queue_children resolved_filename normalized_path s.analyzed_html_files s.pending_reanalysis;
  }

  unfoldable pub add_ng_include_binding :
      (Url → Str) → ℕ → NgIncludeBinding Url → TemplateStore Url → Option (TemplateStore Url)
  unfolding queue_child_for_reanalysis add_ng_include_binding_with_key
  add_ng_include_binding as_str fuel binding s =
      let normalized_path = normalize_template_path binding.template_path in
      let key = make_ng_include_key as_str binding.parent_uri normalized_path in
      let queued =
        queue_child_for_reanalysis binding.resolved_filename normalized_path
          (add_ng_include_binding_with_key key binding s) in
      Option.map (λ bindings. record queued { ng_include_bindings = bindings })
        (propagate_inheritance_to_children fuel path normalized_path
          (record {
            controllers = binding.inherited_controllers;
            local_variables = binding.inherited_local_variables;
            form_bindings = binding.inherited_form_bindings;
          })
          queued.ng_include_bindings)
