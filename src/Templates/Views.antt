-- ===== src/Templates/Views.antt =====
-- src/index/template_store.rs: the `ng-view` bindings and the templates of routes. `path` and
-- `as_str` are `Url::path` and `Url::as_str`; `virtual_parent` is the document that the program
-- parses from a fixed text.
use angularjs_lsp.Prelude.{
  Bool, false, ◌&&◌, none, some, List, [], ◌∷◌, ◌++◌, Eq, ◌==◌, nat_eq, list_eq, if◌then◌else◌,
  is_empty, contains, any, retain,
}
use angularjs_lsp.DashMap
use angularjs_lsp.DashMap.{DashMap}
use angularjs_lsp.Text.{Str, codes}
use angularjs_lsp.Model.Html.{HtmlLocalVariableReference}
use angularjs_lsp.Model.Template.{NgViewBinding}
use angularjs_lsp.Templates.State.{TemplateStore}
use angularjs_lsp.Templates.Matching.{filename}
use angularjs_lsp.Templates.Inheritance.{
  Inherited, push_all_new, same_name, same_variable, same_form,
}
use angularjs_lsp.Templates.Includes.{
  add_ng_include_binding_with_key, get_inherited_local_variables_for_template,
}

module _ {Url : Type 0} where
  unfoldable pub add_ng_view_binding :
      (Url → Str) → NgViewBinding Url → TemplateStore Url → TemplateStore Url
  add_ng_view_binding as_str binding s = record s {
    ng_view_bindings = DashMap.insert (as_str binding.parent_uri) binding s.ng_view_bindings;
  }

  -- the loop over the `ng-view` bindings
  unfoldable pub collect_views : Inherited Url → DashMap Str (NgViewBinding Url) → Inherited Url
  unfolding push_all_new
  collect_views acc [] = acc
  collect_views acc ((key, binding) ∷ bindings) =
      collect_views
        (record {
          controllers = push_all_new same_name acc.controllers binding.inherited_controllers;
          local_variables =
              push_all_new same_variable acc.local_variables binding.inherited_local_variables;
          form_bindings = push_all_new same_form acc.form_bindings binding.inherited_form_bindings;
        })
        bindings

  abbrev pub inherited_by_views : TemplateStore Url → Inherited Url
  inherited_by_views s =
      collect_views (record { controllers = []; local_variables = []; form_bindings = [] })
        s.ng_view_bindings

  -- the loop over the templates of routes
  unfoldable pub apply_views :
      Url → Inherited Url → List Str → TemplateStore Url → TemplateStore Url
  unfolding filename add_ng_include_binding_with_key
  apply_views virtual_parent from [] s = s
  apply_views virtual_parent from (template_path ∷ paths) s =
      apply_views virtual_parent from paths (
        add_ng_include_binding_with_key (codes "ng-view##" ++ template_path)
          (record {
            parent_uri = virtual_parent;
            template_path = template_path;
            resolved_filename = filename template_path;
            line = 0;
            inherited_controllers = from.controllers;
            inherited_local_variables = from.local_variables;
            inherited_form_bindings = from.form_bindings;
          })
          s)

  unfoldable pub apply_all_ng_view_inheritances : Url → TemplateStore Url → TemplateStore Url
  unfolding collect_views apply_views
  apply_all_ng_view_inheritances virtual_parent s =
      let from = inherited_by_views s in
      if is_empty from.controllers
      then s
      else apply_views virtual_parent from s.route_provider_templates s

  unfoldable pub is_route_provider_template : (Url → Str) → TemplateStore Url → Url → Bool
  unfolding filename
  is_route_provider_template path s uri = contains s.route_provider_templates (filename (path uri))

  -- the loop over the `ng-view` bindings of `get_ng_view_inherited_controllers`
  unfoldable pub collect_view_controllers : List Str → DashMap Str (NgViewBinding Url) → List Str
  unfolding push_all_new
  collect_view_controllers acc [] = acc
  collect_view_controllers acc ((key, binding) ∷ bindings) =
      collect_view_controllers (push_all_new same_name acc binding.inherited_controllers) bindings

  unfoldable pub get_ng_view_inherited_controllers :
      (Url → Str) → TemplateStore Url → Url → List Str
  unfolding is_route_provider_template collect_view_controllers
  get_ng_view_inherited_controllers path s uri =
      if is_route_provider_template path s uri
      then collect_view_controllers [] s.ng_view_bindings
      else []

module _ {Url : Type 0} ⦃e : Eq Url⦄ where
  unfoldable pub get_inherited_local_variable_references :
      (Url → Str)
      → TemplateStore Url
      → Url
      → Str
      → DashMap Str (List (HtmlLocalVariableReference Url))
      → List (HtmlLocalVariableReference Url)
  get_inherited_local_variable_references path s parent_uri var_name references =
      elim (DashMap.get var_name references) [
        | none ↦ []
        | some refs ↦
            retain
              (λ r.
                if r.uri == parent_uri
                then false
                else any (λ v. v.name == var_name && v.uri == parent_uri)
                    (get_inherited_local_variables_for_template path s r.uri))
              refs
      ]
