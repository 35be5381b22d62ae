-- ===== src/Index/References.antt =====
-- src/index/query.rs: where templates refer to the symbols of scripts.
use angularjs_lsp.Prelude.{
  Bool, true, false, not, ◌&&◌, ◌||◌, Option, none, some, List, [], ◌∷◌, ◌++◌, map, Eq, ◌==◌,
  nat_eq, list_eq, nat_beq, ltb, leb, any, find, retain, is_empty, contains, sort_by,
}
use angularjs_lsp.DashMap.{DashMap}
use angularjs_lsp.Text.{Str, codes, split_once}
use angularjs_lsp.Model.Html.{HtmlScopeReference, HtmlNgModelTarget, scope_reference_span}
use angularjs_lsp.Model.Symbol.{SymbolReference}
use angularjs_lsp.Definitions.{has_definition, get_references}
use angularjs_lsp.Html.References.{get_ng_model_targets_for_uri}
use angularjs_lsp.Index.{Index, resolve_controllers_for_html, resolve_controller_by_alias}
use angularjs_lsp.Index.SymbolNames.{
  parse_scope_symbol_name, parse_root_scope_symbol_name, parse_controller_method_name,
  ng_model_target_tail, ng_model_target_alias,
}

module _ {Url : Type 0} where
  -- the reference that both searches push
  abbrev pub as_reference : Str → Url → HtmlScopeReference Url → SymbolReference Url
  as_reference symbol_name uri r = record {
    name = symbol_name;
    uri = uri;
    span = scope_reference_span r;
  }

  -- the nested loops over the documents and their references
  unfoldable pub search_references :
      Str
      → (Url → HtmlScopeReference Url → Bool)
      → DashMap Url (List (HtmlScopeReference Url))
      → List (SymbolReference Url)
  search_references symbol_name matches [] = []
  search_references symbol_name matches ((uri, refs) ∷ entries) =
      map (as_reference symbol_name uri) (retain (matches uri) refs)
      ++ search_references symbol_name matches entries

  -- the comparison of `find_ng_model_implicit_def_target` is not `Greater`
  abbrev pub begins_first : HtmlNgModelTarget Url → HtmlNgModelTarget Url → Bool
  begins_first a b =
      ltb a.start_line b.start_line
      || (nat_beq a.start_line b.start_line && leb a.start_col b.start_col)

module _ {Url : Type 0} ⦃e : Eq Url⦄ (path : Url → Str) (s : Index Url) where
  -- "alias.property", where the alias is one of the controller at the line
  unfoldable pub alias_match : Str → Str → Url → HtmlScopeReference Url → Bool
  alias_match controller_name property_path uri r = elim (split_once r.property_path (codes ".")) [
    | none ↦ false
    | some (alias, prop) ↦ elim (resolve_controller_by_alias path s uri r.start_line alias) [
      | none ↦ false
      | some resolved ↦ resolved == controller_name && prop == property_path
    ]
  ]

  unfoldable pub refers_to : Str → Str → Url → HtmlScopeReference Url → Bool
  unfolding alias_match
  refers_to controller_name property_path uri r =
      let by_alias = alias_match controller_name property_path uri r in
      (r.property_path == property_path || by_alias)
      && (contains (resolve_controllers_for_html path s uri r.start_line) controller_name
          || by_alias)

  -- a reference of the path that no controller at its line answers by a property of its own scope
  unfoldable pub refers_to_root : Str → Url → HtmlScopeReference Url → Bool
  refers_to_root property_path uri r =
      r.property_path == property_path
      && not (
          any
            (λ controller.
              has_definition s.definitions (controller ++ (codes ".$scope." ++ property_path)))
            (resolve_controllers_for_html path s uri r.start_line))

  unfoldable pub get_html_references_for_root_scope : Str → Str → List (SymbolReference Url)
  unfolding search_references refers_to_root
  get_html_references_for_root_scope property_path symbol_name =
      search_references symbol_name (refers_to_root property_path) s.html.html_scope_references

  -- the symbol's controller and property: a name of a scope, else a name of a method
  abbrev pub owner_and_property : Str → Option (Str × Str)
  owner_and_property symbol_name = elim (parse_scope_symbol_name symbol_name) [
    | some parsed ↦ some parsed
    | none ↦ parse_controller_method_name symbol_name
  ]

  unfoldable pub get_html_references_for_symbol : Str → List (SymbolReference Url)
  unfolding get_html_references_for_root_scope search_references refers_to
  get_html_references_for_symbol symbol_name = elim (parse_root_scope_symbol_name symbol_name) [
    | some (_, property_path) ↦ get_html_references_for_root_scope property_path symbol_name
    | none ↦ elim (owner_and_property symbol_name) [
      | none ↦ []
      | some (controller_name, property_path) ↦
          search_references symbol_name (refers_to controller_name property_path)
            s.html.html_scope_references
    ]
  ]

  unfoldable pub get_all_references : Str → List (SymbolReference Url)
  unfolding get_html_references_for_symbol
  get_all_references name = get_references s.definitions name ++ get_html_references_for_symbol name

  unfoldable pub is_scope_variable_referenced : Str → Bool
  unfolding get_html_references_for_symbol
  is_scope_variable_referenced symbol_name =
      not (is_empty (get_html_references_for_symbol symbol_name))

  -- the controllers that an `ng-model` writes to
  unfoldable pub target_controllers : Url → HtmlNgModelTarget Url → List Str
  target_controllers uri target = elim (ng_model_target_alias target.property_path) [
    | none ↦ resolve_controllers_for_html path s uri target.start_line
    | some alias ↦ elim (resolve_controller_by_alias path s uri target.start_line alias) [
      | some controller ↦ controller ∷ []
      | none ↦ resolve_controllers_for_html path s uri target.start_line
    ]
  ]

  unfoldable pub find_ng_model_implicit_def_target :
      Url → Str → Str → Option (HtmlNgModelTarget Url)
  unfolding target_controllers
  find_ng_model_implicit_def_target uri controller_name property =
      find
        (λ target.
          ng_model_target_tail target.property_path == property
          && any (λ c. c == controller_name) (target_controllers uri target))
        (sort_by begins_first (get_ng_model_targets_for_uri s.html uri))

  unfoldable pub has_ng_model_implicit_def : Url → Str → Str → Bool
  unfolding find_ng_model_implicit_def_target
  has_ng_model_implicit_def uri controller_name property =
      elim (find_ng_model_implicit_def_target uri controller_name property) [
        | none ↦ false
        | some target ↦ true
      ]
