-- ===== src/Tests/Queries.antt =====
-- Runs and examples for the queries of src/index/query.rs over several stores.
use angularjs_lsp.Prelude.{
  ◌≡◌, ◌↔◌, refl, true, false, none, some, List, [], ◌∷◌, nat_eq, list_eq, list_beq, In, sort_by,
  contains,
}
use angularjs_lsp.DashMap
use angularjs_lsp.Text.{Str, codes}
use angularjs_lsp.Model.Html.{HtmlScopeReference, HtmlNgModelTarget, HtmlControllerScope}
use angularjs_lsp.Controllers
use angularjs_lsp.Html
use angularjs_lsp.Html.References.{get_ng_model_targets_for_uri}
use angularjs_lsp.Templates.Includes.{
  get_inherited_controllers_for_template, find_all_ng_include_keys_for_template,
}
use angularjs_lsp.Templates.Bindings.{get_controller_for_template}
use angularjs_lsp.Components.{get_component_binding_for_template}
use angularjs_lsp.Index
use angularjs_lsp.Index.{Index, resolve_controllers_for_html, component_controller}
use angularjs_lsp.Index.SymbolNames.{
  parse_scope_symbol_name, parse_controller_method_name, ng_model_target_tail,
  ng_model_target_alias,
}
use angularjs_lsp.Index.References.{
  begins_first, as_reference, find_ng_model_implicit_def_target, get_html_references_for_root_scope,
}
use angularjs_lsp.Index.Models.{Defines, find_ng_model_implicit_def_target-some}
use angularjs_lsp.Index.Usages.{shadowed, get_html_references_for_root_scope_iff}

abbrev list_page : Str
list_page = codes "/app/list.html"

abbrev as_is : Str → Str
as_is uri = uri

scope_name_parsed :
    parse_scope_symbol_name (codes "ListCtrl.$scope.query") ≡ some (codes "ListCtrl", codes "query")
unfolding parse_scope_symbol_name
scope_name_parsed = refl

method_name_parsed :
    parse_controller_method_name (codes "ListCtrl.load") ≡ some (codes "ListCtrl", codes "load")
unfolding parse_controller_method_name
method_name_parsed = refl

abbrev list_scope : HtmlControllerScope Str
list_scope = record {
  controller_name = codes "ListCtrl";
  alias = none;
  uri = list_page;
  start_line = 0;
  end_line = 9;
}

abbrev later_query : HtmlNgModelTarget Str
later_query = record {
  property_path = codes "query";
  uri = list_page;
  start_line = 5;
  start_col = 4;
  end_line = 5;
  end_col = 9;
}

abbrev first_query : HtmlNgModelTarget Str
first_query = record later_query { start_line = 2; end_line = 2 }

abbrev query_use : HtmlScopeReference Str
query_use = record {
  property_path = codes "query";
  uri = list_page;
  start_line = 3;
  start_col = 2;
  end_line = 3;
  end_col = 7;
}

abbrev list_index : Index Str
list_index = record Index.new {
  controllers = record Controllers.new {
    html_controller_scopes = (list_page, list_scope ∷ []) ∷ [];
  };
  html = record Html.new {
    ng_model_targets = (list_page, later_query ∷ first_query ∷ []) ∷ [];
    html_scope_references = (list_page, query_use ∷ []) ∷ [];
  };
}

query_found :
    find_ng_model_implicit_def_target as_is list_index list_page (codes "ListCtrl") (codes "query")
    ≡ some first_query
unfolding find_ng_model_implicit_def_target sort_by get_ng_model_targets_for_uri DashMap.get
    list_beq ng_model_target_tail ng_model_target_alias resolve_controllers_for_html
    component_controller get_component_binding_for_template Index.new get_controller_for_template
    get_inherited_controllers_for_template find_all_ng_include_keys_for_template
    Controllers.get_html_controllers_at contains
query_found = refl

find_ng_model_implicit_def_target-some_example :
    Defines as_is list_index list_page (codes "ListCtrl") (codes "query") first_query
    × ((u : HtmlNgModelTarget Str)
        → Defines as_is list_index list_page (codes "ListCtrl") (codes "query") u
        → begins_first first_query u ≡ true)
find_ng_model_implicit_def_target-some_example =
    find_ng_model_implicit_def_target-some as_is list_index list_page (codes "ListCtrl")
      (codes "query") first_query query_found

get_html_references_for_root_scope_iff_example :
    In (as_reference (codes "app.$rootScope.query") list_page query_use) (
      get_html_references_for_root_scope as_is list_index
        (codes "query")
        (codes "app.$rootScope.query"))
    ↔ ((u : Str) × (refs : List (HtmlScopeReference Str)) × (q : HtmlScopeReference Str) × In
          (u, refs)
          list_index.html.html_scope_references
        × In q refs
        × (q.property_path ≡ codes "query")
        × (shadowed as_is list_index (codes "query") u q.start_line ≡ false)
        × (as_reference (codes "app.$rootScope.query") list_page query_use
            ≡ as_reference (codes "app.$rootScope.query") u q))
get_html_references_for_root_scope_iff_example =
    get_html_references_for_root_scope_iff as_is list_index (codes "query")
      (codes "app.$rootScope.query")
      (as_reference (codes "app.$rootScope.query") list_page query_use)
