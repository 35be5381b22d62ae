-- ===== src/Tests/Includes.antt =====
-- Runs and examples for src/index/template_store.rs, src/index/mod.rs and src/index/query.rs.
use mathlib.Core.Option
use angularjs_lsp.Prelude.{
  ℕ, ◌≡◌, ◌↔◌, ◌⊎◌, refl, nat_eq, list_eq, list_beq, some, [], ◌∷◌, In, contains, NoRepeat,
  set_insert,
}
use angularjs_lsp.DashMap
use angularjs_lsp.Text.{Str, codes, ends_with, after_last}
use angularjs_lsp.Util.{normalize_template_path}
use angularjs_lsp.Model.Template.{NgIncludeBinding, TemplateBinding, ng_controller}
use angularjs_lsp.Templates.State
use angularjs_lsp.Templates.State.{
  TemplateStore, mark_html_analyzed, make_ng_include_key, extract_template_path_from_key,
}
use angularjs_lsp.Templates.Matching.{matches_path}
use angularjs_lsp.Templates.Inheritance.{propagate_inheritance_to_children}
use angularjs_lsp.Templates.Bindings.{add_template_binding, get_controller_for_template}
use angularjs_lsp.Templates.Includes.{
  add_ng_include_binding, queue_child_for_reanalysis, get_inherited_controllers_for_template,
  find_all_ng_include_keys_for_template,
}
use angularjs_lsp.Templates.Lookup.{Chosen, get_controller_for_template-some}
use angularjs_lsp.Templates.Queue.{EndsIn, queue_child_for_reanalysis_iff}
use angularjs_lsp.Templates.Merging.{Once, PassedOn, get_inherited_controllers_for_template_iff}
use angularjs_lsp.Definitions
use angularjs_lsp.Definitions.Clear.{new-IsValid}
use angularjs_lsp.Index
use angularjs_lsp.Index.{Index, resolve_controllers_for_html, component_controller}
use angularjs_lsp.Index.Clearing.{IsForgotten, clear_document-IsForgotten}
use angularjs_lsp.Index.Resolution.{OfTemplate, resolve_controllers_for_html_iff}

abbrev main_page : Str
main_page = codes "/app/main.html"

abbrev side_page : Str
side_page = codes "/app/side.html"

abbrev as_is : Str → Str
as_is uri = uri

-- The number of a line is not shown in these runs.
abbrev no_digits : ℕ → Str
no_digits n = []

abbrev include_side : NgIncludeBinding Str
include_side = record {
  parent_uri = main_page;
  template_path = codes "side.html";
  resolved_filename = codes "side.html";
  line = 7;
  inherited_controllers = codes "MainCtrl" ∷ [];
  inherited_local_variables = [];
  inherited_form_bindings = [];
}

abbrev include_key : Str
include_key = codes "/app/main.html#side.html"

abbrev includes : TemplateStore Str
includes = record State.new {
  ng_include_bindings = (include_key, include_side) ∷ [];
  ng_include_by_filename = (codes "side.html", include_key ∷ []) ∷ [];
  ng_include_by_path = (codes "side.html", include_key ∷ []) ∷ [];
  pending_reanalysis = side_page ∷ [];
  analyzed_html_files = side_page ∷ [];
}

-- The included page, which was analysed before, is queued.
include_added :
    add_ng_include_binding as_is as_is 2 include_side (mark_html_analyzed side_page State.new)
    ≡ some includes
unfolding add_ng_include_binding mark_html_analyzed State.new make_ng_include_key
    normalize_template_path propagate_inheritance_to_children DashMap.get DashMap.insert set_insert
    contains matches_path ends_with list_beq
include_added = refl

abbrev route_main : TemplateBinding Str
route_main = record {
  template_path = codes "main.html";
  controller_name = codes "RouteCtrl";
  source = ng_controller;
  binding_uri = codes "/app/app.js";
  binding_line = 2;
}

-- A controller that is bound to the including page later is passed on to the included page.
route_passed :
    Option.map
      (λ s. get_inherited_controllers_for_template as_is s side_page)
      (add_template_binding 3 as_is as_is no_digits route_main includes)
    ≡ some (codes "RouteCtrl" ∷ codes "MainCtrl" ∷ [])
unfolding add_template_binding get_inherited_controllers_for_template
    find_all_ng_include_keys_for_template normalize_template_path propagate_inheritance_to_children
    State.new DashMap.get DashMap.insert extract_template_path_from_key matches_path ends_with
    after_last list_beq
route_passed = refl

queue_child_for_reanalysis_iff_example :
    let queued =
      (queue_child_for_reanalysis as_is
        (codes "side.html")
        (codes "app/side.html")
        includes).pending_reanalysis in
    NoRepeat queued
    × ((u : Str)
        → In u queued ↔ (
            In u includes.pending_reanalysis
            ⊎ (In u includes.analyzed_html_files
                × (EndsIn u (codes "side.html") ⊎ EndsIn u (codes "app/side.html")))))
unfolding contains
queue_child_for_reanalysis_iff_example =
    queue_child_for_reanalysis_iff as_is (codes "side.html") (codes "app/side.html") includes
      (refl, tt)

get_inherited_controllers_for_template_iff_example :
    Once (get_inherited_controllers_for_template as_is includes side_page)
    × ((c : Str)
        → In c (get_inherited_controllers_for_template as_is includes side_page)
          ↔ PassedOn includes.ng_include_bindings
              (find_all_ng_include_keys_for_template as_is includes side_page)
              c)
get_inherited_controllers_for_template_iff_example =
    get_inherited_controllers_for_template_iff as_is includes side_page

includes-Distinct : DashMap.Distinct includes.ng_include_bindings
unfolding DashMap.get State.new
includes-Distinct = (refl, tt)

abbrev index : Index Str
index = record Index.new { definitions = Definitions.new; templates = includes }

clear_document-IsForgotten_example :
    IsForgotten as_is main_page index (Index.clear_document as_is as_is main_page index)
clear_document-IsForgotten_example =
    clear_document-IsForgotten as_is as_is main_page index new-IsValid includes-Distinct

resolve_controllers_for_html_iff_example :
    Once (resolve_controllers_for_html as_is index side_page 3)
    × ((c : Str)
        → In c (resolve_controllers_for_html as_is index side_page 3) ↔ (
            OfTemplate as_is index side_page 3 c
            ⊎ (((d : Str) → ¬ OfTemplate as_is index side_page 3 d)
                × (component_controller as_is index side_page ≡ some c))))
resolve_controllers_for_html_iff_example = resolve_controllers_for_html_iff as_is index side_page 3

abbrev bound : TemplateStore Str
bound = record includes { template_bindings = (codes "/app/app.js##main.html", route_main) ∷ [] }

main_bound : get_controller_for_template as_is bound main_page ≡ some (codes "RouteCtrl")
unfolding get_controller_for_template matches_path ends_with list_beq
main_bound = refl

get_controller_for_template-some_example :
    (key : Str) × (b : TemplateBinding Str) × In (key, b) bound.template_bindings
    × Chosen main_page bound.template_bindings b
    × (b.controller_name ≡ codes "RouteCtrl")
get_controller_for_template-some_example =
    get_controller_for_template-some as_is bound main_page (codes "RouteCtrl") main_bound
