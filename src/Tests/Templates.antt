-- ===== src/Tests/Templates.antt =====
-- Runs and examples for src/index/controller_store.rs and src/index/html_store.rs.
use angularjs_lsp.Prelude.{
  ◌≡◌, refl, inl, inr, none, some, [], ◌∷◌, ◌==◌, nat_eq, list_eq, list_beq, if◌then◌else◌, In,
  get_last?,
}
use angularjs_lsp.DashMap
use angularjs_lsp.Text.{Str, codes}
use angularjs_lsp.Model.Html.{HtmlControllerScope, HtmlLocalVariable, ng_repeat_iterator}
use angularjs_lsp.Controllers
use angularjs_lsp.Controllers.{
  ControllerStore, add_html_controller_scope, get_html_controller_at, get_html_controllers_at,
  get_all_html_controller_scopes,
}
use angularjs_lsp.Controllers.Innermost.{get_html_controller_at-last}
use angularjs_lsp.Html
use angularjs_lsp.Html.{HtmlStore}
use angularjs_lsp.Html.Variables.{
  add_html_local_variable, find_local_variable_definition, get_all_local_variables,
}
use angularjs_lsp.Html.Contents.{contents, nothing, contents-clear_document}

abbrev page : Str
page = codes "/app/page.html"

abbrev config_js : Str
config_js = codes "/app/config.js"

abbrev file_path : Str → Str
file_path uri = uri

abbrev outer_scope : HtmlControllerScope Str
outer_scope = record {
  controller_name = codes "Outer";
  alias = none;
  uri = page;
  start_line = 0;
  end_line = 9;
}

abbrev inner_scope : HtmlControllerScope Str
inner_scope = record {
  controller_name = codes "Inner";
  alias = some (codes "vm");
  uri = page;
  start_line = 2;
  end_line = 4;
}

abbrev controllers : ControllerStore Str
controllers = record {
  controller_scopes = [];
  html_controller_scopes = (page, inner_scope ∷ outer_scope ∷ []) ∷ [];
}

controllers_added :
    add_html_controller_scope outer_scope (add_html_controller_scope inner_scope Controllers.new)
    ≡ controllers
unfolding add_html_controller_scope Controllers.new DashMap.get DashMap.insert list_beq
controllers_added = refl

get_html_controller_at-last_example :
    get_html_controller_at controllers page 3
    ≡ get_last? (get_html_controllers_at controllers page 3)
unfolding get_all_html_controller_scopes DashMap.get list_beq
get_html_controller_at-last_example = get_html_controller_at-last controllers page 3 (λ a b i j.
    elim i [
      | inl p ↦ elim j [
        | inl q ↦ rw (p, q) (inl refl)
        | inr (inl q) ↦ rw (p, q) (inl refl)
        | inr (inr n) ↦ absurd n
      ]
      | inr (inl p) ↦ elim j [
        | inl q ↦ rw (p, q) (inr refl)
        | inr (inl q) ↦ rw (p, q) (inl refl)
        | inr (inr n) ↦ absurd n
      ]
      | inr (inr n) ↦ absurd n
    ])

abbrev item : HtmlLocalVariable Str
item = record {
  name = codes "item";
  source = ng_repeat_iterator;
  uri = page;
  scope_start_line = 1;
  scope_end_line = 5;
  name_start_line = 1;
  name_start_col = 16;
  name_end_line = 1;
  name_end_col = 20;
}

abbrev templates : HtmlStore Str
templates = add_html_local_variable item Html.new

item_found : find_local_variable_definition templates page (codes "item") 3 ≡ some item
unfolding find_local_variable_definition add_html_local_variable Html.new DashMap.get DashMap.insert
    list_beq
item_found = refl

item_missed : find_local_variable_definition templates page (codes "item") 6 ≡ none
unfolding find_local_variable_definition add_html_local_variable Html.new DashMap.get DashMap.insert
    list_beq
item_missed = refl

item_stored : In item (get_all_local_variables templates page)
unfolding get_all_local_variables add_html_local_variable Html.new DashMap.get DashMap.insert
    list_beq
item_stored = inl refl

contents-clear_document_example :
    contents (Html.clear_document page templates) page
    ≡ (if page == page then nothing else contents templates page)
contents-clear_document_example = contents-clear_document page page templates
