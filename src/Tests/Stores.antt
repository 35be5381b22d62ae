-- ===== src/Tests/Stores.antt =====
-- Runs and examples for src/index/component_store.rs, src/index/export_store.rs and
-- src/index/interpolate_store.rs.
use angularjs_lsp.Prelude.{
  ◌≡◌, refl, Bool, true, none, some, [], ◌∷◌, ◌==◌, nat_eq, list_eq, list_beq, if◌then◌else◌,
  sort_by,
}
use angularjs_lsp.DashMap
use angularjs_lsp.Text.{Str, codes, ends_with}
use angularjs_lsp.Model.Template.{ComponentTemplateUrl, ExportedComponentObject}
use angularjs_lsp.Components
use angularjs_lsp.Components.{ComponentStore, add_component_template_url}
use angularjs_lsp.Components.Bindings.{clear_document-bindings, names_path}
use angularjs_lsp.Util.{normalize_template_path}
use angularjs_lsp.Exports
use angularjs_lsp.Exports.{
  ExportStore, add_import, add_exported_component_object, get_exported_component_name,
}
use angularjs_lsp.Interpolate
use angularjs_lsp.Interpolate.{
  InterpolateStore, set_start_symbol, resolved, default_start, default_end,
  iter_js_detected_for_cache,
}

abbrev page : Str
page = codes "/app/page.html"

abbrev config_js : Str
config_js = codes "/app/config.js"

abbrev file_path : Str → Str
file_path uri = uri

abbrev card : ComponentTemplateUrl Str
card = record {
  uri = config_js;
  template_path = codes "./page.html";
  line = 3;
  col = 8;
  controller_name = some (codes "CardCtrl");
  controller_as = codes "$ctrl";
}

abbrev components : ComponentStore Str
components = add_component_template_url card Components.new

clear_document-bindings_example :
    ((p : Str)
      → DashMap.get p (Components.clear_document config_js components).component_template_bindings
        ≡ (if names_path p (Components.get_component_template_urls components config_js)
            then none
            else DashMap.get p components.component_template_bindings))
    × ((u : Str)
        → Components.get_component_template_urls (Components.clear_document config_js components) u
          ≡ (if config_js == u then [] else Components.get_component_template_urls components u))
clear_document-bindings_example = clear_document-bindings config_js components

card_ends : ends_with (file_path page) (normalize_template_path card.template_path) ≡ true
unfolding ends_with normalize_template_path
card_ends = refl

-- The component of another document that names the same template loses its binding.
abbrev other_card : ComponentTemplateUrl Str
other_card = record card { uri = codes "/app/other.js" }

binding_lost :
    DashMap.get
      (codes "page.html")
      (Components.clear_document config_js
        (add_component_template_url other_card components)).component_template_bindings
    ≡ none
unfolding add_component_template_url Components.clear_document Components.remove_bindings
    Components.new DashMap.get DashMap.insert DashMap.remove normalize_template_path list_beq
binding_lost = refl

abbrev card_object : ExportedComponentObject Str
card_object = record {
  uri = codes "/app/card.js";
  name = codes "card";
  start_line = 0;
  start_col = 0;
  end_line = 4;
  end_col = 1;
}

abbrev exports : ExportStore Str
exports = record {
  exports = [];
  exported_component_objects = (codes "/app/card.js", card_object) ∷ [];
  imports = (config_js, (codes "cardModule", codes "app/card") ∷ []) ∷ [];
}

exports_added :
    add_import config_js
      (codes "cardModule")
      (codes "app/card")
      (add_exported_component_object file_path card_object Exports.new)
    ≡ exports
unfolding add_import add_exported_component_object Exports.new DashMap.get DashMap.insert list_beq
exports_added = refl

card_found : get_exported_component_name exports (codes "cardModule") ≡ some (codes "card")
unfolding get_exported_component_name DashMap.get list_beq ends_with
card_found = refl

card_missed : get_exported_component_name exports (codes "card") ≡ none
unfolding get_exported_component_name DashMap.get list_beq ends_with
card_missed = refl

abbrev relative_exports : ExportStore Str
relative_exports = record exports {
  imports = (config_js, (codes "cardModule", codes "./card.js") ∷ []) ∷ [];
}

-- A relative import is looked up with its "./".
relative_missed : get_exported_component_name relative_exports (codes "cardModule") ≡ none
unfolding get_exported_component_name DashMap.get list_beq ends_with
relative_missed = refl

relative_path :
    DashMap.get (codes "cardModule") ((codes "cardModule", codes "./card.js") ∷ [])
    ≡ some (codes "./card.js")
unfolding DashMap.get list_beq
relative_path = refl

abbrev symbols : InterpolateStore Str
symbols = record { js_detected = (config_js, (some (codes "[["), none)) ∷ [] }

symbols_set : set_start_symbol config_js (codes "[[") Interpolate.new ≡ symbols
unfolding set_start_symbol Interpolate.new DashMap.get DashMap.insert list_beq
symbols_set = refl

abbrev before : Str → Str → Bool
before a b = true

symbols_resolved : resolved before symbols ≡ (codes "[[", codes "}}")
unfolding resolved sort_by
symbols_resolved = refl

symbols-Distinct : DashMap.Distinct symbols.js_detected
unfolding DashMap.get
symbols-Distinct = (refl, tt)
