-- ===== src/Tests/Symbols.antt =====
-- Runs and examples for src/model/span.rs and src/index/definition_store.rs.
use angularjs_lsp.Prelude.{
  ℕ, ◌≤◌, ◌≡◌, refl, inr, not, none, some, List, [], ◌∷◌, arith, ◌==◌, nat_eq, list_eq, retain,
  list_beq, set_insert, contains,
}
use angularjs_lsp.DashMap
use angularjs_lsp.Text.{Str, codes}
use angularjs_lsp.Model.Span
use angularjs_lsp.Model.Span.{Span, contains_iff, range_size_mono, NotAfter, IsMeasurable}
use angularjs_lsp.Model.Symbol.{Symbol, SymbolReference, controller, service}
use angularjs_lsp.Definitions.{
  DefinitionStore, new, get_definitions, get_references, add_definition, add_reference,
  clear_document,
}
use angularjs_lsp.Definitions.Clear.{
  Write, definition, reference, run, IsValid, run-new-IsValid, clear_document-retain,
}
use angularjs_lsp.Definitions.Search.{find_symbol_at_position}
use angularjs_lsp.Definitions.Reanalysis.{SameReads, clear_document-run}
use angularjs_lsp.Definitions.Position.{
  Hit, find_symbol_at_position-some, find_symbol_at_position-none,
}

abbrev app_js : Str
app_js = codes "file:///app.js"

abbrev user_js : Str
user_js = codes "file:///user.js"

abbrev line_1 : Span
line_1 = record { start_line = 1; start_col = 0; end_line = 1; end_col = 30 }

abbrev word_1 : Span
word_1 = record { start_line = 1; start_col = 5; end_line = 1; end_col = 11 }

abbrev user_ctrl : Symbol Str
user_ctrl = record {
  name = codes "UserCtrl";
  kind = controller;
  uri = app_js;
  definition_span = line_1;
  name_span = line_1;
  docs = none;
  parameters = none;
}

abbrev user_api : Symbol Str
user_api = record {
  name = codes "userApi";
  kind = service;
  uri = user_js;
  definition_span = line_1;
  name_span = line_1;
  docs = none;
  parameters = none;
}

abbrev api_use : SymbolReference Str
api_use = record { name = codes "userApi"; uri = app_js; span = word_1 }

abbrev log_use : SymbolReference Str
log_use = record { name = codes "$log"; uri = app_js; span = word_1 }

abbrev history : List (Write Str)
history = definition user_ctrl ∷ definition user_api ∷ reference api_use ∷ []

abbrev workspace : DefinitionStore Str
workspace = run history new

workspace-IsValid : IsValid workspace
workspace-IsValid = run-new-IsValid history

line_1-IsMeasurable : IsMeasurable line_1
line_1-IsMeasurable = record {
  ordered = inr (refl, ground arith);
  start_fits = ground arith;
  end_fits = ground arith;
  lines_fit = ground arith;
}

word_1-IsMeasurable : IsMeasurable word_1
word_1-IsMeasurable = record {
  ordered = inr (refl, ground arith);
  start_fits = ground arith;
  end_fits = ground arith;
  lines_fit = ground arith;
}

range_size_mono_example : Span.range_size word_1 ≤ Span.range_size line_1
range_size_mono_example =
    range_size_mono line_1 word_1 line_1-IsMeasurable word_1-IsMeasurable
      (unfold Span.contains in refl) (unfold Span.contains in refl)

run-new-IsValid_example : IsValid workspace
run-new-IsValid_example = run-new-IsValid history

clear_document-retain_example :
    (get_definitions (clear_document app_js workspace) (codes "UserCtrl")
      ≡ retain (λ d. not (d.uri == app_js)) (get_definitions workspace (codes "UserCtrl")))
    × (get_references (clear_document app_js workspace) (codes "UserCtrl")
        ≡ retain (λ r. not (r.uri == app_js)) (get_references workspace (codes "UserCtrl")))
clear_document-retain_example =
    clear_document-retain app_js workspace workspace-IsValid (codes "UserCtrl")

clear_document-run_example :
    SameReads
      (clear_document app_js (run (definition user_ctrl ∷ reference log_use ∷ []) workspace))
      (clear_document app_js workspace)
clear_document-run_example =
    clear_document-run app_js (definition user_ctrl ∷ reference log_use ∷ []) workspace
      workspace-IsValid (refl, (refl, tt))

-- The reference within the name of the controller is the smaller of the two.
found : find_symbol_at_position workspace app_js 1 7 ≡ some (codes "userApi")
unfolding find_symbol_at_position run new DashMap.get add_reference add_definition DashMap.insert
    list_beq set_insert contains Span.contains Span.range_size
found = refl

missed : find_symbol_at_position workspace app_js 2 0 ≡ none
unfolding find_symbol_at_position run new DashMap.get add_reference add_definition DashMap.insert
    list_beq set_insert contains Span.contains
missed = refl

find_symbol_at_position-some_example :
    (size : ℕ) × Hit app_js 1 7 workspace (codes "userApi") size
    × ((n : Str) (size' : ℕ) → Hit app_js 1 7 workspace n size' → size ≤ size')
find_symbol_at_position-some_example =
    find_symbol_at_position-some app_js 1 7 workspace (codes "userApi") workspace-IsValid found

find_symbol_at_position-none_example : ¬ Hit app_js 2 0 workspace (codes "UserCtrl") 30
find_symbol_at_position-none_example =
    find_symbol_at_position-none app_js 2 0 workspace workspace-IsValid missed (codes "UserCtrl") 30
