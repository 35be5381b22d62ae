-- ===== src/Tests/Handlers.antt =====
-- Runs and examples for src/handler.
use angularjs_lsp.Prelude.{
  ◌≢◌, Option, ◌≡◌, ◌↔◌, ◌<◌, ◌⊎◌, refl, inl, inr, true, none, some, List, [], ◌∷◌, ◌++◌, map,
  arith, nat_eq, list_eq, list_beq, In, sort_by, and_then,
}
use angularjs_lsp.DashMap
use angularjs_lsp.Text.{Str, codes, ends_with, after_last, has_char}
use angularjs_lsp.Util.{is_html_file, is_js_file, normalize_template_path}
use angularjs_lsp.Model.Span.{Span}
use angularjs_lsp.Model.Location.{Position, Range, to_lsp_range}
use angularjs_lsp.Model.Symbol.{Symbol, SymbolReference, controller, scope_property}
use angularjs_lsp.Model.Html.{HtmlScopeReference, HtmlControllerScope}
use angularjs_lsp.Definitions
use angularjs_lsp.Definitions.{get_definitions}
use angularjs_lsp.Definitions.Clear.{definition, reference, run, IsValid, run-new-IsValid}
use angularjs_lsp.Controllers
use angularjs_lsp.Html
use angularjs_lsp.Html.References.{
  get_all_directive_references_for_uri, get_html_scope_references, find_ui_sref_reference_at,
}
use angularjs_lsp.Index
use angularjs_lsp.Index.{Index}
use angularjs_lsp.Index.References.{get_all_references}
use angularjs_lsp.Index.Declarations.{get_document_symbols, resolve_template_uri}
use angularjs_lsp.Index.HtmlPosition.{resolve_stored}
use angularjs_lsp.Handlers.SemanticTokens.{RawSemanticToken, encode_tokens, encode_from}
use angularjs_lsp.Handlers.SemanticTokens.Encoding.{
  decode, Fits, AllApart, BeginsIn, encode_tokens-AllApart, encode_tokens-covers,
}
use angularjs_lsp.Model.Template.{ComponentTemplateUrl}
use angularjs_lsp.Components
use angularjs_lsp.Templates.State
use angularjs_lsp.Templates.Bindings.{get_template_bindings_for_js_file}
use angularjs_lsp.Handlers.CodeLens.{CodeLens, lens, opens, point, opens_or, code_lens}
use angularjs_lsp.Handlers.CodeLens.Targets.{AllHaveTargets, code_lens-AllHaveTargets}
use angularjs_lsp.Handlers.Symbols.{document_symbol, symbol_information, handle}
use angularjs_lsp.Handlers.Symbols.Ranges.{Before, document_symbol-range}
use angularjs_lsp.Handlers.Symbols.Search.{IsHit, handle_iff}
use angularjs_lsp.Handlers.Resolve.{resolve_html_position}
use angularjs_lsp.Handlers.Resolve.Agreement.{symbol_of, resolve_html_position-symbol_of}
use angularjs_lsp.Handlers.References.{collect_references, reference_location}
use angularjs_lsp.Handlers.Definition.{name_location}
use angularjs_lsp.Handlers.Highlights.{
  DocumentHighlight, read_kind, write_kind, dedup_from, dedup, finalize, lex_leb,
  collect_symbol_highlights_in_uri,
}
use angularjs_lsp.Handlers.Highlights.Order.{all_of, Ascending, StandsFor, finalize_lem}
use angularjs_lsp.Handlers.Highlights.Places.{at, places, collect_symbol_highlights_in_uri_iff}
use angularjs_lsp.Handlers.Rename.{collect_edits}
use angularjs_lsp.Handlers.Rename.Edits.{edits_of, edits_in, collect_edits-edits_in}
use angularjs_lsp.Handlers.Diagnostics.{
  Diagnostic, warning_severity, property_name, check_scope_references, check_unused_scope_variables,
}
use angularjs_lsp.Handlers.Diagnostics.Undefined.{
  IsReported, diagnostic, check_scope_references_iff,
}
use angularjs_lsp.Handlers.Diagnostics.Unused.{IsUnused, unused, check_unused_scope_variables_iff}

abbrev as_is : Str → Str
as_is text = text

abbrev list_page : Str
list_page = codes "/app/list.html"

abbrev list_js : Str
list_js = codes "/app/list.js"

abbrev outer_token : RawSemanticToken
outer_token = record { line = 2; start_col = 4; length = 9; token_type = 0; token_modifiers = 0 }

abbrev inner_token : RawSemanticToken
inner_token = record outer_token { start_col = 8; length = 5; token_type = 2 }

abbrev next_token : RawSemanticToken
next_token = record outer_token { start_col = 13; length = 2; token_type = 1 }

abbrev tokens : List RawSemanticToken
tokens = next_token ∷ inner_token ∷ outer_token ∷ []

tokens-Fits : (t : RawSemanticToken) → In t tokens → Fits t
tokens-Fits t i = ground arith

-- The token inside the longer one is left out, and the order of the text is restored.
tokens_read : decode 0 0 (encode_tokens tokens) ≡ outer_token ∷ next_token ∷ []
unfolding encode_tokens encode_from decode sort_by
tokens_read = refl

encode_tokens-AllApart_example :
    AllApart (decode 0 0 (encode_tokens tokens))
    × ((t : RawSemanticToken)
        → In t (decode 0 0 (encode_tokens tokens))
        → In t tokens × (0 < t.length))
encode_tokens-AllApart_example = encode_tokens-AllApart tokens tokens-Fits

encode_tokens-covers_example :
    (y : RawSemanticToken) × In y (decode 0 0 (encode_tokens tokens)) × BeginsIn y inner_token
encode_tokens-covers_example =
    encode_tokens-covers tokens tokens-Fits inner_token (inr (inl refl)) (omega arith)

abbrev name_span : Span
name_span = record { start_line = 3; start_col = 9; end_line = 3; end_col = 14 }

abbrev whole_span : Span
whole_span = record { start_line = 3; start_col = 11; end_line = 5; end_col = 2 }

abbrev list_ctrl : Symbol Str
list_ctrl = record {
  name = codes "ListCtrl";
  kind = controller;
  uri = list_js;
  definition_span = whole_span;
  name_span = name_span;
  docs = none;
  parameters = none;
}

abbrev query : Symbol Str
query = record list_ctrl { name = codes "ListCtrl.$scope.query"; kind = scope_property }

abbrev query_use : SymbolReference Str
query_use = record { name = codes "ListCtrl.$scope.query"; uri = list_page; span = name_span }

abbrev missing_use : HtmlScopeReference Str
missing_use = record {
  property_path = codes "missing";
  uri = list_page;
  start_line = 3;
  start_col = 2;
  end_line = 3;
  end_col = 9;
}

abbrev list_scope : HtmlControllerScope Str
list_scope = record {
  controller_name = codes "ListCtrl";
  alias = none;
  uri = list_page;
  start_line = 0;
  end_line = 9;
}

abbrev list_index : Index Str
list_index = record Index.new {
  definitions =
      run (definition list_ctrl ∷ definition query ∷ reference query_use ∷ []) Definitions.new;
  controllers = record Controllers.new {
    html_controller_scopes = (list_page, list_scope ∷ []) ∷ [];
  };
  html = record Html.new { html_scope_references = (list_page, missing_use ∷ []) ∷ [] };
}

list_index-IsValid : IsValid (list_index.definitions)
list_index-IsValid =
    run-new-IsValid (definition list_ctrl ∷ definition query ∷ reference query_use ∷ [])

document_symbol-range_example :
    let d = document_symbol list_ctrl in
    let whole = to_lsp_range whole_span in
    Before d.range.start d.selection_range.start
    × Before d.selection_range.end_ d.range.end_
    × Before d.range.start whole.start
    × Before whole.end_ d.range.end_
    × ((d.range.start ≡ whole.start) ⊎ (d.range.start ≡ d.selection_range.start))
    × ((d.range.end_ ≡ whole.end_) ⊎ (d.range.end_ ≡ d.selection_range.end_))
document_symbol-range_example = document_symbol-range list_ctrl

handle_iff_example :
    In (symbol_information as_is list_ctrl) (handle as_is list_index (codes "List"))
    ↔ IsHit as_is list_index (codes "List") (symbol_information as_is list_ctrl)
handle_iff_example =
    handle_iff as_is list_index (codes "List") (symbol_information as_is list_ctrl)
      list_index-IsValid

abbrev cursor : Position
cursor = record { line = 3; character = 4 }

resolve_html_position-symbol_of_example :
    resolve_html_position as_is list_index list_page 3 4
    ≡ and_then (resolve_stored as_is list_index list_page cursor) (symbol_of as_is list_index)
unfolding Index.new Html.new DashMap.get find_ui_sref_reference_at
resolve_html_position-symbol_of_example =
    resolve_html_position-symbol_of as_is list_index list_page cursor refl

abbrev name_range : Range
name_range = to_lsp_range name_span

abbrev whole_range : Range
whole_range = to_lsp_range whole_span

abbrev highlights : List DocumentHighlight
highlights =
    record { range = whole_range; kind = some read_kind }
    ∷ record { range = name_range; kind = some read_kind }
    ∷ record { range = whole_range; kind = some write_kind }
    ∷ []

-- Of two highlights of a range the write stays.
highlights_final :
    finalize highlights
    ≡ some (
        record { range = name_range; kind = some read_kind }
        ∷ record { range = whole_range; kind = some write_kind }
        ∷ [])
unfolding finalize dedup dedup_from lex_leb list_beq sort_by
highlights_final = refl

finalize_lem_example :
    Ascending (all_of (finalize highlights))
    × ((h : DocumentHighlight) → In h (all_of (finalize highlights)) → In h highlights)
    × ((h : DocumentHighlight)
        → In h highlights
        → (g : DocumentHighlight) × In g (all_of (finalize highlights)) × StandsFor g h)
finalize_lem_example = finalize_lem highlights

collect_symbol_highlights_in_uri_iff_example :
    ((h : DocumentHighlight) × In h
        (all_of (collect_symbol_highlights_in_uri as_is list_index list_js query.name))
      × (h.range ≡ whole_range))
    ↔ In (at list_js whole_range) (places (collect_references as_is list_index query.name true))
collect_symbol_highlights_in_uri_iff_example =
    collect_symbol_highlights_in_uri_iff as_is list_index list_js query.name whole_range

collect_edits-edits_in_example :
    edits_of list_page (collect_edits as_is list_index query.name (codes "filter"))
    ≡ edits_in list_page (codes "filter") (
        map name_location (get_definitions list_index.definitions query.name)
        ++ map reference_location (get_all_references as_is list_index query.name))
collect_edits-edits_in_example =
    collect_edits-edits_in as_is list_index list_page query.name (codes "filter")

abbrev missing : Diagnostic
missing = diagnostic as_is list_index warning_severity missing_use (codes "Property")

check_scope_references_iff_example :
    In missing (check_scope_references as_is list_index warning_severity list_page) ↔ (
      (r : HtmlScopeReference Str) × (message : Str) × In r
        (get_html_scope_references list_index.html list_page)
      × IsReported as_is list_index list_page r.start_line r.property_path message
      × (missing ≡ diagnostic as_is list_index warning_severity r message))
check_scope_references_iff_example =
    check_scope_references_iff as_is list_index warning_severity list_page missing

abbrev never_used : Diagnostic
never_used = unused as_is list_index warning_severity list_js query (codes "query")

check_unused_scope_variables_iff_example :
    In never_used (check_unused_scope_variables as_is list_index warning_severity list_js) ↔ (
      (x : Symbol Str) × (name : Str) × IsUnused as_is list_index list_js x
      × (property_name x.name ≡ some name)
      × (never_used ≡ unused as_is list_index warning_severity list_js x name))
check_unused_scope_variables_iff_example =
    check_unused_scope_variables_iff as_is list_index warning_severity list_js never_used
      list_index-IsValid

abbrev list_template : ComponentTemplateUrl Str
list_template = record {
  uri = list_js;
  template_path = codes "list.html";
  line = 4;
  col = 2;
  controller_name = some (codes "ListCtrl");
  controller_as = codes "vm";
}

-- The templates of the workspace are the analysed ones.
abbrev component_index : Index Str
component_index = record Index.new {
  components = record Components.new {
    component_template_urls = (list_js, list_template ∷ []) ∷ [];
  };
  templates = record State.new { analyzed_html_files = list_page ∷ [] };
}

abbrev no_parse : Str → Option Str
no_parse text = none

abbrev template_lens : CodeLens
template_lens =
    lens 4 (
      opens (codes "Open template: list.html") (record { uri = list_page; range = point 0 0 } ∷ []))

template_shown :
    code_lens as_is as_is as_is as_is no_parse component_index as_is list_js
    ≡ some (template_lens ∷ [])
unfolding code_lens is_html_file ends_with is_js_file get_document_symbols sort_by
    Definitions.get_definitions_for_uri Definitions.collect_definitions_for_uri DashMap.get
    Index.new Definitions.new Controllers.new Html.new Components.new State.new list_beq after_last
    has_char Controllers.get_all_html_controller_scopes get_html_scope_references
    get_all_directive_references_for_uri get_template_bindings_for_js_file
    Components.get_component_template_urls opens_or resolve_template_uri
    Controllers.html_controller_scope_uris State.analyzed_html_uris normalize_template_path
template_shown = refl

code_lens-AllHaveTargets_example : AllHaveTargets (template_lens ∷ []) × (template_lens ∷ [] ≢ [])
code_lens-AllHaveTargets_example =
    code_lens-AllHaveTargets as_is as_is as_is as_is no_parse component_index as_is list_js
      (template_lens ∷ []) template_shown
