-- ===== src/Handlers/Highlights.antt =====
-- src/handler/document_highlight.rs: the places in one document of what stands at a position.
-- `path` is `Url::path`, `to_lowercase` is Rust's on a whole text.
pub mod Order
pub mod Places
use angularjs_lsp.Prelude.{
  ℕ, ◌+◌, Bool, true, false, ◌&&◌, ◌||◌, Option, none, some, List, [], ◌∷◌, ◌++◌, map, Eq, ◌==◌,
  nat_eq, list_eq, if◌then◌else◌, ltb, leb, nat_beq, retain, flat_map, sort_by, or_else, and_then,
}
use angularjs_lsp.Text.{Str}
use angularjs_lsp.Util.{is_html_file}
use angularjs_lsp.Model.Location.{Position, Range, Location, to_lsp_range}
use angularjs_lsp.Model.Symbol.{Symbol, SymbolReference}
use angularjs_lsp.Model.Html.{HtmlLocalVariable, HtmlFormBinding, HtmlUiSrefReference}
use angularjs_lsp.Definitions.{get_definitions, get_references}
use angularjs_lsp.Definitions.Search.{find_symbol_at_position}
use angularjs_lsp.Html.References.{get_html_directive_references}
use angularjs_lsp.Html.Variables.{get_local_variable_references}
use angularjs_lsp.Templates.Views.{get_inherited_local_variable_references}
use angularjs_lsp.Index.{Index, resolve_controllers_for_html}
use angularjs_lsp.Index.References.{get_html_references_for_symbol, get_all_references}
use angularjs_lsp.Index.HtmlPosition
use angularjs_lsp.Index.HtmlPosition.{HtmlResolution, resolve_stored}
use angularjs_lsp.Handlers.Resolve.{scope_name}
use angularjs_lsp.Handlers.References.{
  definition_location, reference_location, variable_location, variable_reference_location,
  form_location, directive_location, is_directive_kind, is_state, in_form_scope, scope_chain,
  unless_empty,
}

-- the kinds of the protocol, and the numbers that name none of them
pub data DocumentHighlightKind : Type 0 where
  text_kind read_kind write_kind : DocumentHighlightKind
  other_kind : ℕ → DocumentHighlightKind

pub record DocumentHighlight : Type 0 where
  pub range : Range
  pub kind : Option DocumentHighlightKind

abbrev pub kind_priority : DocumentHighlightKind → ℕ
kind_priority write_kind = 0
kind_priority read_kind = 1
kind_priority text_kind = 2
kind_priority (other_kind number) = 3

-- `kind.map(kind_priority)`, where none comes before all others
abbrev pub kind_key : Option DocumentHighlightKind → ℕ
kind_key none = 0
kind_key (some kind) = 1 + kind_priority kind

-- `(range.start, range.end)`
abbrev pub range_key : Range → List ℕ
range_key r = r.start.line ∷ r.start.character ∷ r.end_.line ∷ r.end_.character ∷ []

abbrev pub highlight_key : DocumentHighlight → List ℕ
highlight_key h = range_key h.range ++ kind_key h.kind ∷ []

-- the order of tuples
unfoldable pub lex_leb : List ℕ → List ℕ → Bool
lex_leb [] ys = true
lex_leb (x ∷ xs) [] = false
lex_leb (x ∷ xs) (y ∷ ys) = ltb x y || (nat_beq x y && lex_leb xs ys)

abbrev pub sorts_first : DocumentHighlight → DocumentHighlight → Bool
sorts_first a b = lex_leb (highlight_key a) (highlight_key b)

abbrev pub same_range : DocumentHighlight → DocumentHighlight → Bool
same_range a b = range_key a.range == range_key b.range

-- `dedup_by`, behind an element that stays
unfoldable pub dedup_from : DocumentHighlight → List DocumentHighlight → List DocumentHighlight
dedup_from prev [] = []
dedup_from prev (h ∷ hs) =
    let rest = dedup_from (if same_range prev h then prev else h) hs in
    if same_range prev h then rest else h ∷ rest

unfoldable pub dedup : List DocumentHighlight → List DocumentHighlight
unfolding dedup_from
dedup [] = []
dedup (h ∷ hs) = h ∷ dedup_from h hs

unfoldable pub finalize : List DocumentHighlight → Option (List DocumentHighlight)
unfolding dedup lex_leb
finalize highlights = unless_empty (dedup (sort_by sorts_first highlights))

module _ {Url : Type 0} ⦃e : Eq Url⦄ where
  -- the loops that push the locations of the document
  abbrev pub highlight_in :
      Url → DocumentHighlightKind → List (Location Url) → List DocumentHighlight
  highlight_in uri kind locations =
      map (λ l. record { range = l.range; kind = some kind }) (retain (λ l. l.uri == uri) locations)

module _ {Url : Type 0} ⦃e : Eq Url⦄ (path : Url → Str) (s : Index Url) where
  unfoldable pub collect_symbol_highlights_in_uri : Url → Str → Option (List DocumentHighlight)
  unfolding finalize
  collect_symbol_highlights_in_uri uri symbol_name = finalize (
      highlight_in uri write_kind
        (map definition_location (get_definitions s.definitions symbol_name))
      ++ highlight_in uri read_kind
          (map reference_location (get_all_references path s symbol_name)))

  unfoldable pub highlight_for_ui_sref :
      Url → HtmlUiSrefReference Url → Option (List DocumentHighlight)
  unfolding finalize
  highlight_for_ui_sref uri ui_sref = finalize (
      highlight_in uri read_kind
        (map reference_location (get_references s.definitions ui_sref.state_name))
      ++ highlight_in uri write_kind (
          map definition_location
            (retain is_state (get_definitions s.definitions ui_sref.state_name))))

  unfoldable pub highlight_for_directive : Url → Str → Option (List DocumentHighlight)
  unfolding finalize
  highlight_for_directive uri directive_name = finalize (
      highlight_in uri write_kind (
        map definition_location
          (retain is_directive_kind (get_definitions s.definitions directive_name)))
      ++ highlight_in uri read_kind
          (map directive_location (get_html_directive_references s.html directive_name)))

  unfoldable pub highlight_for_local_variable :
      Url → HtmlLocalVariable Url → Option (List DocumentHighlight)
  unfolding finalize
  highlight_for_local_variable uri v = finalize (
      highlight_in uri write_kind (variable_location v ∷ [])
      ++ highlight_in uri read_kind (
          map variable_reference_location (
            get_local_variable_references s.html v.uri v.name v.scope_start_line v.scope_end_line)))

  unfoldable pub highlight_for_inherited_local_variable :
      Url → HtmlLocalVariable Url → Option (List DocumentHighlight)
  unfolding finalize
  highlight_for_inherited_local_variable uri v = finalize (
      highlight_in uri read_kind (
        map variable_reference_location (
          get_inherited_local_variable_references path s.templates v.uri v.name
            s.html.html_local_variable_references)))

  -- what the loop over the controllers of a form pushes for one of them
  abbrev pub form_highlights : Url → HtmlFormBinding Url → Str → List DocumentHighlight
  form_highlights uri b controller =
      let symbol_name = scope_name b.name controller in
      highlight_in uri read_kind (
        map reference_location
          (retain (in_form_scope b) (get_html_references_for_symbol path s symbol_name)))
      ++ highlight_in uri read_kind
          (map reference_location (get_references s.definitions symbol_name))

  unfoldable pub highlight_for_form_binding :
      Url → HtmlFormBinding Url → Option (List DocumentHighlight)
  unfolding finalize
  highlight_for_form_binding uri b = finalize (
      highlight_in uri write_kind (form_location b ∷ [])
      ++ flat_map (form_highlights uri b)
          (resolve_controllers_for_html path s b.uri b.scope_start_line))

  unfoldable pub highlight_for_scope : Url → List Str → Str → Bool → Option (List DocumentHighlight)
  unfolding collect_symbol_highlights_in_uri
  highlight_for_scope uri controllers property_path is_alias =
      scope_chain s (collect_symbol_highlights_in_uri uri) controllers property_path is_alias

  abbrev pub highlights_of : Url → HtmlResolution Url → Option (List DocumentHighlight)
  highlights_of uri (HtmlPosition.ui_sref r) = highlight_for_ui_sref uri r
  highlights_of uri (HtmlPosition.directive r) = highlight_for_directive uri r.directive_name
  highlights_of uri (HtmlPosition.local_var_def v) = highlight_for_local_variable uri v
  highlights_of uri (HtmlPosition.local_var_ref v) = highlight_for_local_variable uri v
  highlights_of uri (HtmlPosition.inherited_local_var v) =
      highlight_for_inherited_local_variable uri v
  highlights_of uri (HtmlPosition.form_binding_def b) = highlight_for_form_binding uri b
  highlights_of uri (HtmlPosition.inherited_form_binding b) = highlight_for_form_binding uri b
  highlights_of uri (HtmlPosition.scope controllers property_path is_alias) =
      highlight_for_scope uri controllers property_path is_alias

  unfoldable pub document_highlight : (Str → Str) → Url → Position → Option (List DocumentHighlight)
  unfolding highlight_for_ui_sref highlight_for_directive highlight_for_local_variable
      highlight_for_inherited_local_variable highlight_for_form_binding highlight_for_scope
  document_highlight to_lowercase uri position =
      if is_html_file path to_lowercase uri
      then and_then (resolve_stored path s uri position) (highlights_of uri)
      else and_then (find_symbol_at_position s.definitions uri position.line position.character)
          (collect_symbol_highlights_in_uri uri)
