-- ===== src/Handlers/Symbols/Ranges.antt =====
-- The ranges of the outline, which the protocol wants to hold the names.
use angularjs_lsp.Prelude.{◌≤◌, ◌<◌, ◌≡◌, ◌⊎◌, arith}
use angularjs_lsp.Model.Location.{Position, to_lsp_range}
use angularjs_lsp.Model.Span.{Span}
use angularjs_lsp.Model.Symbol.{Symbol}
use angularjs_lsp.Handlers.Symbols.{document_symbol, range_start, range_end}

abbrev pub Before : Position → Position → Type 0
Before a b = (a.line < b.line) ⊎ ((a.line ≡ b.line) × (a.character ≤ b.character))

range_start-Before :
    (a b : Span)
    → Before (range_start a b) ((to_lsp_range a).start)
      × Before (range_start a b) ((to_lsp_range b).start)
      × ((range_start a b ≡ (to_lsp_range a).start) ⊎ (range_start a b ≡ (to_lsp_range b).start))
range_start-Before a b = ground arith

range_end-Before :
    (a b : Span)
    → Before ((to_lsp_range a).end_) (range_end a b)
      × Before ((to_lsp_range b).end_) (range_end a b)
      × ((range_end a b ≡ (to_lsp_range a).end_) ⊎ (range_end a b ≡ (to_lsp_range b).end_))
range_end-Before a b = ground arith

-- The range of a symbol in the outline holds the range of its name and that of its definition, and
-- each of its ends is one of theirs.
pub document_symbol-range :
    {Url : Type 0} (s : Symbol Url)
    → let d = document_symbol s in
      let whole = to_lsp_range s.definition_span in
      Before d.range.start d.selection_range.start
      × Before d.selection_range.end_ d.range.end_
      × Before d.range.start whole.start
      × Before whole.end_ d.range.end_
      × ((d.range.start ≡ whole.start) ⊎ (d.range.start ≡ d.selection_range.start))
      × ((d.range.end_ ≡ whole.end_) ⊎ (d.range.end_ ≡ d.selection_range.end_))
unfolding document_symbol
document_symbol-range s =
    let (a, b, c) = range_start-Before s.definition_span s.name_span in
    let (a', b', c') = range_end-Before s.definition_span s.name_span in (b, b', a, a', c, c')
