-- ===== src/Handlers/Symbols.antt =====
-- src/handler/document_symbol.rs and src/handler/workspace_symbol.rs: the outline of a document and
-- the search of the workspace. `to_lowercase` is Rust's on a whole text.
pub mod Ranges
pub mod Search
use angularjs_lsp.Prelude.{
  ℕ, Bool, true, false, ◌&&◌, ◌||◌, Option, none, some, List, [], ◌∷◌, map, Eq, ltb, leb, nat_beq,
  if◌then◌else◌, retain, is_empty,
}
use angularjs_lsp.Text.{Str, codes, has_text}
use angularjs_lsp.Model.Location.{Position, Range, Location, to_lsp_range}
use angularjs_lsp.Model.Span.{Span}
use angularjs_lsp.Model.Symbol.{
  Symbol, SymbolKind, LspSymbolKind, to_lsp_symbol_kind, as_str, angular_module, controller,
  service, factory, directive, component, provider, filter, constant, value,
}
use angularjs_lsp.Definitions.{get_all_definitions}
use angularjs_lsp.Index.{Index}
use angularjs_lsp.Index.Declarations.{get_document_symbols}

-- The fields of the protocol's `DocumentSymbol` that the handler fills with more than `None`.
pub record DocumentSymbol : Type 0 where
  pub name : Str
  pub detail : Option Str
  pub kind : LspSymbolKind
  pub range : Range
  pub selection_range : Range

pub record SymbolInformation (Url : Type 0) : Type 0 where
  pub name : Str
  pub kind : LspSymbolKind
  pub location : Location Url
  pub container_name : Option Str

abbrev min : ℕ → ℕ → ℕ
min a b = if leb a b then a else b

abbrev max : ℕ → ℕ → ℕ
max a b = if leb a b then b else a

-- `range_start_line` and `range_start_col`
abbrev pub range_start : Span → Span → Position
range_start definition_span name_span =
    let line = min definition_span.start_line name_span.start_line in
    record {
      line = line;
      character =
          if nat_beq line definition_span.start_line && nat_beq line name_span.start_line
          then min definition_span.start_col name_span.start_col
          else if nat_beq line definition_span.start_line
          then definition_span.start_col
          else name_span.start_col;
    }

abbrev pub range_end : Span → Span → Position
range_end definition_span name_span =
    let line = max definition_span.end_line name_span.end_line in
    record {
      line = line;
      character =
          if nat_beq line definition_span.end_line && nat_beq line name_span.end_line
          then max definition_span.end_col name_span.end_col
          else if nat_beq line definition_span.end_line
          then definition_span.end_col
          else name_span.end_col;
    }

module _ {Url : Type 0} where
  -- the closure over each symbol
  unfoldable pub document_symbol : Symbol Url → DocumentSymbol
  document_symbol s = record {
    name = s.name;
    detail = some (as_str s.kind);
    kind = to_lsp_symbol_kind s.kind;
    range = record {
      start = range_start s.definition_span s.name_span;
      end_ = range_end s.definition_span s.name_span;
    };
    selection_range = to_lsp_range s.name_span;
  }

  unfoldable pub document_symbols : ⦃e : Eq Url⦄ → Index Url → Url → Option (List DocumentSymbol)
  unfolding document_symbol
  document_symbols s uri =
      let symbols = get_document_symbols s uri in
      if is_empty symbols then none else some (map document_symbol symbols)

abbrev pub is_top_level_symbol : SymbolKind → Bool
is_top_level_symbol angular_module = true
is_top_level_symbol controller = true
is_top_level_symbol service = true
is_top_level_symbol factory = true
is_top_level_symbol directive = true
is_top_level_symbol component = true
is_top_level_symbol provider = true
is_top_level_symbol filter = true
is_top_level_symbol constant = true
is_top_level_symbol value = true
is_top_level_symbol _ = false

module _ {Url : Type 0} (to_lowercase : Str → Str) where
  abbrev pub matches_query : Str → Symbol Url → Bool
  matches_query query sym = is_empty query || has_text (to_lowercase sym.name) (to_lowercase query)

  abbrev pub symbol_information : Symbol Url → SymbolInformation Url
  symbol_information sym = record {
    name = sym.name;
    kind = to_lsp_symbol_kind sym.kind;
    location = record { uri = sym.uri; range = to_lsp_range sym.definition_span };
    container_name = some (as_str sym.kind);
  }

  unfoldable pub handle : Index Url → Str → List (SymbolInformation Url)
  handle s query = map symbol_information (
      retain (matches_query query)
        (retain (λ sym. is_top_level_symbol sym.kind) (get_all_definitions s.definitions)))
