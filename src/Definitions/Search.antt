-- ===== src/Definitions/Search.antt =====
-- src/index/definition_store.rs: the search for the symbol at a position of a document.
use mathlib.Core.Option
use angularjs_lsp.Prelude.{
  ℕ, ◌&&◌, Option, none, some, List, [], ◌∷◌, Eq, ◌==◌, nat_eq, list_eq, ltb, if◌then◌else◌,
}
use angularjs_lsp.DashMap
use angularjs_lsp.DashMap.{DashMap}
use angularjs_lsp.Text.{Str}
use angularjs_lsp.Model.Span
use angularjs_lsp.Model.Span.{Span}
use angularjs_lsp.Model.Symbol.{Symbol, SymbolReference, kind_eq}
use angularjs_lsp.Definitions.{DefinitionStore}

-- The best match so far: a name and the size of its span.
abbrev pub Best : Type 0
Best = Option (Str × ℕ)

-- `if best.is_none() || size < best.1 { best = Some((name, size)) }`
unfoldable pub better : Best → Str → ℕ → Best
better none name size = some (name, size)
better (some (n, z)) name size = if ltb size z then some (name, size) else some (n, z)

module _ {Url : Type 0} ⦃e : Eq Url⦄ where
  -- the loop over the definitions of one name
  unfoldable pub scan_definitions : Url → ℕ → ℕ → Best → List (Symbol Url) → Best
  scan_definitions uri line col best [] = best
  scan_definitions uri line col best (d ∷ ds) =
      scan_definitions uri line col
        (if d.uri == uri && Span.contains d.name_span line col
          then better best d.name (Span.range_size d.name_span)
          else best)
        ds

  -- the loop over the references of one name
  unfoldable pub scan_references : Url → ℕ → ℕ → Best → List (SymbolReference Url) → Best
  scan_references uri line col best [] = best
  scan_references uri line col best (r ∷ rs) =
      scan_references uri line col
        (if r.uri == uri && Span.contains r.span line col
          then better best r.name (Span.range_size r.span)
          else best)
        rs

  -- the loop over the names of the document
  unfoldable pub scan_names : Url → ℕ → ℕ → Best → List Str → DefinitionStore Url → Best
  scan_names uri line col best [] s = best
  scan_names uri line col best (name ∷ names) s =
      scan_names uri line col
        (scan_references uri line col
          (scan_definitions uri line col best (DashMap.get_or name [] s.definitions))
          (DashMap.get_or name [] s.references))
        names s

  unfoldable pub find_symbol_at_position : DefinitionStore Url → Url → ℕ → ℕ → Option Str
  unfolding better scan_definitions scan_references scan_names
  find_symbol_at_position s uri line col = elim (DashMap.get uri s.document_symbols) [
    | none ↦ none
    | some names ↦ Option.map (λ b. b.0) (scan_names uri line col none names s)
  ]
