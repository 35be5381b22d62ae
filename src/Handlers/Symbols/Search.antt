-- ===== src/Handlers/Symbols/Search.antt =====
-- What the search of the workspace finds.
use angularjs_lsp.Prelude.{
  ◌≡◌, ◌↔◌, ◌⊎◌, inl, inr, refl, Eq, true, some, List, [], ◌∷◌, ◌++◌, arith, is_empty, retain, In,
  In-map, map-In, In-retain, retain-In, Bool-cases,
}
use angularjs_lsp.Text.{Str}
use angularjs_lsp.Text.Splits.{has_text_iff}
use angularjs_lsp.Model.Location.{to_lsp_range}
use angularjs_lsp.Model.Symbol.{
  Symbol, SymbolKind, to_lsp_symbol_kind, as_str, angular_module, controller, service, factory,
  directive, component, provider, filter, constant, value,
}
use angularjs_lsp.Definitions.{get_definitions, get_all_definitions}
use angularjs_lsp.Definitions.Clear.{IsValid}
use angularjs_lsp.Definitions.Reads.{get_all_definitions_iff}
use angularjs_lsp.Index.{Index}
use angularjs_lsp.Handlers.Symbols.{
  SymbolInformation, is_top_level_symbol, matches_query, symbol_information, handle,
}

-- the kinds that the search shows
abbrev pub shown_kinds : List SymbolKind
shown_kinds =
    angular_module ∷ controller ∷ service ∷ factory ∷ directive ∷ component ∷ provider ∷ filter
    ∷ constant ∷ value ∷ []

is_top_level_symbol_iff : (k : SymbolKind) → (is_top_level_symbol k ≡ true) ↔ In k shown_kinds
is_top_level_symbol_iff k = ground arith

-- The text in small letters holds the query in small letters, or the query is empty.
abbrev pub Matches : (Str → Str) → Str → Str → Type 0
Matches to_lowercase query name =
    (query ≡ [])
    ⊎ ((pre : Str) × (post : Str) × (to_lowercase name ≡ pre ++ (to_lowercase query ++ post)))

module _ {Url : Type 0} ⦃e : Eq Url⦄ (to_lowercase : Str → Str) where
  matches_query_iff :
      (query : Str) (d : Symbol Url)
      → (matches_query to_lowercase query d ≡ true) ↔ Matches to_lowercase query d.name
  matches_query_iff query d = (
    λ h. elim (Bool-cases (is_empty query)) [
      | inl empty ↦ inl (ground arith)
      | inr filled ↦
          inr ((has_text_iff (to_lowercase d.name) (to_lowercase query)).0 (ground arith))
    ],
    λ h. elim h [
      | inl empty ↦ rw empty refl
      | inr there ↦
          let held = (has_text_iff (to_lowercase d.name) (to_lowercase query)).1 there in
          ground arith
    ],
  )

  -- The answer is that for a symbol of the workspace, of a kind that is shown, that the query
  -- looks for: its name, its kind, the place of its definition, and its kind as a text.
  abbrev pub IsHit : Index Url → Str → SymbolInformation Url → Type 0
  IsHit s query i =
      (d : Symbol Url) × In d (get_definitions s.definitions d.name)
      × In d.kind shown_kinds
      × Matches to_lowercase query d.name
      × (i.name ≡ d.name)
      × (i.kind ≡ to_lsp_symbol_kind d.kind)
      × (i.location.uri ≡ d.uri)
      × (i.location.range ≡ to_lsp_range d.definition_span)
      × (i.container_name ≡ some (as_str d.kind))

  hit :
      (s : Index Url) (query : Str) (i : SymbolInformation Url)
      → IsValid s.definitions
      → In i (handle to_lowercase s query)
      → IsHit s query i
  unfolding handle
  hit s query i v h =
      let top = λ (d : Symbol Url). is_top_level_symbol d.kind in
      let all = get_all_definitions s.definitions in
      let (d, j, e) =
        In-map (symbol_information to_lowercase) i
          (retain (matches_query to_lowercase query) (retain top all)) h in
      let (k, m) = In-retain d (matches_query to_lowercase query) (retain top all) j in
      let (l, t) = In-retain d top all k in
      (
        d,
        (get_all_definitions_iff s.definitions d v).0 l,
        (is_top_level_symbol_iff d.kind).0 t,
        (matches_query_iff query d).0 m,
        rw e refl,
        rw e refl,
        rw e refl,
        rw e refl,
        rw e refl,
      )

  hit-handle :
      (s : Index Url) (query : Str) (i : SymbolInformation Url)
      → IsValid s.definitions
      → IsHit s query i
      → In i (handle to_lowercase s query)
  unfolding handle
  hit-handle s query i v (d, j, k, m, name, kind, uri, range, container) =
      let top = λ (d : Symbol Url). is_top_level_symbol d.kind in
      let all = get_all_definitions s.definitions in
      let e : symbol_information to_lowercase d ≡ i = ground arith in
      rw (← e) (
        map-In (symbol_information to_lowercase) d
          (retain (matches_query to_lowercase query) (retain top all))
          (retain-In d (matches_query to_lowercase query) (retain top all)
            (retain-In d top all ((get_all_definitions_iff s.definitions d v).1 j)
              ((is_top_level_symbol_iff d.kind).1 k))
            ((matches_query_iff query d).1 m)))

  -- In a valid store, the search of the workspace answers exactly with the name, the kind, the
  -- place of the definition and the kind as a text of the modules, controllers, services,
  -- factories, directives, components, providers, filters, constants and values whose name in
  -- small letters holds the query in small letters, and of all of these for an empty query.
  pub handle_iff :
      (s : Index Url) (query : Str) (i : SymbolInformation Url)
      → IsValid s.definitions
      → In i (handle to_lowercase s query) ↔ IsHit s query i
  handle_iff s query i v = (hit s query i v, hit-handle s query i v)
