-- ===== src/Definitions.antt =====
-- src/index/definition_store.rs: the symbols and references of the workspace by name, and for
-- each document the names that it contributed. The proofs stand in the modules below.
pub mod Table
pub mod Invariant
pub mod Clear
pub mod Additions
pub mod Reanalysis
pub mod Reads
pub mod Search
pub mod Position
use mathlib.Core.Option
use angularjs_lsp.Prelude.{
  ℕ, ◌+◌, ◌≡◌, refl, Bool, true, false, not, ◌&&◌, ◌||◌, Option, none, some, List, [], ◌∷◌, ◌++◌,
  map, arith, Eq, ◌==◌, nat_eq, list_eq, nat_beq, ltb, leb, if◌then◌else◌, any, retain, find,
  is_empty, flat_map, contains, set_insert, is_some,
}
use angularjs_lsp.DashMap
use angularjs_lsp.DashMap.{DashMap}
use angularjs_lsp.Text.{Str, codes, ends_with}
use angularjs_lsp.Model.Span
use angularjs_lsp.Model.Span.{Span}
use angularjs_lsp.Model.Symbol.{
  Symbol, SymbolKind, SymbolReference, kind_eq, service, factory, scope_property, scope_method,
  root_scope_property, root_scope_method,
}

pub record DefinitionStore (Url : Type 0) : Type 0 where
  pub definitions : DashMap Str (List (Symbol Url))
  pub references : DashMap Str (List (SymbolReference Url))
  pub document_symbols : DashMap Url (List Str)

abbrev root_scope_suffix : Str → Str
root_scope_suffix property_path = codes ".$rootScope." ++ property_path

-- `get_mut(name)` with `retain`, then `remove_if` the value is empty
unfoldable pub purge : {A : Type 0} → (A → Bool) → Str → DashMap Str (List A) → DashMap Str (List A)
purge keep name m = elim (DashMap.get name m) [
  | none ↦ m
  | some l ↦
      let kept = retain keep l in
      if is_empty kept then DashMap.remove name m else DashMap.insert name kept m
]

module _ {Url : Type 0} where
  unfoldable pub new : DefinitionStore Url
  new = record { definitions = []; references = []; document_symbols = [] }

  unfoldable pub clear_all : DefinitionStore Url → DefinitionStore Url
  clear_all s = record { definitions = []; references = []; document_symbols = [] }

  unfoldable pub get_definitions : DefinitionStore Url → Str → List (Symbol Url)
  unfolding DashMap.get
  get_definitions s name = DashMap.get_or name [] s.definitions

  unfoldable pub has_definition : DefinitionStore Url → Str → Bool
  has_definition s name = DashMap.contains_key name s.definitions

  unfoldable pub has_definition_of_kind : DefinitionStore Url → Str → SymbolKind → Bool
  has_definition_of_kind s name kind = elim (DashMap.get name s.definitions) [
    | none ↦ false
    | some defs ↦ any (λ d. d.kind == kind) defs
  ]

  unfoldable pub get_references : DefinitionStore Url → Str → List (SymbolReference Url)
  get_references s name = DashMap.get_or name [] s.references

  -- the loop returns at the first hit
  unfoldable pub any_reference : DefinitionStore Url → Str → (SymbolReference Url → Bool) → Bool
  any_reference s name f = elim (DashMap.get name s.references) [
    | none ↦ false
    | some refs ↦ any f refs
  ]

  unfoldable pub get_all_definitions : DefinitionStore Url → List (Symbol Url)
  get_all_definitions s = flat_map (λ entry. entry.1) s.definitions

  unfoldable pub is_service_or_factory : DefinitionStore Url → Str → Bool
  is_service_or_factory s name = elim (DashMap.get name s.definitions) [
    | none ↦ false
    | some symbols ↦ any (λ d. d.kind == service || d.kind == factory) symbols
  ]

  unfoldable pub get_reference_only_names : DefinitionStore Url → List Str
  get_reference_only_names s =
      map (λ entry. entry.0)
        (retain
          (λ entry.
            not (is_empty entry.1)
            && Option.get_or (Option.map is_empty (DashMap.get entry.0 s.definitions)) true)
          s.references)

  unfoldable pub find_root_scope_definitions_by_property :
      DefinitionStore Url → Str → List (Symbol Url)
  find_root_scope_definitions_by_property s property_path =
      retain (λ d. d.kind == root_scope_property || d.kind == root_scope_method)
        (flat_map (λ entry. entry.1)
          (retain (λ entry. ends_with entry.0 (root_scope_suffix property_path)) s.definitions))

  unfoldable pub find_root_scope_references_by_property :
      DefinitionStore Url → Str → List (SymbolReference Url)
  find_root_scope_references_by_property s property_path =
      flat_map (λ entry. entry.1)
        (retain (λ entry. ends_with entry.0 (root_scope_suffix property_path)) s.references)

  unfoldable pub find_root_scope_symbol_name_by_property : DefinitionStore Url → Str → Option Str
  find_root_scope_symbol_name_by_property s property_path =
      Option.map (λ entry. entry.0)
        (find (λ entry. ends_with entry.0 (root_scope_suffix property_path)) s.definitions)

module _ {Url : Type 0} ⦃e : Eq Url⦄ where
  -- the test for a duplicate in `add_definition`
  abbrev pub same_definition : Symbol Url → Symbol Url → Bool
  same_definition a b =
      a.uri == b.uri
      && nat_beq a.definition_span.start_line b.definition_span.start_line
      && nat_beq a.definition_span.start_col b.definition_span.start_col

  abbrev pub same_reference : SymbolReference Url → SymbolReference Url → Bool
  same_reference a b =
      a.uri == b.uri
      && nat_beq a.span.start_line b.span.start_line
      && nat_beq a.span.start_col b.span.start_col

  unfoldable pub add_definition : Symbol Url → DefinitionStore Url → DefinitionStore Url
  add_definition symbol s =
      let entry = DashMap.get_or symbol.name [] s.definitions in
      if any (λ d. same_definition d symbol) entry
      then record s { definitions = DashMap.insert symbol.name entry s.definitions }
      else record s {
        definitions = DashMap.insert symbol.name (entry ++ symbol ∷ []) s.definitions;
        document_symbols = DashMap.update symbol.uri [] (set_insert symbol.name) s.document_symbols;
      }

  unfoldable pub add_reference : SymbolReference Url → DefinitionStore Url → DefinitionStore Url
  add_reference reference s =
      let entry = DashMap.get_or reference.name [] s.references in
      if any (λ r. same_reference r reference) entry
      then record s { references = DashMap.insert reference.name entry s.references }
      else record s {
        references = DashMap.insert reference.name (entry ++ reference ∷ []) s.references;
        document_symbols =
            DashMap.update reference.uri [] (set_insert reference.name) s.document_symbols;
      }

  unfoldable pub collect_definitions_for_uri :
      DefinitionStore Url → Url → (Symbol Url → Bool) → List (Symbol Url)
  collect_definitions_for_uri s uri predicate = elim (DashMap.get uri s.document_symbols) [
    | none ↦ []
    | some names ↦
        flat_map
          (λ name. retain (λ d. d.uri == uri && predicate d) (DashMap.get_or name [] s.definitions))
          names
  ]

  unfoldable pub get_definitions_for_uri : DefinitionStore Url → Url → List (Symbol Url)
  get_definitions_for_uri s uri = collect_definitions_for_uri s uri (λ _. true)

  unfoldable pub get_scope_definitions_for_js : DefinitionStore Url → Url → List (Symbol Url)
  get_scope_definitions_for_js s uri =
      collect_definitions_for_uri s uri (λ d. d.kind == scope_property || d.kind == scope_method)

  unfoldable pub get_reference_names_for_uri : DefinitionStore Url → Url → List Str
  get_reference_names_for_uri s uri = elim (DashMap.get uri s.document_symbols) [
    | none ↦ []
    | some names ↦
        retain (λ name. any (λ r. r.uri == uri) (DashMap.get_or name [] s.references)) names
  ]

  unfoldable pub get_definition_names_for_uri : DefinitionStore Url → Url → List Str
  get_definition_names_for_uri s uri = elim (DashMap.get uri s.document_symbols) [
    | none ↦ []
    | some names ↦
        retain (λ name. any (λ d. d.uri == uri) (DashMap.get_or name [] s.definitions)) names
  ]

  unfoldable pub clear_names : Url → List Str → DefinitionStore Url → DefinitionStore Url
  unfolding purge
  clear_names uri [] s = s
  clear_names uri (name ∷ names) s = clear_names uri names (record s {
    definitions = purge (λ d. not (d.uri == uri)) name s.definitions;
    references = purge (λ r. not (r.uri == uri)) name s.references;
  })

  unfoldable pub clear_document : Url → DefinitionStore Url → DefinitionStore Url
  clear_document uri s = elim (DashMap.get uri s.document_symbols) [
    | none ↦ s
    | some names ↦
        clear_names uri names
          (record s { document_symbols = DashMap.remove uri s.document_symbols })
  ]
