-- ===== src/Definitions/Clear.antt =====
-- The store's invariant, and what the operations that write make of the state.
use angularjs_lsp.Prelude.{
  ◌≡◌, refl, inl, inr, not, List, [], ◌∷◌, sym, Eq, ◌==◌, nat_eq, list_eq, any, retain, Bool-cases,
  Option-cases,
}
use angularjs_lsp.DashMap
use angularjs_lsp.DashMap.{DashMap, get_or-insert, get_or-touch, remove_absent}
use angularjs_lsp.Text.{Str}
use angularjs_lsp.Model.Symbol.{Symbol, SymbolReference}
use angularjs_lsp.Definitions.Table.{purge_all}
use angularjs_lsp.Definitions.Invariant.{
  IsTable, IsTable-empty, IsTable-grow, IsTable-touch, IsTable-push, IsTable-purge_document,
  get_or-purge_document,
}
use angularjs_lsp.Definitions.{
  DefinitionStore, new, clear_all, get_definitions, get_references, same_definition, same_reference,
  clear_names, clear_document, add_definition, add_reference,
}

-- The writes of a history.
pub data Write (Url : Type 0) : Type 0 where
  definition : Symbol Url → Write Url
  reference : SymbolReference Url → Write Url
  clear : Url → Write Url
  clear_everything : Write Url

module _ {Url : Type 0} ⦃e : Eq Url⦄ where
  -- Each symbol and each reference stands under its own name, is indexed under its document, does
  -- not repeat the place of another, and no name holds an empty list.
  pub record IsValid (s : DefinitionStore Url) : Type 0 where
    pub symbols :
        IsTable (λ d. d.name) (λ d. d.uri) same_definition s.document_symbols s.definitions
    pub mentions : IsTable (λ r. r.name) (λ r. r.uri) same_reference s.document_symbols s.references

  pub new-IsValid : IsValid new
  unfolding new
  new-IsValid = record { symbols = IsTable-empty _ _ _; mentions = IsTable-empty _ _ _ }

  pub add_definition-IsValid :
      (d : Symbol Url) (s : DefinitionStore Url) → IsValid s → IsValid (add_definition d s)
  unfolding add_definition
  add_definition-IsValid d s v =
      elim (Bool-cases (any (λ x. same_definition x d) (DashMap.get_or d.name [] s.definitions))) [
        | inl old ↦ rw old (record {
          symbols = IsTable-touch _ _ _ d.name (λ x. same_definition x d) old v.symbols;
          mentions = v.mentions;
        })
        | inr fresh ↦ rw fresh (record {
          symbols = IsTable-push _ _ _ d fresh v.symbols;
          mentions = IsTable-grow _ _ _ d.name d.uri v.mentions;
        })
      ]

  pub add_reference-IsValid :
      (r : SymbolReference Url) (s : DefinitionStore Url) → IsValid s → IsValid (add_reference r s)
  unfolding add_reference
  add_reference-IsValid r s v =
      elim (Bool-cases (any (λ x. same_reference x r) (DashMap.get_or r.name [] s.references))) [
        | inl old ↦ rw old (record {
          symbols = v.symbols;
          mentions = IsTable-touch _ _ _ r.name (λ x. same_reference x r) old v.mentions;
        })
        | inr fresh ↦ rw fresh (record {
          symbols = IsTable-grow _ _ _ r.name r.uri v.symbols;
          mentions = IsTable-push _ _ _ r fresh v.mentions;
        })
      ]

  definitions-clear_names :
      (uri : Url) (names : List Str) (s : DefinitionStore Url)
      → (clear_names uri names s).definitions
        ≡ purge_all (λ d. not (d.uri == uri)) names s.definitions
  unfolding clear_names purge_all
  definitions-clear_names uri [] s = refl
  definitions-clear_names uri (name ∷ names) s = definitions-clear_names uri names _

  references-clear_names :
      (uri : Url) (names : List Str) (s : DefinitionStore Url)
      → (clear_names uri names s).references
        ≡ purge_all (λ r. not (r.uri == uri)) names s.references
  unfolding clear_names purge_all
  references-clear_names uri [] s = refl
  references-clear_names uri (name ∷ names) s = references-clear_names uri names _

  document_symbols-clear_names :
      (uri : Url) (names : List Str) (s : DefinitionStore Url)
      → (clear_names uri names s).document_symbols ≡ s.document_symbols
  unfolding clear_names
  document_symbols-clear_names uri [] s = refl
  document_symbols-clear_names uri (name ∷ names) s = document_symbols-clear_names uri names _

  -- The three parts of the state after a document is cleared.
  definitions-clear_document :
      (uri : Url) (s : DefinitionStore Url)
      → (clear_document uri s).definitions
        ≡ purge_all
            (λ d. not (d.uri == uri))
            (DashMap.get_or uri [] s.document_symbols)
            s.definitions
  unfolding clear_document purge_all
  definitions-clear_document uri s = elim (Option-cases (DashMap.get uri s.document_symbols)) [
    | inl miss ↦ rw (miss, clear_document)
    | inr (names, hit) ↦ rw (hit, clear_document) (definitions-clear_names uri names _)
  ]

  references-clear_document :
      (uri : Url) (s : DefinitionStore Url)
      → (clear_document uri s).references
        ≡ purge_all
            (λ r. not (r.uri == uri))
            (DashMap.get_or uri [] s.document_symbols)
            s.references
  unfolding clear_document purge_all
  references-clear_document uri s = elim (Option-cases (DashMap.get uri s.document_symbols)) [
    | inl miss ↦ rw (miss, clear_document)
    | inr (names, hit) ↦ rw (hit, clear_document) (references-clear_names uri names _)
  ]

  pub document_symbols-clear_document :
      (uri : Url) (s : DefinitionStore Url)
      → (clear_document uri s).document_symbols ≡ DashMap.remove uri s.document_symbols
  unfolding clear_document
  document_symbols-clear_document uri s = elim (Option-cases (DashMap.get uri s.document_symbols)) [
    | inl miss ↦ rw (miss, clear_document) (sym (remove_absent uri s.document_symbols miss))
    | inr (names, hit) ↦ rw (hit, clear_document) (document_symbols-clear_names uri names _)
  ]

  pub clear_document-IsValid :
      (uri : Url) (s : DefinitionStore Url) → IsValid s → IsValid (clear_document uri s)
  clear_document-IsValid uri s v = record {
    symbols =
        rw (document_symbols-clear_document uri s, definitions-clear_document uri s)
          (IsTable-purge_document _ _ _ uri v.symbols);
    mentions =
        rw (document_symbols-clear_document uri s, references-clear_document uri s)
          (IsTable-purge_document _ _ _ uri v.mentions);
  }

  unfoldable pub write : Write Url → DefinitionStore Url → DefinitionStore Url
  write (definition d) s = add_definition d s
  write (reference r) s = add_reference r s
  write (clear uri) s = clear_document uri s
  write clear_everything s = clear_all s

  unfoldable pub run : List (Write Url) → DefinitionStore Url → DefinitionStore Url
  unfolding write
  run [] s = s
  run (w ∷ ws) s = run ws (write w s)

  pub write-IsValid : (w : Write Url) (s : DefinitionStore Url) → IsValid s → IsValid (write w s)
  unfolding write clear_all
  write-IsValid (definition d) s v = add_definition-IsValid d s v
  write-IsValid (reference r) s v = add_reference-IsValid r s v
  write-IsValid (clear uri) s v = clear_document-IsValid uri s v
  write-IsValid clear_everything s v = unfold new in new-IsValid

  run-IsValid : (ws : List (Write Url)) (s : DefinitionStore Url) → IsValid s → IsValid (run ws s)
  unfolding run
  run-IsValid [] s v = v
  run-IsValid (w ∷ ws) s v = run-IsValid ws (write w s) (write-IsValid w s v)

  -- After any sequence of additions and clearings from an empty store, each symbol and reference
  -- stands under its own name, is indexed under its document and repeats no place of another, and
  -- no name holds an empty list.
  pub run-new-IsValid : (ws : List (Write Url)) → IsValid (run ws new)
  run-new-IsValid ws = run-IsValid ws new new-IsValid

  -- From a valid store, clearing a document removes its own symbols and references, under every
  -- name, and keeps all others in their order.
  pub clear_document-retain :
      (uri : Url) (s : DefinitionStore Url)
      → IsValid s
      → (n : Str)
      → (get_definitions (clear_document uri s) n
          ≡ retain (λ d. not (d.uri == uri)) (get_definitions s n))
        × (get_references (clear_document uri s) n
            ≡ retain (λ r. not (r.uri == uri)) (get_references s n))
  unfolding get_definitions get_references
  clear_document-retain uri s v n = (
    rw (definitions-clear_document uri s) (get_or-purge_document _ _ _ uri v.symbols n),
    rw (references-clear_document uri s) (get_or-purge_document _ _ _ uri v.mentions n),
  )
