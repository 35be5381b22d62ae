-- ===== src/Definitions/Reanalysis.antt =====
-- Analysing a document again: it is cleared, and then its symbols and references are added anew.
use mathlib.Core.List.{append-nil}
use angularjs_lsp.Prelude.{
  ◌≡◌, refl, ◌∙◌, Bool, false, not, List, [], ◌∷◌, ◌++◌, arith, Eq, ◌==◌, ==_refl, if◌then◌else◌,
  retain, retain-append, retain_idem,
}
use angularjs_lsp.Text.{Str}
use angularjs_lsp.Model.Symbol.{Symbol, SymbolReference}
use angularjs_lsp.Definitions.Clear.{
  Write, definition, reference, clear, clear_everything, IsValid, write, run, write-IsValid,
  add_definition-IsValid, add_reference-IsValid, clear_document-IsValid, clear_document-retain,
}
use angularjs_lsp.Definitions.Additions.{
  get_definitions-add_definition, get_references-add_reference, get_references-add_definition,
  get_definitions-add_reference,
}
use angularjs_lsp.Definitions.{
  DefinitionStore, get_definitions, get_references, clear_document, add_definition, add_reference,
}

-- An element that does not pass leaves no trace.
retain-if :
    {A : Type 0} (keep : A → Bool) (b : Bool) (xs : List A) (a : A)
    → keep a ≡ false
    → retain keep (if b then xs ++ a ∷ [] else xs) ≡ retain keep xs
retain-if keep b xs a h =
    ground (arith, retain-append keep xs (a ∷ []), append-nil (retain keep xs))

module _ {Url : Type 0} ⦃e : Eq Url⦄ where
  -- No name tells the two stores apart.
  pub record SameReads (s t : DefinitionStore Url) : Type 0 where
    pub same_definitions : (n : Str) → get_definitions s n ≡ get_definitions t n
    pub same_references : (n : Str) → get_references s n ≡ get_references t n

  SameReads-trans : {s t u : DefinitionStore Url} → SameReads s t → SameReads t u → SameReads s u
  SameReads-trans p q = record {
    same_definitions = λ n. p.same_definitions n ∙ q.same_definitions n;
    same_references = λ n. p.same_references n ∙ q.same_references n;
  }

  -- The writes that the analysis of one document makes.
  abbrev pub WriteOf : Url → Write Url → Type 0
  WriteOf uri (definition d) = d.uri ≡ uri
  WriteOf uri (reference r) = r.uri ≡ uri
  WriteOf uri (clear u) = u ≡ uri
  WriteOf uri clear_everything = ⊥

  abbrev pub WritesOf : Url → List (Write Url) → Type 0
  WritesOf uri [] = Unit
  WritesOf uri (w ∷ ws) = WriteOf uri w × WritesOf uri ws

  itself : (uri : Url) → not (uri == uri) ≡ false
  itself uri = ground (arith, ==_refl uri)

  abbrev symbol_elsewhere : Url → Symbol Url → Bool
  symbol_elsewhere uri d = not (d.uri == uri)

  abbrev mention_elsewhere : Url → SymbolReference Url → Bool
  mention_elsewhere uri r = not (r.uri == uri)

  module _ (uri : Url) (s : DefinitionStore Url) (v : IsValid s) where
    after_definition :
        (d : Symbol Url)
        → d.uri ≡ uri
        → SameReads (clear_document uri (add_definition d s)) (clear_document uri s)
    after_definition d p =
        let after = clear_document-retain uri (add_definition d s) (add_definition-IsValid d s v) in
        let before = clear_document-retain uri s v in
        record {
          same_definitions = λ n.
              rw ((after n).0, (before n).0, get_definitions-add_definition d s n)
                (retain-if (symbol_elsewhere uri) _ _ d (rw p (itself uri)));
          same_references =
              λ n. rw ((after n).1, (before n).1, get_references-add_definition d s n);
        }

    after_reference :
        (r : SymbolReference Url)
        → r.uri ≡ uri
        → SameReads (clear_document uri (add_reference r s)) (clear_document uri s)
    after_reference r p =
        let after = clear_document-retain uri (add_reference r s) (add_reference-IsValid r s v) in
        let before = clear_document-retain uri s v in
        record {
          same_definitions =
              λ n. rw ((after n).0, (before n).0, get_definitions-add_reference r s n);
          same_references = λ n.
              rw ((after n).1, (before n).1, get_references-add_reference r s n)
                (retain-if (mention_elsewhere uri) _ _ r (rw p (itself uri)));
        }

    after_clear : SameReads (clear_document uri (clear_document uri s)) (clear_document uri s)
    after_clear =
        let after =
          clear_document-retain uri (clear_document uri s) (clear_document-IsValid uri s v) in
        let before = clear_document-retain uri s v in
        record {
          same_definitions =
              λ n. rw ((after n).0, (before n).0) (retain_idem (symbol_elsewhere uri) _);
          same_references =
              λ n. rw ((after n).1, (before n).1) (retain_idem (mention_elsewhere uri) _);
        }

  after_write :
      (uri : Url) (w : Write Url) (s : DefinitionStore Url)
      → IsValid s
      → WriteOf uri w
      → SameReads (clear_document uri (write w s)) (clear_document uri s)
  unfolding write
  after_write uri (definition d) s v p = after_definition uri s v d p
  after_write uri (reference r) s v p = after_reference uri s v r p
  after_write uri (clear u) s v p = rw p (after_clear uri s v)
  after_write uri clear_everything s v p = absurd p

  -- From a valid store, any additions and clearings of one document followed by its clearing read,
  -- under every name, as its clearing alone.
  pub clear_document-run :
      (uri : Url) (ws : List (Write Url)) (s : DefinitionStore Url)
      → IsValid s
      → WritesOf uri ws
      → SameReads (clear_document uri (run ws s)) (clear_document uri s)
  unfolding run
  clear_document-run uri [] s v p = record {
    same_definitions = λ n. refl;
    same_references = λ n. refl;
  }
  clear_document-run uri (w ∷ ws) s v p =
      SameReads-trans (clear_document-run uri ws (write w s) (write-IsValid w s v) p.1)
        (after_write uri w s v p.0)
