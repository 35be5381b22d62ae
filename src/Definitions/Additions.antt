-- ===== src/Definitions/Additions.antt =====
-- What a name reads after an addition to the store.
use angularjs_lsp.Prelude.{
  ◌≡◌, not, ◌&&◌, [], ◌∷◌, ◌++◌, arith, Eq, ◌==◌, nat_eq, list_eq, list_beq_iff, if◌then◌else◌, any,
}
use angularjs_lsp.DashMap
use angularjs_lsp.DashMap.{DashMap, get_or-insert, get_or-touch, remove_absent}
use angularjs_lsp.Text.{Str}
use angularjs_lsp.Model.Symbol.{Symbol, SymbolReference}
use angularjs_lsp.Definitions.{
  DefinitionStore, get_definitions, get_references, same_definition, same_reference, add_definition,
  add_reference,
}

module _ {Url : Type 0} ⦃e : Eq Url⦄ where
  -- After an addition the list under the name of the symbol has the symbol at its end if no symbol
  -- of the same document starts at the same place, and is the old list otherwise and under every
  -- other name.
  pub get_definitions-add_definition :
      (d : Symbol Url) (s : DefinitionStore Url) (n : Str)
      → get_definitions (add_definition d s) n ≡ (
          if d.name == n && not (any (λ x. same_definition x d) (get_definitions s n))
          then get_definitions s n ++ d ∷ []
          else get_definitions s n)
  unfolding get_definitions add_definition
  get_definitions-add_definition d s n =
      let l = DashMap.get_or d.name [] s.definitions in
      ground (
        arith,
        list_beq_iff d.name n,
        get_or-insert d.name n [] (l ++ d ∷ []) s.definitions,
        get_or-insert d.name n [] l s.definitions,
      )

  pub get_references-add_reference :
      (r : SymbolReference Url) (s : DefinitionStore Url) (n : Str)
      → get_references (add_reference r s) n ≡ (
          if r.name == n && not (any (λ x. same_reference x r) (get_references s n))
          then get_references s n ++ r ∷ []
          else get_references s n)
  unfolding get_references add_reference
  get_references-add_reference r s n =
      let l = DashMap.get_or r.name [] s.references in
      ground (
        arith,
        list_beq_iff r.name n,
        get_or-insert r.name n [] (l ++ r ∷ []) s.references,
        get_or-insert r.name n [] l s.references,
      )

  pub get_references-add_definition :
      (d : Symbol Url) (s : DefinitionStore Url) (n : Str)
      → get_references (add_definition d s) n ≡ get_references s n
  unfolding add_definition get_references
  get_references-add_definition d s n = ground arith

  pub get_definitions-add_reference :
      (r : SymbolReference Url) (s : DefinitionStore Url) (n : Str)
      → get_definitions (add_reference r s) n ≡ get_definitions s n
  unfolding add_reference get_definitions
  get_definitions-add_reference r s n = ground arith
