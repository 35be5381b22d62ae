-- ===== src/Definitions/Reads.antt =====
-- What the queries of the definition store return, said by membership: an order of iteration is
-- never fixed.
use mathlib.Core.Path.{subst}
use angularjs_lsp.Prelude.{
  ◌≡◌, ◌≢◌, ◌↔◌, sym, inl, inr, Bool, true, ◌&&◌, some, List, [], arith, Eq, ◌==◌, nat_eq, list_eq,
  ==_sound, retain, flat_map, In, In-retain, retain-In, In-flat_map, flat_map-In, In-map, map-In,
  Option-cases, &&-eq-true,
}
use angularjs_lsp.DashMap
use angularjs_lsp.DashMap.{DashMap, In-of_get, get_of_In}
use angularjs_lsp.Text.{Str}
use angularjs_lsp.Model.Symbol.{Symbol, kind_eq}
use angularjs_lsp.Definitions.Clear.{IsValid}
use angularjs_lsp.Definitions.{
  DefinitionStore, get_definitions, get_references, has_definition, get_all_definitions,
  get_reference_only_names, collect_definitions_for_uri,
}

-- An element of the list under a key, and a place where an iteration meets it.
In-get_or :
    {A : Type 0} (n : Str) (a : A) (m : DashMap Str (List A))
    → In a (DashMap.get_or n [] m)
    → (l : List A) × (DashMap.get n m ≡ some l) × In a l
In-get_or n a m i = elim (Option-cases (DashMap.get n m)) [
  | inl miss ↦ absurd (rw miss at i)
  | inr (l, hit) ↦ (l, hit, rw hit at i)
]

module _ {A : Type 0} (a : A) (m : DashMap Str (List A)) where
  In-entries :
      DashMap.Distinct m → In a (flat_map (λ x. x.1) m) → (n : Str) × In a (DashMap.get_or n [] m)
  In-entries h i =
      let ((n, l), j, k) = In-flat_map (λ x. x.1) a m i in (n, rw (get_of_In n l m h j) k)

  entries-In : (n : Str) → In a (DashMap.get_or n [] m) → In a (flat_map (λ x. x.1) m)
  entries-In n i =
      let (l, hit, j) = In-get_or n a m i in
      flat_map-In (λ x. x.1) a (n, l) m (In-of_get n l m hit) j

module _ {Url : Type 0} ⦃e : Eq Url⦄ where
  -- A symbol found under any name stands under its own.
  under_name :
      (s : DefinitionStore Url) (d : Symbol Url)
      → IsValid s
      → (n : Str) → In d (DashMap.get_or n [] s.definitions)
      → In d (DashMap.get_or d.name [] s.definitions)
  under_name s d v n j =
      subst (λ m. In d (DashMap.get_or m [] s.definitions)) (sym (v.symbols.named n d j)) j

  -- In a valid store the listing of the whole workspace holds exactly what a lookup by name finds.
  pub get_all_definitions_iff :
      (s : DefinitionStore Url) (d : Symbol Url)
      → IsValid s
      → In d (get_all_definitions s) ↔ In d (get_definitions s d.name)
  unfolding get_definitions get_all_definitions
  get_all_definitions_iff s d v = (
    λ i. let (n, j) = In-entries d s.definitions v.symbols.distinct i in under_name s d v n j,
    λ i. entries-In d s.definitions d.name i,
  )

  collect-flat_map :
      (s : DefinitionStore Url) (uri : Url) (p : Symbol Url → Bool)
      → collect_definitions_for_uri s uri p
        ≡ flat_map
            (λ name. retain (λ d. d.uri == uri && p d) (DashMap.get_or name [] s.definitions))
            (DashMap.get_or uri [] s.document_symbols)
  unfolding collect_definitions_for_uri
  collect-flat_map s uri p = elim (Option-cases (DashMap.get uri s.document_symbols)) [
    | inl miss ↦ rw (miss, collect_definitions_for_uri)
    | inr (names, hit) ↦ rw (hit, collect_definitions_for_uri)
  ]

  -- In a valid store the definitions collected for a document through its index are exactly the
  -- stored symbols of that document that pass the test.
  pub collect_definitions_for_uri_iff :
      (s : DefinitionStore Url) (uri : Url) (p : Symbol Url → Bool) (d : Symbol Url)
      → IsValid s
      → In d (collect_definitions_for_uri s uri p)
        ↔ (In d (get_definitions s d.name) × (d.uri ≡ uri) × (p d ≡ true))
  unfolding get_definitions
  collect_definitions_for_uri_iff s uri p d v =
      let f =
        λ (name : Str). retain (λ d. d.uri == uri && p d) (DashMap.get_or name [] s.definitions) in
      let names = DashMap.get_or uri [] s.document_symbols in
      (
        λ i.
            let (n, _, j) = In-flat_map f d names (rw (collect-flat_map s uri p) at i) in
            let (k, passes) =
              In-retain d (λ x. x.uri == uri && p x) (DashMap.get_or n [] s.definitions) j in
            let (here, pd) = &&-eq-true (d.uri == uri) (p d) passes in
            (under_name s d v n k, ==_sound d.uri uri here, pd),
        λ h.
            let indexed = v.symbols.indexed d.name d h.0 in
            rw (collect-flat_map s uri p) (
              flat_map-In f d d.name names (rw h.1 at indexed) (
                retain-In d (λ x. x.uri == uri && p x) (DashMap.get_or d.name [] s.definitions) h.0
                  (ground (arith, e.beq_iff d.uri uri)))),
      )

  -- In a valid store a name is defined exactly when it has a symbol.
  pub has_definition_iff :
      (s : DefinitionStore Url) (n : Str)
      → IsValid s
      → (has_definition s n ≡ true) ↔ (get_definitions s n ≢ [])
  unfolding has_definition get_definitions
  has_definition_iff s n v = ground (arith, v.symbols.nonempty n)

  -- In a valid store the reference-only names are exactly those with a reference and no
  -- definition.
  pub get_reference_only_names_iff :
      (s : DefinitionStore Url) (n : Str)
      → IsValid s
      → In n (get_reference_only_names s) ↔ ((get_references s n ≢ []) × (get_definitions s n ≡ []))
  unfolding get_reference_only_names get_references get_definitions
  get_reference_only_names_iff s n v = (
    λ i.
        let ((k, l), j, same) = In-map (λ x. x.0) n _ i in
        let (at_k, test) = In-retain (k, l) _ s.references j in
        rw same (ground (arith, get_of_In k l s.references v.mentions.distinct at_k)),
    λ h. elim (Option-cases (DashMap.get n s.references)) [
      | inl miss ↦ absurd (ground arith)
      | inr (l, hit) ↦
          map-In (λ x. x.0) (n, l) _
            (retain-In (n, l) _ s.references (In-of_get n l s.references hit) (ground arith))
    ],
  )
