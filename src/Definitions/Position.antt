-- ===== src/Definitions/Position.antt =====
-- The symbol under the cursor: the search over the names of a document finds a smallest span.
mod Smallest
use mathlib.Core.Option
use mathlib.Core.Path.{subst}
use angularjs_lsp.Prelude.{
  ℕ, ◌≤◌, ◌≡◌, ◌≢◌, refl, sym, ◌∙◌, ap, ◌⊎◌, inl, inr, Bool, true, ◌&&◌, Option, none, some, List,
  [], ◌∷◌, ◌++◌, map, arith, Eq, ◌==◌, nat_eq, list_eq, ==_sound, ltb, retain, flat_map, In,
  In-append, In-append_left, In-append_right, In-retain, retain-In, In-flat_map, flat_map-In,
  In-map, map-In, Option-cases, Bool-cases, &&-eq-true,
}
use angularjs_lsp.DashMap
use angularjs_lsp.Text.{Str}
use angularjs_lsp.Model.Span
use angularjs_lsp.Model.Symbol.{Symbol, SymbolReference}
use angularjs_lsp.Definitions.Clear.{IsValid}
use angularjs_lsp.Definitions.{DefinitionStore, get_definitions, get_references}
use angularjs_lsp.Definitions.Search.{
  Best, better, scan_definitions, scan_references, scan_names, find_symbol_at_position,
}
use angularjs_lsp.Definitions.Position.Smallest.{
  smallest, smallest-append, smallest-none, smallest_lem, pair_path, map-none, map-some,
}

module _ {Url : Type 0} ⦃e : Eq Url⦄ (uri : Url) (line col : ℕ) where
  abbrev symbol_here : Symbol Url → Bool
  symbol_here d = d.uri == uri && Span.contains d.name_span line col

  abbrev mention_here : SymbolReference Url → Bool
  mention_here r = r.uri == uri && Span.contains r.span line col

  abbrev symbol_size : Symbol Url → Str × ℕ
  symbol_size d = (d.name, Span.range_size d.name_span)

  abbrev mention_size : SymbolReference Url → Str × ℕ
  mention_size r = (r.name, Span.range_size r.span)

  -- What the search considers under one name.
  abbrev candidates : DefinitionStore Url → Str → List (Str × ℕ)
  candidates s n =
      map symbol_size (retain symbol_here (DashMap.get_or n [] s.definitions))
      ++ map mention_size (retain mention_here (DashMap.get_or n [] s.references))

  scan_definitions-smallest :
      (best : Best) (ds : List (Symbol Url))
      → scan_definitions uri line col best ds
        ≡ smallest best (map symbol_size (retain symbol_here ds))
  unfolding scan_definitions smallest
  scan_definitions-smallest best [] = refl
  scan_definitions-smallest best (d ∷ ds) = elim (Bool-cases (symbol_here d)) [
    | inl hit ↦
        rw (hit) (scan_definitions-smallest (better best d.name (Span.range_size d.name_span)) ds)
    | inr miss ↦ rw (miss) (scan_definitions-smallest best ds)
  ]

  scan_references-smallest :
      (best : Best) (rs : List (SymbolReference Url))
      → scan_references uri line col best rs
        ≡ smallest best (map mention_size (retain mention_here rs))
  unfolding scan_references smallest
  scan_references-smallest best [] = refl
  scan_references-smallest best (r ∷ rs) = elim (Bool-cases (mention_here r)) [
    | inl hit ↦ rw (hit) (scan_references-smallest (better best r.name (Span.range_size r.span)) rs)
    | inr miss ↦ rw (miss) (scan_references-smallest best rs)
  ]

  scan_names-smallest :
      (best : Best) (names : List Str) (s : DefinitionStore Url)
      → scan_names uri line col best names s ≡ smallest best (flat_map (candidates s) names)
  unfolding scan_names smallest
  scan_names-smallest best [] s = refl
  scan_names-smallest best (n ∷ names) s =
      let ds = DashMap.get_or n [] s.definitions in
      let rs = DashMap.get_or n [] s.references in
      let after = scan_definitions uri line col best ds in
      let rest = flat_map (candidates s) names in
      scan_names-smallest (scan_references uri line col after rs) names s
      ∙ ap (λ b. smallest b rest) (scan_references-smallest after rs)
      ∙ ap (λ b. smallest (smallest b (map mention_size (retain mention_here rs))) rest)
          (scan_definitions-smallest best ds)
      ∙ ap (λ b. smallest b rest)
          (sym (smallest-append best (map symbol_size (retain symbol_here ds)) _))
      ∙ sym (smallest-append best (candidates s n) rest)

  -- The whole search is over what the names of the document offer.
  find-smallest :
      (s : DefinitionStore Url)
      → find_symbol_at_position s uri line col
        ≡ Option.map
            (λ b. b.0)
            (smallest none (flat_map (candidates s) (DashMap.get_or uri [] s.document_symbols)))
  unfolding find_symbol_at_position smallest
  find-smallest s = elim (Option-cases (DashMap.get uri s.document_symbols)) [
    | inl miss ↦ rw (miss, find_symbol_at_position)
    | inr (names, hit) ↦
        rw (hit, find_symbol_at_position)
          (ap (Option.map (λ b. b.0)) (scan_names-smallest none names s))
  ]

  -- A symbol or a reference of this document, under its name, whose span holds the position.
  abbrev pub Hit : DefinitionStore Url → Str → ℕ → Type 0
  Hit s n size =
      ((d : Symbol Url) × In d (get_definitions s n)
        × (d.uri ≡ uri)
        × (Span.contains d.name_span line col ≡ true)
        × (size ≡ Span.range_size d.name_span))
      ⊎ ((r : SymbolReference Url) × In r (get_references s n)
          × (r.uri ≡ uri)
          × (Span.contains r.span line col ≡ true)
          × (size ≡ Span.range_size r.span))

  candidate-Hit :
      (s : DefinitionStore Url) (n n' : Str) (z : ℕ)
      → IsValid s
      → In (n, z) (candidates s n')
      → Hit s n z
  unfolding get_definitions get_references
  candidate-Hit s n n' z v i =
      let ds = DashMap.get_or n' [] s.definitions in
      let rs = DashMap.get_or n' [] s.references in
      elim (In-append (n, z) (map symbol_size (retain symbol_here ds)) _ i) [
        | inl l ↦
            let (d, j, same) = In-map symbol_size (n, z) (retain symbol_here ds) l in
            let (k, test) = In-retain d symbol_here ds j in
            let (here, within) = &&-eq-true _ _ test in
            let named = sym (ap (λ c. c.0) same ∙ v.symbols.named n' d k) in
            inl (
              d,
              subst (λ m. In d (DashMap.get_or m [] s.definitions)) named k,
              ==_sound d.uri uri here,
              within,
              ap (λ c. c.1) same,
            )
        | inr l ↦
            let (r, j, same) = In-map mention_size (n, z) (retain mention_here rs) l in
            let (k, test) = In-retain r mention_here rs j in
            let (here, within) = &&-eq-true _ _ test in
            let named = sym (ap (λ c. c.0) same ∙ v.mentions.named n' r k) in
            inr (
              r,
              subst (λ m. In r (DashMap.get_or m [] s.references)) named k,
              ==_sound r.uri uri here,
              within,
              ap (λ c. c.1) same,
            )
      ]

  Hit-candidate :
      (s : DefinitionStore Url) (n : Str) (z : ℕ)
      → IsValid s
      → Hit s n z
      → In (n, z) (flat_map (candidates s) (DashMap.get_or uri [] s.document_symbols))
  unfolding get_definitions get_references
  Hit-candidate s n z v h =
      let ds = DashMap.get_or n [] s.definitions in
      let rs = DashMap.get_or n [] s.references in
      let names = DashMap.get_or uri [] s.document_symbols in
      elim h [
        | inl (d, i, own, within, size) ↦
            let offered =
              map-In symbol_size d (retain symbol_here ds)
                (retain-In d symbol_here ds i (ground (arith, e.beq_iff d.uri uri))) in
            let as_named =
              subst (λ c. In c (map symbol_size (retain symbol_here ds)))
                (pair_path (v.symbols.named n d i) (sym size)) offered in
            flat_map-In (candidates s) (n, z) n names
              (subst (λ u. In n (DashMap.get_or u [] s.document_symbols)) own
                (v.symbols.indexed n d i))
              (In-append_left (n, z) _ (map mention_size (retain mention_here rs)) as_named)
        | inr (r, i, own, within, size) ↦
            let offered =
              map-In mention_size r (retain mention_here rs)
                (retain-In r mention_here rs i (ground (arith, e.beq_iff r.uri uri))) in
            let as_named =
              subst (λ c. In c (map mention_size (retain mention_here rs)))
                (pair_path (v.mentions.named n r i) (sym size)) offered in
            flat_map-In (candidates s) (n, z) n names
              (subst (λ u. In n (DashMap.get_or u [] s.document_symbols)) own
                (v.mentions.indexed n r i))
              (In-append_right (n, z) (map symbol_size (retain symbol_here ds)) _ as_named)
      ]

  -- In a valid store, nothing is found at a position of a document only where no symbol and no
  -- reference of the document holds the position.
  pub find_symbol_at_position-none :
      (s : DefinitionStore Url)
      → IsValid s
      → find_symbol_at_position s uri line col ≡ none
      → (n : Str) (size : ℕ) → ¬ Hit s n size
  find_symbol_at_position-none s v h n size hit =
      let cs = flat_map (candidates s) (DashMap.get_or uri [] s.document_symbols) in
      let empty = smallest-none cs (map-none _ (smallest none cs) (sym (find-smallest s) ∙ h)) in
      subst (In (n, size)) empty (Hit-candidate s n size v hit)

  -- A name found at a position of a document of a valid store belongs to a symbol or a reference
  -- of the document whose span holds the position, and none that holds it has a smaller span.
  pub find_symbol_at_position-some :
      (s : DefinitionStore Url) (n : Str)
      → IsValid s
      → find_symbol_at_position s uri line col ≡ some n
      → (size : ℕ) × Hit s n size × ((n' : Str) (size' : ℕ) → Hit s n' size' → size ≤ size')
  find_symbol_at_position-some s n v h =
      let cs = flat_map (candidates s) (DashMap.get_or uri [] s.document_symbols) in
      let (r, found, named) = map-some (λ b. b.0) (smallest none cs) (sym (find-smallest s) ∙ h) in
      let (i, least) = smallest_lem cs r found in
      let (n', _, j) = In-flat_map (candidates s) r (DashMap.get_or uri [] s.document_symbols) i in
      (
        r.1,
        subst (λ m. Hit s m r.1) named (candidate-Hit s r.0 n' r.1 v j),
        λ m size hit. least (m, size) (Hit-candidate s m size v hit),
      )
