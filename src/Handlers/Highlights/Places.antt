-- ===== src/Handlers/Highlights/Places.antt =====
-- The highlights of a symbol in a document are its references there.
use angularjs_lsp.Prelude.{
  ◌≡◌, refl, ◌↔◌, inl, inr, true, none, some, Option, List, [], ◌∷◌, ◌++◌, map, arith, Eq, ◌==◌,
  ==_sound, ==_refl, retain, In, In-append, In-append_left, In-append_right, In-map, map-In,
  In-retain, retain-In,
}
use mathlib.Core.Path.{subst}
use angularjs_lsp.Text.{Str}
use angularjs_lsp.Model.Location.{Range, Location}
use angularjs_lsp.Definitions.{get_definitions}
use angularjs_lsp.Index.{Index}
use angularjs_lsp.Index.References.{get_all_references}
use angularjs_lsp.Handlers.References.{
  definition_location, reference_location, collect_references, unless_empty,
}
use angularjs_lsp.Handlers.Highlights.{
  DocumentHighlight, DocumentHighlightKind, read_kind, write_kind, highlight_in,
  collect_symbol_highlights_in_uri,
}
use angularjs_lsp.Handlers.Highlights.Order.{all_of, finalize_lem}

module _ {Url : Type 0} ⦃e : Eq Url⦄ where
  abbrev pub at : Url → Range → Location Url
  at uri range = record { uri = uri; range = range }

  highlight_in-location :
      (uri : Url) (k : DocumentHighlightKind) (ls : List (Location Url)) (h : DocumentHighlight)
      → In h (highlight_in uri k ls)
      → In (at uri h.range) ls
  highlight_in-location uri k ls h i =
      let (l, j, eq) =
        In-map (λ (l : Location Url). record { range = l.range; kind = some k }) h
          (retain (λ l. l.uri == uri) ls) i in
      let (m, here) = In-retain l (λ l. l.uri == uri) ls j in
      let same : at uri h.range ≡ l = ground (arith, ==_sound l.uri uri here) in rw same m

  location-highlight_in :
      (uri : Url) (k : DocumentHighlightKind) (ls : List (Location Url)) (r : Range)
      → In (at uri r) ls
      → In (record { range = r; kind = some k }) (highlight_in uri k ls)
  location-highlight_in uri k ls r i =
      map-In (λ (l : Location Url). record { range = l.range; kind = some k }) (at uri r)
        (retain (λ l. l.uri == uri) ls)
        (retain-In (at uri r) (λ l. l.uri == uri) ls i (==_refl uri))

  -- the list behind an answer
  abbrev pub places : Option (List (Location Url)) → List (Location Url)
  places none = []
  places (some l) = l

  places-unless_empty : (l : List (Location Url)) → places (unless_empty l) ≡ l
  places-unless_empty [] = refl
  places-unless_empty (h ∷ l) = refl

module _ {Url : Type 0} ⦃e : Eq Url⦄ (path : Url → Str) (s : Index Url) (uri : Url)
    (name : Str) where
  abbrev definition_places : List (Location Url)
  definition_places = map definition_location (get_definitions s.definitions name)

  abbrev reference_places : List (Location Url)
  reference_places = map reference_location (get_all_references path s name)

  highlighted :
      (h : DocumentHighlight)
      → In h (all_of (collect_symbol_highlights_in_uri path s uri name))
      → In (at uri h.range) (places (collect_references path s name true))
  unfolding collect_references collect_symbol_highlights_in_uri
  highlighted h i =
      let writes = highlight_in uri write_kind definition_places in
      let reads = highlight_in uri read_kind reference_places in
      let (ascending, from, stands) = finalize_lem (writes ++ reads) in
      rw (places-unless_empty (definition_places ++ reference_places))
        (elim (In-append h writes reads (from h i)) [
          | inl w ↦
              In-append_left (at uri h.range) definition_places reference_places
                (highlight_in-location uri write_kind definition_places h w)
          | inr r ↦
              In-append_right (at uri h.range) definition_places reference_places
                (highlight_in-location uri read_kind reference_places h r)
        ])

  -- every highlight that is pushed is stood for
  pushed :
      (h : DocumentHighlight)
      → In h (
          highlight_in uri write_kind definition_places
          ++ highlight_in uri read_kind reference_places)
      → (g : DocumentHighlight) × In g (all_of (collect_symbol_highlights_in_uri path s uri name))
        × (g.range ≡ h.range)
  unfolding collect_symbol_highlights_in_uri
  pushed h i =
      let writes = highlight_in uri write_kind definition_places in
      let reads = highlight_in uri read_kind reference_places in
      let (ascending, from, stands) = finalize_lem (writes ++ reads) in
      let (g, j, (same, kind)) = stands h i in (g, j, same)

  found :
      (r : Range)
      → In (at uri r) (places (collect_references path s name true))
      → (h : DocumentHighlight) × In h (all_of (collect_symbol_highlights_in_uri path s uri name))
        × (h.range ≡ r)
  unfolding collect_references
  found r i =
      let writes = highlight_in uri write_kind definition_places in
      let reads = highlight_in uri read_kind reference_places in
      elim (In-append (at uri r) definition_places reference_places
        (rw (places-unless_empty (definition_places ++ reference_places)) at i)) [
          | inl d ↦
              pushed (record { range = r; kind = some write_kind })
                (In-append_left _ writes reads
                  (location-highlight_in uri write_kind definition_places r d))
          | inr d ↦
              pushed (record { range = r; kind = some read_kind })
                (In-append_right _ writes reads
                  (location-highlight_in uri read_kind reference_places r d))
        ]

  -- The ranges that are highlighted for a symbol in a document are exactly those of the document
  -- among the references to it with its declarations.
  pub collect_symbol_highlights_in_uri_iff :
      (r : Range)
      → ((h : DocumentHighlight) × In h (all_of (collect_symbol_highlights_in_uri path s uri name))
          × (h.range ≡ r))
        ↔ In (at uri r) (places (collect_references path s name true))
  collect_symbol_highlights_in_uri_iff r = (
    λ (h, i, same).
        subst (λ q. In (at uri q) (places (collect_references path s name true))) same
          (highlighted h i),
    found r,
  )
