-- ===== src/Index/Usages.antt =====
-- src/index/query.rs: which references in templates belong to a symbol.
use angularjs_lsp.Prelude.{
  ℕ, ◌≡◌, ◌↔◌, refl, sym, ap, inl, inr, Bool, true, false, List, [], ◌∷◌, ◌++◌, map, arith, Eq,
  nat_eq, list_eq, list_beq_iff, any, retain, In, In-append, In-append_left, In-append_right,
  In-map, map-In, In-retain, retain-In,
}
use mathlib.Core.Path.{subst}
use angularjs_lsp.DashMap.{DashMap}
use angularjs_lsp.Text.{Str, codes}
use angularjs_lsp.Model.Html.{HtmlScopeReference}
use angularjs_lsp.Model.Symbol.{SymbolReference}
use angularjs_lsp.Definitions.{has_definition}
use angularjs_lsp.Index.{Index, resolve_controllers_for_html}
use angularjs_lsp.Index.References.{
  as_reference, search_references, refers_to_root, get_html_references_for_root_scope,
}

module _ {Url : Type 0} where
  search_references-In :
      (name : Str) (test : Url → HtmlScopeReference Url → Bool)
      (m : DashMap Url (List (HtmlScopeReference Url))) (r : SymbolReference Url)
      → In r (search_references name test m)
      → (u : Url) × (refs : List (HtmlScopeReference Url)) × (q : HtmlScopeReference Url) × In
          (u, refs)
          m
        × In q refs
        × (test u q ≡ true)
        × (r ≡ as_reference name u q)
  unfolding search_references
  search_references-In name test [] r i = absurd i
  search_references-In name test ((u, refs) ∷ m) r i =
      elim (In-append r (map (as_reference name u) (retain (test u) refs)) _ i) [
        | inl j ↦
            let (q, k, same) = In-map (as_reference name u) r (retain (test u) refs) j in
            let (l, passes) = In-retain q (test u) refs k in (u, refs, q, inl refl, l, passes, same)
        | inr j ↦
            let (v, rs, q, k, l, passes, same) = search_references-In name test m r j in
            (v, rs, q, inr k, l, passes, same)
      ]

  In-search_references :
      (name : Str) (test : Url → HtmlScopeReference Url → Bool)
      (m : DashMap Url (List (HtmlScopeReference Url))) (u : Url)
      (refs : List (HtmlScopeReference Url)) (q : HtmlScopeReference Url)
      → In (u, refs) m
      → In q refs
      → test u q ≡ true
      → In (as_reference name u q) (search_references name test m)
  unfolding search_references
  In-search_references name test [] u refs q i j h = absurd i
  In-search_references name test ((v, rs) ∷ m) u refs q (inl same) j h =
      let at_u = subst (λ c. In q c.1 × (test c.0 q ≡ true)) same (j, h) in
      subst
        (λ w.
          In (as_reference name w q)
            (map (as_reference name v) (retain (test v) rs) ++ search_references name test m))
        (sym (ap (λ c. c.0) same))
        (In-append_left _ (map (as_reference name v) (retain (test v) rs)) _ (
          map-In (as_reference name v) q (retain (test v) rs)
            (retain-In q (test v) rs at_u.0 at_u.1)))
  In-search_references name test ((v, rs) ∷ m) u refs q (inr i) j h =
      In-append_right _ (map (as_reference name v) (retain (test v) rs)) _
        (In-search_references name test m u refs q i j h)

module _ {Url : Type 0} ⦃e : Eq Url⦄ (path : Url → Str) (s : Index Url) where
  -- Some controller of the line defines the property on its own scope.
  abbrev pub shadowed : Str → Url → ℕ → Bool
  shadowed property_path uri line =
      any (λ c. has_definition s.definitions (c ++ (codes ".$scope." ++ property_path)))
        (resolve_controllers_for_html path s uri line)

  -- The references in templates to a property of the root scope are exactly those of that path
  -- that stand at a line no controller of which defines the property on its own scope.
  pub get_html_references_for_root_scope_iff :
      (property_path symbol_name : Str) (r : SymbolReference Url)
      → In r (get_html_references_for_root_scope path s property_path symbol_name) ↔ (
          (u : Url) × (refs : List (HtmlScopeReference Url)) × (q : HtmlScopeReference Url) × In
            (u, refs)
            s.html.html_scope_references
          × In q refs
          × (q.property_path ≡ property_path)
          × (shadowed property_path u q.start_line ≡ false)
          × (r ≡ as_reference symbol_name u q))
  unfolding get_html_references_for_root_scope refers_to_root
  get_html_references_for_root_scope_iff p name r = (
    λ i.
        let (u, refs, q, j, k, passes, same) =
          search_references-In name (refers_to_root path s p) s.html.html_scope_references r i in
        (u, refs, q, j, k, ground (arith, list_beq_iff q.property_path p), ground arith, same),
    λ h.
        let (u, refs, q, j, k, at_path, alone, same) = h in
        subst
          (λ t.
            In t (search_references name (refers_to_root path s p) s.html.html_scope_references))
          (sym same)
          (In-search_references name (refers_to_root path s p) s.html.html_scope_references u refs q
            j k (ground (arith, list_beq_iff q.property_path p))),
  )
