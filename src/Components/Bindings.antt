-- ===== src/Components/Bindings.antt =====
-- Which component a template belongs to, as the documents are analysed and forgotten.
use mathlib.Core.Option
use angularjs_lsp.Prelude.{
  ◌≡◌, refl, ap, Bool, true, none, some, List, [], ◌∷◌, arith, Eq, ◌==◌, nat_eq, list_eq,
  if◌then◌else◌, any, find, In, inl, inr, Option-cases, find-some, find-none, any-In, ==_refl,
}
use angularjs_lsp.DashMap
use angularjs_lsp.DashMap.{DashMap, get-remove, get-insert}
use angularjs_lsp.Text.{Str, ends_with}
use angularjs_lsp.Model.Template.{ComponentTemplateUrl}
use angularjs_lsp.Util.{normalize_template_path}
use angularjs_lsp.Components.{
  ComponentStore, add_component_template_url, remove_bindings, clear_document,
  get_component_binding_for_template, get_component_template_urls,
}

module _ {Url : Type 0} where
  -- Some template of the list has this path.
  abbrev pub names_path : Str → List (ComponentTemplateUrl Url) → Bool
  names_path p ts = any (λ t. normalize_template_path t.template_path == p) ts

  pub names_path-In :
      (t : ComponentTemplateUrl Url) (ts : List (ComponentTemplateUrl Url))
      → In t ts
      → names_path (normalize_template_path t.template_path) ts ≡ true
  names_path-In t ts i =
      let p = normalize_template_path t.template_path in
      any-In (λ u. normalize_template_path u.template_path == p) ts t i (==_refl p)

  get-remove_bindings :
      (ts : List (ComponentTemplateUrl Url)) (m : DashMap Str (ComponentTemplateUrl Url)) (p : Str)
      → DashMap.get p (remove_bindings ts m) ≡ (if names_path p ts then none else DashMap.get p m)
  unfolding remove_bindings
  get-remove_bindings [] m p = refl
  get-remove_bindings (t ∷ ts) m p =
      let q = normalize_template_path t.template_path in
      ground (arith, get-remove_bindings ts (DashMap.remove q m) p, get-remove q p m)

module _ {Url : Type 0} ⦃e : Eq Url⦄ where
  -- Forgetting a document unbinds exactly the template paths that it names, whoever bound them
  -- last, and its own list of templates; the lists of the other documents stay.
  pub clear_document-bindings :
      (uri : Url) (s : ComponentStore Url)
      → ((p : Str)
          → DashMap.get p (clear_document uri s).component_template_bindings ≡ (
              if names_path p (get_component_template_urls s uri)
              then none
              else DashMap.get p s.component_template_bindings))
        × ((u : Url)
            → get_component_template_urls (clear_document uri s) u
              ≡ (if uri == u then [] else get_component_template_urls s u))
  unfolding clear_document get_component_template_urls
  clear_document-bindings uri s = (
    λ p. elim (Option-cases (DashMap.get uri s.component_template_urls)) [
      | inl miss ↦ rw (miss, clear_document) refl
      | inr (ts, hit) ↦
          rw (hit, clear_document) (get-remove_bindings ts s.component_template_bindings p)
    ],
    λ u. DashMap.get_or-remove uri u [] s.component_template_urls,
  )

module _ {Url : Type 0} ⦃e : Eq Url⦄ (path : Url → Str) where
  -- After a component is added, a template whose path ends with the normalized template path is
  -- bound, and to an entry whose path ends the path of the template.
  pub get_component_binding-added :
      (t : ComponentTemplateUrl Url) (s : ComponentStore Url) (uri : Url)
      → ends_with (path uri) (normalize_template_path t.template_path) ≡ true
      → (b : ComponentTemplateUrl Url) × (p : Str) × (get_component_binding_for_template path
            (add_component_template_url t s)
            uri
          ≡ some b)
        × In (p, b) (add_component_template_url t s).component_template_bindings
        × (ends_with (path uri) p ≡ true)
  unfolding get_component_binding_for_template add_component_template_url
  get_component_binding-added t s uri h =
      let key = normalize_template_path t.template_path in
      let m = DashMap.insert key t s.component_template_bindings in
      let test : Str × ComponentTemplateUrl Url → Bool = λ entry. ends_with (path uri) entry.0 in
      let there =
        DashMap.In-of_get key t m (DashMap.get-insert_self key t s.component_template_bindings) in
      elim (Option-cases (find test m)) [
        | inl miss ↦ absurd (ground (arith, find-none test m (key, t) miss there))
        | inr (entry, hit) ↦
            let (i, ends) = find-some test m entry hit in
            (entry.1, entry.0, ap (Option.map (λ c. c.1)) hit, i, ends)
      ]
