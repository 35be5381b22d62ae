-- ===== src/Exports/Names.antt =====
-- Which component name an imported identifier stands for.
use mathlib.Core.Path.{subst}
use angularjs_lsp.Prelude.{
  ◌≡◌, ◌≢◌, refl, sym, ap, ◌∙◌, Bool, true, false, none, some, [], ◌∷◌, arith, nat_eq, list_eq, In,
  inl, inr, Bool-cases, Option-cases,
}
use angularjs_lsp.DashMap
use angularjs_lsp.DashMap.{DashMap}
use angularjs_lsp.Text.{Str, ends_with}
use angularjs_lsp.Model.Template.{ExportedComponentObject}
use angularjs_lsp.Exports.{
  ExportStore, trim_js, find_object, find_import, get_exported_component_name,
}

-- An export whose path, without the suffix, ends with that of the import.
abbrev pub same_file : Str → Str → Bool
same_file import_path obj_path = ends_with (trim_js obj_path) (trim_js import_path)

none_ne_some : {A : Type 0} {a : A} → none ≢ some a
none_ne_some h = cc

module _ {Url : Type 0} where
  find_object-some :
      (objs : DashMap Str (ExportedComponentObject Url)) (import_path name : Str)
      → find_object import_path objs ≡ some name
      → (p : Str) × (obj : ExportedComponentObject Url) × In (p, obj) objs
        × (same_file import_path p ≡ true)
        × (obj.name ≡ name)
  unfolding find_object
  find_object-some [] import_path name h = absurd (cc)
  find_object-some ((p, obj) ∷ objs) import_path name h =
      elim (Bool-cases (same_file import_path p)) [
        | inl hit ↦ (p, obj, inl refl, hit, ground arith)
        | inr miss ↦
            let (q, o, i, m, n) = find_object-some objs import_path name (rw (miss) at h) in
            (q, o, inr i, m, n)
      ]

  find_object-none :
      (objs : DashMap Str (ExportedComponentObject Url)) (import_path p : Str)
      (obj : ExportedComponentObject Url)
      → find_object import_path objs ≡ none
      → In (p, obj) objs
      → same_file import_path p ≡ false
  unfolding find_object
  find_object-none [] import_path p obj h i = absurd i
  find_object-none ((q, o) ∷ objs) import_path p obj h i =
      elim (Bool-cases (same_file import_path q)) [
        | inl hit ↦ absurd (ground arith)
        | inr miss ↦ elim i [
          | inl same ↦ ap (λ c. same_file import_path c.0) same ∙ miss
          | inr j ↦ find_object-none objs import_path p obj (rw (miss) at h) j
        ]
      ]

  find_import-some :
      (imports : DashMap Url (DashMap Str Str)) (objs : DashMap Str (ExportedComponentObject Url))
      (identifier name : Str)
      → find_import identifier imports objs ≡ some name
      → (uri : Url) × (names : DashMap Str Str) × (q : Str) × In (uri, names) imports
        × (DashMap.get identifier names ≡ some q)
        × (find_object q objs ≡ some name)
  unfolding find_import
  find_import-some [] objs identifier name h = absurd (cc)
  find_import-some ((u, names) ∷ imports) objs identifier name h =
      let next = find_import-some imports objs identifier name in
      elim (Option-cases (DashMap.get identifier names)) [
        | inl miss ↦
            let (v, ns, q, i, g, o) = next (rw (miss, find_import) at h) in (v, ns, q, inr i, g, o)
        | inr (q, hit) ↦ elim (Option-cases (find_object q objs)) [
          | inl none_ ↦
              let (v, ns, r, i, g, o) = next (rw (hit, none_, find_import) at h) in
              (v, ns, r, inr i, g, o)
          | inr (n, found) ↦ (u, names, q, inl refl, hit, found ∙ rw (hit, found, find_import) at h)
        ]
      ]

  find_import-none :
      (imports : DashMap Url (DashMap Str Str)) (objs : DashMap Str (ExportedComponentObject Url))
      (identifier : Str) (uri : Url) (names : DashMap Str Str) (q : Str)
      → find_import identifier imports objs ≡ none
      → In (uri, names) imports
      → DashMap.get identifier names ≡ some q
      → find_object q objs ≡ none
  unfolding find_import
  find_import-none [] objs identifier uri names q h i g = absurd i
  find_import-none ((u, ns) ∷ imports) objs identifier uri names q h i g = elim i [
    | inl same ↦
        let here = subst (λ c. DashMap.get identifier c.1 ≡ some q) same g in
        elim (Option-cases (find_object q objs)) [
          | inl none_ ↦ none_
          | inr (n, found) ↦
              absurd (none_ne_some {a = n} (sym h ∙ rw (here, found, find_import) refl))
        ]
    | inr j ↦
        let next = find_import-none imports objs identifier uri names q in
        elim (Option-cases (DashMap.get identifier ns)) [
          | inl miss ↦ next (rw (miss, find_import) at h) j g
          | inr (r, hit) ↦ elim (Option-cases (find_object r objs)) [
            | inl none_ ↦ next (rw (hit, none_, find_import) at h) j g
            | inr (n, found) ↦
                absurd (none_ne_some {a = n} (sym h ∙ rw (hit, found, find_import) refl))
          ]
        ]
  ]

module _ {Url : Type 0} (s : ExportStore Url) (identifier : Str) where
  -- The component name found for an identifier is that of an exported object in the file that some
  -- document imports the identifier from.
  pub get_exported_component_name-some :
      (name : Str)
      → get_exported_component_name s identifier ≡ some name
      → (uri : Url) × (names : DashMap Str Str) × (import_path : Str) × (obj_path : Str)
        × (obj : ExportedComponentObject Url) × In (uri, names) s.imports
        × (DashMap.get identifier names ≡ some import_path)
        × In (obj_path, obj) s.exported_component_objects
        × (same_file import_path obj_path ≡ true)
        × (obj.name ≡ name)
  unfolding get_exported_component_name
  get_exported_component_name-some name h =
      let (uri, names, q, i, g, found) =
        find_import-some s.imports s.exported_component_objects identifier name h in
      let (p, obj, j, m, n) = find_object-some s.exported_component_objects q name found in
      (uri, names, q, p, obj, i, g, j, m, n)

  -- No component name is found for an identifier only where no document imports it from a file
  -- with an exported object.
  pub get_exported_component_name-none :
      (uri : Url) (names : DashMap Str Str) (import_path obj_path : Str)
      (obj : ExportedComponentObject Url)
      → get_exported_component_name s identifier ≡ none
      → In (uri, names) s.imports
      → DashMap.get identifier names ≡ some import_path
      → In (obj_path, obj) s.exported_component_objects
      → same_file import_path obj_path ≡ false
  unfolding get_exported_component_name
  get_exported_component_name-none uri names q p obj h i g j =
      find_object-none s.exported_component_objects q p obj
        (find_import-none s.imports s.exported_component_objects identifier uri names q h i g) j
