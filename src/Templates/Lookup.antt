-- ===== src/Templates/Lookup.antt =====
-- src/index/template_store.rs: which controller is bound to a template.
use mathlib.Core.Option
use angularjs_lsp.Prelude.{
  ◌≡◌, ◌≢◌, refl, sym, ap, ◌∙◌, ◌⊎◌, inl, inr, true, false, none, some, arith, nat_eq, list_eq,
  ==_sound, find, In, find-some, find-none, Option-cases,
}
use angularjs_lsp.DashMap.{DashMap}
use angularjs_lsp.Text.{Str}
use angularjs_lsp.Model.Template.{TemplateBinding}
use angularjs_lsp.Templates.State.{TemplateStore}
use angularjs_lsp.Templates.Matching.{filename, matches_path}
use angularjs_lsp.Templates.Bindings.{
  bound_by_path, bound_by_filename, find_binding, get_controller_for_template,
}

option_path : {A : Type 0} {a b : A} → some a ≡ some b → a ≡ b
option_path h = ground arith

none_path : {A : Type 0} {b : A} → none ≢ some b
none_path h = cc

module _ {Url : Type 0} where
  -- A binding is chosen by its path, or by its file name where no binding has a path that matches.
  abbrev pub Chosen : Str → DashMap Str (TemplateBinding Url) → TemplateBinding Url → Type 0
  Chosen p m b =
      (matches_path p b.template_path ≡ true)
      ⊎ ((filename b.template_path ≡ filename p)
          × ((key : Str) (c : TemplateBinding Url)
              → In (key, c) m
              → matches_path p c.template_path ≡ false))

  find_binding-some :
      (p : Str) (m : DashMap Str (TemplateBinding Url)) (b : TemplateBinding Url)
      → find_binding p m ≡ some b
      → (key : Str) × In (key, b) m × Chosen p m b
  unfolding find_binding
  find_binding-some p m b h = elim (Option-cases (find (bound_by_path p) m)) [
    | inr (entry, hit) ↦
        let (i, test) = find-some (bound_by_path p) m entry hit in
        let same : entry.1 ≡ b = option_path (sym (rw (hit, find_binding) refl) ∙ h) in
        (entry.0, rw (sym same) i, inl (ap (λ c. matches_path p c.template_path) (sym same) ∙ test))
    | inl miss ↦ elim (Option-cases (find (bound_by_filename p) m)) [
      | inl none_ ↦ absurd (none_path (sym (rw (miss, none_, find_binding) refl) ∙ h))
      | inr (entry, hit) ↦
          let (i, test) = find-some (bound_by_filename p) m entry hit in
          let same : entry.1 ≡ b = option_path (sym (rw (miss, hit, find_binding) refl) ∙ h) in
          (
            entry.0,
            rw (sym same) i,
            inr (
              ap (λ c. filename c.template_path) (sym same) ∙ ==_sound _ (filename p) test,
              λ key c j. find-none (bound_by_path p) m (key, c) miss j,
            ),
          )
    ]
  ]

  -- The controller found for a template is that of a stored binding whose path ends the path of
  -- the template, or whose file name is that of the template where no stored binding has such a
  -- path.
  pub get_controller_for_template-some :
      (path : Url → Str) (s : TemplateStore Url) (uri : Url) (controller : Str)
      → get_controller_for_template path s uri ≡ some controller
      → (key : Str) × (b : TemplateBinding Url) × In (key, b) s.template_bindings
        × Chosen (path uri) s.template_bindings b
        × (b.controller_name ≡ controller)
  unfolding get_controller_for_template
  get_controller_for_template-some path s uri controller h =
      elim (Option-cases (find_binding (path uri) s.template_bindings)) [
        | inl miss ↦ absurd (none_path (sym (ap (Option.map (λ b. b.controller_name)) miss) ∙ h))
        | inr (b, hit) ↦
            let (key, i, chosen) = find_binding-some (path uri) s.template_bindings b hit in
            (
              key,
              b,
              i,
              chosen,
              option_path (sym (ap (Option.map (λ c. c.controller_name)) hit) ∙ h),
            )
      ]
