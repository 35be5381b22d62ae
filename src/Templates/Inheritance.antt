-- ===== src/Templates/Inheritance.antt =====
-- src/index/template_store.rs: what a template passes on to the templates that it includes.
use angularjs_lsp.Prelude.{
  ℕ, zero, suc, Bool, ◌||◌, ◌&&◌, not, Option, none, some, List, [], ◌∷◌, ◌++◌, ◌==◌, nat_eq,
  list_eq, nat_beq, if◌then◌else◌, any, all, length,
}
use angularjs_lsp.DashMap
use angularjs_lsp.DashMap.{DashMap}
use angularjs_lsp.Text.{Str, ends_with}
use angularjs_lsp.Model.Html.{InheritedLocalVariable, InheritedFormBinding}
use angularjs_lsp.Model.Template.{NgIncludeBinding}
use angularjs_lsp.Templates.State.{extract_template_path_from_key}

-- the loops that push each element unless one that is the same is there
unfoldable pub push_all_new : {A : Type 0} → (A → A → Bool) → List A → List A → List A
push_all_new same acc [] = acc
push_all_new same acc (x ∷ xs) =
    push_all_new same (if any (λ a. same a x) acc then acc else acc ++ x ∷ []) xs

abbrev pub same_name : Str → Str → Bool
same_name a b = a == b

-- What a template passes on: controllers, local variables and forms.
pub record Inherited (Url : Type 0) : Type 0 where
  pub controllers : List Str
  pub local_variables : List (InheritedLocalVariable Url)
  pub form_bindings : List (InheritedFormBinding Url)

module _ {Url : Type 0} where
  abbrev pub same_variable : InheritedLocalVariable Url → InheritedLocalVariable Url → Bool
  same_variable a b = a.name == b.name

  abbrev pub same_form : InheritedFormBinding Url → InheritedFormBinding Url → Bool
  same_form a b = a.name == b.name

  -- `new_controllers`, `new_local_variables` and `new_form_bindings`
  unfoldable pub inherit : Inherited Url → NgIncludeBinding Url → Inherited Url
  unfolding push_all_new
  inherit from binding = record {
    controllers = push_all_new same_name from.controllers binding.inherited_controllers;
    local_variables =
        push_all_new same_variable from.local_variables binding.inherited_local_variables;
    form_bindings = push_all_new same_form from.form_bindings binding.inherited_form_bindings;
  }

  -- `controllers_changed || local_vars_changed || forms_changed`
  unfoldable pub changed : Inherited Url → NgIncludeBinding Url → Bool
  changed to binding =
      not (to.controllers == binding.inherited_controllers)
      || (not (nat_beq (length to.local_variables) (length binding.inherited_local_variables))
          || not (
              all (λ v. any (λ b. same_variable b v) binding.inherited_local_variables)
                to.local_variables))
      || (not (nat_beq (length to.form_bindings) (length binding.inherited_form_bindings))
          || not (
              all (λ f. any (λ b. same_form b f) binding.inherited_form_bindings) to.form_bindings))

  -- the first loop of `propagate_inheritance_to_children`
  unfoldable pub updates :
      (Url → Str)
      → Str
      → Inherited Url
      → DashMap Str (NgIncludeBinding Url)
      → List (Str × Inherited Url)
  unfolding inherit changed
  updates path child_path from [] = []
  updates path child_path from ((key, binding) ∷ bindings) =
      let rest = updates path child_path from bindings in
      let parent_path = path binding.parent_uri in
      let to = inherit from binding in
      if (ends_with parent_path (b'/' ∷ child_path) || ends_with parent_path child_path)
        && changed to binding
      then (key, to) ∷ rest
      else rest

  -- the write of the second loop
  unfoldable pub write_inherited :
      Str → Inherited Url → DashMap Str (NgIncludeBinding Url) → DashMap Str (NgIncludeBinding Url)
  write_inherited key to bindings = elim (DashMap.get key bindings) [
    | none ↦ bindings
    | some binding ↦
        DashMap.insert key
          (record binding {
            inherited_controllers = to.controllers;
            inherited_local_variables = to.local_variables;
            inherited_form_bindings = to.form_bindings;
          })
          bindings
  ]

  -- the second loop; `propagate` is the recursive call
  unfoldable pub apply_updates :
      (Str
        → Inherited Url
        → DashMap Str (NgIncludeBinding Url)
        → Option (DashMap Str (NgIncludeBinding Url)))
      → List (Str × Inherited Url)
      → DashMap Str (NgIncludeBinding Url)
      → Option (DashMap Str (NgIncludeBinding Url))
  unfolding write_inherited extract_template_path_from_key
  apply_updates propagate [] bindings = some bindings
  apply_updates propagate ((key, to) ∷ us) bindings =
      elim (propagate (extract_template_path_from_key key) to (write_inherited key to bindings)) [
        | none ↦ none
        | some next ↦ apply_updates propagate us next
      ]

  -- for calls nested less deeply than the fuel; none where the nesting is deeper
  unfoldable pub propagate_inheritance_to_children :
      ℕ
      → (Url → Str)
      → Str
      → Inherited Url
      → DashMap Str (NgIncludeBinding Url)
      → Option (DashMap Str (NgIncludeBinding Url))
  unfolding updates apply_updates
  propagate_inheritance_to_children zero path child_path from bindings = none
  propagate_inheritance_to_children (suc fuel) path child_path from bindings =
      apply_updates (propagate_inheritance_to_children fuel path)
        (updates path child_path from bindings) bindings
