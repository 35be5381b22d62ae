-- ===== src/Html/Scopes.antt =====
-- Which definition a name of a template has at a line: of those in scope, one that begins last.
use angularjs_lsp.Prelude.{
  ℕ, ◌≤◌, ◌≡◌, refl, ◌⊎◌, inl, inr, Bool, true, ◌&&◌, none, some, List, [], ◌∷◌, arith, Eq, ◌==◌,
  nat_eq, list_eq, ==_sound, leb, retain, In, In-retain, retain-In, Option-cases, Bool-cases,
  &&-eq-true, sym, ◌∙◌, list_beq_iff,
}
use mathlib.Core.Path.{subst}
use angularjs_lsp.DashMap
use angularjs_lsp.Text.{Str}
use angularjs_lsp.Model.Html.{HtmlLocalVariable, variable_is_in_scope}
use angularjs_lsp.Html.{HtmlStore, max_from, max_by_key}
use angularjs_lsp.Html.Variables.{get_all_local_variables, find_local_variable_definition}

module _ {A : Type 0} (key : A → ℕ) where
  max_from_lem :
      (xs : List A) (best r : A)
      → max_from key best xs ≡ r
      → ((r ≡ best) ⊎ In r xs) × (key best ≤ key r) × ((a : A) → In a xs → key a ≤ key r)
  unfolding max_from
  max_from_lem [] best r h = (inl (sym h), rw h (ground arith), λ a i. absurd i)
  max_from_lem (x ∷ xs) best r h = elim (Bool-cases (leb (key best) (key x))) [
    | inl up ↦
        let (from, le, all) = max_from_lem xs x r (rw up at h) in
        (
          inr (elim from [ inl p ↦ inl p | inr j ↦ inr j ]),
          ground arith,
          λ a i. elim i [ inl p ↦ rw p le | inr j ↦ all a j ],
        )
    | inr down ↦
        let (from, le, all) = max_from_lem xs best r (rw down at h) in
        (
          elim from [ inl p ↦ inl p | inr j ↦ inr (inr j) ],
          le,
          λ a i. elim i [ inl p ↦ rw p (ground arith) | inr j ↦ all a j ],
        )
  ]

  pub max_by_key-some :
      (xs : List A) (a : A)
      → max_by_key key xs ≡ some a
      → In a xs × ((b : A) → In b xs → key b ≤ key a)
  unfolding max_by_key
  max_by_key-some [] a h = absurd (cc)
  max_by_key-some (x ∷ xs) a h =
      let (from, le, all) = max_from_lem xs x a (ground arith) in
      (
        elim from [ inl p ↦ inl p | inr j ↦ inr j ],
        λ b i. elim i [ inl p ↦ rw p le | inr j ↦ all b j ],
      )

  pub max_by_key-none : (xs : List A) → max_by_key key xs ≡ none → xs ≡ []
  unfolding max_by_key
  max_by_key-none [] h = refl
  max_by_key-none (x ∷ xs) h = absurd (cc)

module _ {Url : Type 0} ⦃e : Eq Url⦄ (s : HtmlStore Url) (uri : Url) (name : Str) (line : ℕ) where
  abbrev named_here : HtmlLocalVariable Url → Bool
  named_here v = v.name == name && variable_is_in_scope v line

  definition-max :
      find_local_variable_definition s uri name line
      ≡ max_by_key (λ v. v.scope_start_line) (retain named_here (get_all_local_variables s uri))
  unfolding find_local_variable_definition get_all_local_variables max_by_key
  definition-max = elim (Option-cases (DashMap.get uri s.html_local_variables)) [
    | inl miss ↦ rw (miss, find_local_variable_definition)
    | inr (vars, hit) ↦ rw (hit, find_local_variable_definition)
  ]

  -- The definition found for a name at a line of a document is a variable of the document with
  -- that name whose scope holds the line, and the scope of no other such variable begins later.
  pub find_local_variable_definition-some :
      (v : HtmlLocalVariable Url)
      → find_local_variable_definition s uri name line ≡ some v
      → In v (get_all_local_variables s uri)
        × (v.name ≡ name)
        × (variable_is_in_scope v line ≡ true)
        × ((w : HtmlLocalVariable Url)
            → In w (get_all_local_variables s uri)
            → w.name ≡ name
            → variable_is_in_scope w line ≡ true
            → w.scope_start_line ≤ v.scope_start_line)
  find_local_variable_definition-some v h =
      let vs = get_all_local_variables s uri in
      let (i, last) =
        max_by_key-some (λ w. w.scope_start_line) (retain named_here vs) v
          (sym definition-max ∙ h) in
      let (j, test) = In-retain v named_here vs i in
      let (named, scoped) = &&-eq-true _ _ test in
      (
        j,
        ==_sound v.name name named,
        scoped,
        λ w k same holds.
            last w (retain-In w named_here vs k (ground (arith, list_beq_iff w.name name))),
      )

  -- No definition is found for a name at a line only where no variable of the document has that
  -- name and a scope that holds the line.
  pub find_local_variable_definition-none :
      find_local_variable_definition s uri name line ≡ none
      → (w : HtmlLocalVariable Url) → In w (get_all_local_variables s uri)
      → w.name ≡ name
      → variable_is_in_scope w line ≡ true
      → ⊥
  find_local_variable_definition-none h w k same holds =
      let vs = get_all_local_variables s uri in
      let empty =
        max_by_key-none (λ v. v.scope_start_line) (retain named_here vs) (sym definition-max ∙ h) in
      subst (In w) empty (retain-In w named_here vs k (ground (arith, list_beq_iff w.name name)))
