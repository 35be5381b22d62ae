-- ===== src/Index/Resolution.antt =====
-- Which controllers a line of a template has, from all the stores.
use angularjs_lsp.Prelude.{
  ℕ, ◌≡◌, ◌↔◌, ◌⊎◌, inl, inr, refl, sym, ap, true, false, Option, none, some, List, [], ◌∷◌, ◌++◌,
  arith, Eq, ◌==◌, nat_eq, list_eq, list_beq_iff, any, contains, In, In-append, In-append_left,
  In-append_right, Bool-cases, In-of_contains,
}
use angularjs_lsp.Text.{Str}
use angularjs_lsp.Controllers
use angularjs_lsp.Templates.Bindings
use angularjs_lsp.Templates.Includes
use angularjs_lsp.Templates.Merging.{Once}
use angularjs_lsp.Index.{
  Index, dedupe, bound_controllers, all_controllers, resolve_controllers_for_html, with_bound,
  with_component, component_controller,
}

-- A set that does not hold a name holds it after an insertion only if it is the one inserted.
dedupe-In : (xs seen : List Str) (c : Str) → In c (dedupe seen xs) → In c xs
unfolding dedupe
dedupe-In [] seen c i = i
dedupe-In (x ∷ xs) seen c i = elim (Bool-cases (contains seen x)) [
  | inl old ↦ inr (dedupe-In xs seen c (rw (old) at i))
  | inr fresh ↦ elim (rw (fresh) at i) [
    | inl same ↦ inl same
    | inr j ↦ inr (dedupe-In xs (x ∷ seen) c j)
  ]
]

In-dedupe :
    (xs seen : List Str) (c : Str) → In c xs → contains seen c ≡ false → In c (dedupe seen xs)
unfolding dedupe contains
In-dedupe [] seen c i h = absurd i
In-dedupe (x ∷ xs) seen c i h = elim (Bool-cases (contains seen x)) [
  | inl old ↦ rw (old) (
      In-dedupe xs seen c
        (elim i [ inl same ↦ absurd (ground (arith, ap (contains seen) same)) | inr j ↦ j ]) h)
  | inr fresh ↦ rw (fresh) (elim (Bool-cases (x == c)) [
    | inl same ↦ inl (ground (arith, list_beq_iff x c))
    | inr other ↦ elim i [
      | inl same ↦ inl same
      | inr j ↦ inr (In-dedupe xs (x ∷ seen) c j (ground arith))
    ]
  ])
]

-- A name that was seen is not listed again.
dedupe-fresh :
    (xs seen : List Str) (c : Str)
    → contains seen c ≡ true
    → any (λ y. y == c) (dedupe seen xs) ≡ false
unfolding dedupe contains
dedupe-fresh [] seen c h = refl
dedupe-fresh (x ∷ xs) seen c h = elim (Bool-cases (contains seen x)) [
  | inl old ↦ rw (old) (dedupe-fresh xs seen c h)
  | inr fresh ↦ rw (fresh) (ground (arith, list_beq_iff x c, dedupe-fresh xs (x ∷ seen) c))
]

dedupe-Once : (xs seen : List Str) → Once (dedupe seen xs)
unfolding dedupe contains
dedupe-Once [] seen = tt
dedupe-Once (x ∷ xs) seen = elim (Bool-cases (contains seen x)) [
  | inl old ↦ rw (old) (dedupe-Once xs seen)
  | inr fresh ↦
      rw (fresh)
        (dedupe-fresh xs (x ∷ seen) x (ground (arith, list_beq_iff x x)), dedupe-Once xs (x ∷ seen))
]

with_bound_iff :
    (ls : List Str) (o : Option Str) (c : Str) → In c (with_bound ls o) ↔ (In c ls ⊎ (o ≡ some c))
with_bound_iff ls none c = (λ i. inl i, λ h. elim h [ inl i ↦ i | inr p ↦ absurd (ground arith) ])
with_bound_iff ls (some x) c = elim (Bool-cases (contains ls x)) [
  | inl old ↦ rw (old) (
    λ i. inl i,
    λ h. elim h [ inl i ↦ i | inr p ↦ In-of_contains c ls (ground (arith, list_beq_iff x c)) ],
  )
  | inr fresh ↦ rw (fresh) (
    λ i. elim (In-append c ls (x ∷ []) i) [
      | inl j ↦ inl j
      | inr (inl same) ↦ inr (ap some (sym same))
      | inr (inr n) ↦ absurd n
    ],
    λ h. elim h [
      | inl i ↦ In-append_left c ls (x ∷ []) i
      | inr p ↦ In-append_right c ls (x ∷ []) (inl (ground arith))
    ],
  )
]

with_component_iff :
    (ls : List Str) (o : Option Str) (c : Str)
    → In c (with_component ls o) ↔ (In c ls ⊎ (((d : Str) → ¬ In d ls) × (o ≡ some c)))
with_component_iff [] none c =
    (λ i. absurd i, λ h. elim h [ inl i ↦ i | inr p ↦ absurd (ground arith) ])
with_component_iff [] (some x) c = (
  λ i. elim i [ inl same ↦ inr (λ d n. n, ap some (sym same)) | inr n ↦ absurd n ],
  λ h. elim h [ inl i ↦ absurd i | inr p ↦ inl (ground arith) ],
)
with_component_iff (x ∷ xs) none c =
    (λ i. inl i, λ h. elim h [ inl i ↦ i | inr p ↦ absurd (p.0 x (inl refl)) ])
with_component_iff (x ∷ xs) (some y) c =
    (λ i. inl i, λ h. elim h [ inl i ↦ i | inr p ↦ absurd (p.0 x (inl refl)) ])

module _ {Url : Type 0} ⦃e : Eq Url⦄ (path : Url → Str) (s : Index Url) (uri : Url) (line : ℕ) where
  -- A controller inherited by `ng-include`, of a scope at the line, or bound to the template.
  abbrev pub OfTemplate : Str → Type 0
  OfTemplate c =
      In c (Includes.get_inherited_controllers_for_template path s.templates uri)
      ⊎ In c (Controllers.get_html_controllers_at s.controllers uri line)
      ⊎ (Bindings.get_controller_for_template path s.templates uri ≡ some c)

  bound_iff : (c : Str) → In c (bound_controllers path s uri line) ↔ OfTemplate c
  bound_iff c =
      let inherited = Includes.get_inherited_controllers_for_template path s.templates uri in
      let at_line = Controllers.get_html_controllers_at s.controllers uri line in
      let bound = Bindings.get_controller_for_template path s.templates uri in
      let (there, back) = with_bound_iff (inherited ++ at_line) bound c in
      (
        λ i. elim (there i) [
          | inl j ↦ elim (In-append c inherited at_line j) [ inl k ↦ inl k | inr k ↦ inr (inl k) ]
          | inr p ↦ inr (inr p)
        ],
        λ h. elim h [
          | inl i ↦ back (inl (In-append_left c inherited at_line i))
          | inr (inl i) ↦ back (inl (In-append_right c inherited at_line i))
          | inr (inr p) ↦ back (inr p)
        ],
      )

  -- The controllers of a line of a template are exactly those inherited by ng-include, those of
  -- the scopes at the line and that of the template binding; where there is none of these, that of
  -- the component whose template it is. Each is listed once.
  pub resolve_controllers_for_html_iff :
      Once (resolve_controllers_for_html path s uri line)
      × ((c : Str)
          → In c (resolve_controllers_for_html path s uri line) ↔ (
              OfTemplate c
              ⊎ (((d : Str) → ¬ OfTemplate d) × (component_controller path s uri ≡ some c))))
  unfolding resolve_controllers_for_html contains
  resolve_controllers_for_html_iff =
      let all = all_controllers path s uri line in
      let bound = bound_controllers path s uri line in
      let component = component_controller path s uri in
      (
        dedupe-Once all [],
        λ c. (
          λ i. elim ((with_component_iff bound component c).0 (dedupe-In all [] c i)) [
            | inl j ↦ inl ((bound_iff c).0 j)
            | inr (empty, p) ↦ inr (λ d o. empty d ((bound_iff d).1 o), p)
          ],
          λ h.
              In-dedupe all [] c
                ((with_component_iff bound component c).1 (elim h [
                  | inl o ↦ inl ((bound_iff c).1 o)
                  | inr (empty, p) ↦ inr (λ d j. empty d ((bound_iff d).0 j), p)
                ]))
                refl,
        ),
      )
