-- ===== src/Templates/Merging.antt =====
-- src/index/template_store.rs: the names that a template inherits, each once.
use angularjs_lsp.Prelude.{
  ◌≡◌, ◌↔◌, ◌⊎◌, inl, inr, refl, sym, ◌∙◌, false, none, some, List, [], ◌∷◌, ◌++◌, arith, ◌==◌,
  nat_eq, list_eq, list_beq_iff, any, In, In-append, In-append_left, In-append_right, any_witness,
  any-append, Bool-cases, Option-cases, ==_sound,
}
use mathlib.Core.Path.{subst}
use angularjs_lsp.DashMap
use angularjs_lsp.DashMap.{DashMap}
use angularjs_lsp.Text.{Str}
use angularjs_lsp.Model.Template.{NgIncludeBinding}
use angularjs_lsp.Templates.State.{TemplateStore}
use angularjs_lsp.Templates.Inheritance.{push_all_new, same_name}
use angularjs_lsp.Templates.Includes.{
  collect_inherited, get_inherited_controllers_for_template, find_all_ng_include_keys_for_template,
}

-- No name stands twice.
abbrev pub Once : List Str → Type 0
Once [] = Unit
Once (x ∷ xs) = (any (λ y. y == x) xs ≡ false) × Once xs

Once-push : (xs : List Str) (a : Str) → Once xs → any (λ y. y == a) xs ≡ false → Once (xs ++ a ∷ [])
Once-push [] a h fresh = (refl, tt)
Once-push (x ∷ xs) a h fresh = ground (
  arith,
  list_beq_iff x a,
  list_beq_iff a x,
  any-append (λ y. y == x) xs (a ∷ []),
  Once-push xs a h.1,
)

push_all_new-Once : (xs acc : List Str) → Once acc → Once (push_all_new same_name acc xs)
unfolding push_all_new
push_all_new-Once [] acc h = h
push_all_new-Once (x ∷ xs) acc h = elim (Bool-cases (any (λ a. same_name a x) acc)) [
  | inl old ↦ rw (old) (push_all_new-Once xs acc h)
  | inr fresh ↦ rw (fresh) (push_all_new-Once xs (acc ++ x ∷ []) (Once-push acc x h fresh))
]

push_all_new-In :
    (xs acc : List Str) (c : Str) → In c (push_all_new same_name acc xs) → In c acc ⊎ In c xs
unfolding push_all_new
push_all_new-In [] acc c i = inl i
push_all_new-In (x ∷ xs) acc c i = elim (Bool-cases (any (λ a. same_name a x) acc)) [
  | inl old ↦ ground (arith, push_all_new-In xs acc c (rw (old) at i))
  | inr fresh ↦ elim (push_all_new-In xs (acc ++ x ∷ []) c (rw (fresh) at i)) [
    | inl j ↦ elim (In-append c acc (x ∷ []) j) [
      | inl k ↦ inl k
      | inr (inl same) ↦ inr (inl same)
      | inr (inr n) ↦ absurd n
    ]
    | inr j ↦ inr (inr j)
  ]
]

In-push_all_new_old :
    (xs acc : List Str) (c : Str) → In c acc → In c (push_all_new same_name acc xs)
unfolding push_all_new
In-push_all_new_old [] acc c i = i
In-push_all_new_old (x ∷ xs) acc c i = elim (Bool-cases (any (λ a. same_name a x) acc)) [
  | inl old ↦ rw (old) (In-push_all_new_old xs acc c i)
  | inr fresh ↦
      rw (fresh) (In-push_all_new_old xs (acc ++ x ∷ []) c (In-append_left c acc (x ∷ []) i))
]

In-push_all_new : (xs acc : List Str) (c : Str) → In c xs → In c (push_all_new same_name acc xs)
unfolding push_all_new
In-push_all_new [] acc c i = absurd i
In-push_all_new (x ∷ xs) acc c (inl same) = elim (Bool-cases (any (λ a. same_name a x) acc)) [
  | inl old ↦
      let (a, j, test) = any_witness (λ a. same_name a x) acc old in
      rw (old)
        (In-push_all_new_old xs acc c (subst (λ b. In b acc) (==_sound a x test ∙ sym same) j))
  | inr fresh ↦
      rw (fresh)
        (In-push_all_new_old xs (acc ++ x ∷ []) c (In-append_right c acc (x ∷ []) (inl same)))
]
In-push_all_new (x ∷ xs) acc c (inr i) = elim (Bool-cases (any (λ a. same_name a x) acc)) [
  | inl old ↦ rw (old) (In-push_all_new xs acc c i)
  | inr fresh ↦ rw (fresh) (In-push_all_new xs (acc ++ x ∷ []) c i)
]

module _ {Url : Type 0} where
  -- A controller that some binding under one of the keys passes on.
  abbrev pub PassedOn : DashMap Str (NgIncludeBinding Url) → List Str → Str → Type 0
  PassedOn m keys c =
      (key : Str) × (b : NgIncludeBinding Url) × In key keys
      × (DashMap.get key m ≡ some b)
      × In c b.inherited_controllers

  module _ (m : DashMap Str (NgIncludeBinding Url)) where
    -- what one turn of the loop makes of the names so far
    abbrev turn : List Str → Str → List Str
    turn acc key = elim (DashMap.get key m) [
      | none ↦ acc
      | some b ↦ push_all_new same_name acc b.inherited_controllers
    ]

    turn-miss : (acc : List Str) (key : Str) → DashMap.get key m ≡ none → turn acc key ≡ acc
    turn-miss acc key miss = rw (miss, turn) refl

    turn-hit :
        (acc : List Str) (key : Str) (b : NgIncludeBinding Url)
        → DashMap.get key m ≡ some b
        → turn acc key ≡ push_all_new same_name acc b.inherited_controllers
    turn-hit acc key b hit = rw (hit, turn) refl

    turn-Once : (acc : List Str) (key : Str) → Once acc → Once (turn acc key)
    turn-Once acc key h = elim (Option-cases (DashMap.get key m)) [
      | inl miss ↦ rw (turn-miss acc key miss) h
      | inr (b, hit) ↦ rw (turn-hit acc key b hit) (push_all_new-Once b.inherited_controllers acc h)
    ]

    collect-Once :
        (keys acc : List Str)
        → Once acc
        → Once (collect_inherited same_name (λ b. b.inherited_controllers) m acc keys)
    unfolding collect_inherited
    collect-Once [] acc h = h
    collect-Once (key ∷ keys) acc h = collect-Once keys (turn acc key) (turn-Once acc key h)

    collect-In :
        (keys acc : List Str) (c : Str)
        → In c (collect_inherited same_name (λ b. b.inherited_controllers) m acc keys)
        → In c acc ⊎ PassedOn m keys c
    unfolding collect_inherited
    collect-In [] acc c i = inl i
    collect-In (key ∷ keys) acc c i = elim (collect-In keys (turn acc key) c i) [
      | inl j ↦ elim (Option-cases (DashMap.get key m)) [
        | inl miss ↦ inl (rw (turn-miss acc key miss) at j)
        | inr (b, hit) ↦
            elim (push_all_new-In b.inherited_controllers acc c
              (rw (turn-hit acc key b hit) at j)) [
                | inl k ↦ inl k
                | inr k ↦ inr (key, b, inl refl, hit, k)
              ]
      ]
      | inr (k, b, j, hit, l) ↦ inr (k, b, inr j, hit, l)
    ]

    In-turn_old : (acc : List Str) (key c : Str) → In c acc → In c (turn acc key)
    In-turn_old acc key c i = elim (Option-cases (DashMap.get key m)) [
      | inl miss ↦ rw (turn-miss acc key miss) i
      | inr (b, hit) ↦
          rw (turn-hit acc key b hit) (In-push_all_new_old b.inherited_controllers acc c i)
    ]

    In-collect_old :
        (keys acc : List Str) (c : Str)
        → In c acc
        → In c (collect_inherited same_name (λ b. b.inherited_controllers) m acc keys)
    unfolding collect_inherited
    In-collect_old [] acc c i = i
    In-collect_old (key ∷ keys) acc c i =
        In-collect_old keys (turn acc key) c (In-turn_old acc key c i)

    In-collect :
        (keys acc : List Str) (c key : Str) (b : NgIncludeBinding Url)
        → In key keys
        → DashMap.get key m ≡ some b
        → In c b.inherited_controllers
        → In c (collect_inherited same_name (λ b. b.inherited_controllers) m acc keys)
    unfolding collect_inherited
    In-collect [] acc c key b i hit l = absurd i
    In-collect (k ∷ keys) acc c key b (inl same) hit l = In-collect_old keys (turn acc k) c (
        rw (turn-hit acc k b (subst (λ j. DashMap.get j m ≡ some b) same hit))
          (In-push_all_new b.inherited_controllers acc c l))
    In-collect (k ∷ keys) acc c key b (inr i) hit l = In-collect keys (turn acc k) c key b i hit l

  -- The controllers that a template inherits are exactly those that a binding under one of its
  -- keys passes on, and each is listed once.
  pub get_inherited_controllers_for_template_iff :
      (path : Url → Str) (s : TemplateStore Url) (uri : Url)
      → Once (get_inherited_controllers_for_template path s uri)
        × ((c : Str)
            → In c (get_inherited_controllers_for_template path s uri)
              ↔ PassedOn s.ng_include_bindings (find_all_ng_include_keys_for_template path s uri) c)
  unfolding get_inherited_controllers_for_template
  get_inherited_controllers_for_template_iff path s uri =
      let m = s.ng_include_bindings in
      let keys = find_all_ng_include_keys_for_template path s uri in
      (
        collect-Once m keys [] tt,
        λ c. (
          λ i. elim (collect-In m keys [] c i) [ inl n ↦ absurd n | inr h ↦ h ],
          λ h. let (key, b, i, hit, l) = h in In-collect m keys [] c key b i hit l,
        ),
      )
