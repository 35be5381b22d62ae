-- ===== src/Analyzer/Directives/Prefixes.antt =====
-- The `data-` forms of attributes.
use angularjs_lsp.Prelude.{
  ℕ, ◌≡◌, ◌≢◌, refl, sym, ◌∙◌, inl, inr, Bool, true, false, Option, List, [], ◌∷◌, ◌++◌, arith,
  if◌then◌else◌, all, contains, drop, In, In-of_contains, Bool-cases, list_beq, nat_eq, list_eq,
}
use angularjs_lsp.Text.{Str, codes, starts_with, starts_with-append}
use angularjs_lsp.Index.{Index}
use angularjs_lsp.Analyzer.Directives.{
  is_ng_directive, is_directive_attribute, strip_data, ng_directive_set,
}

turn : (b c : Bool) → b ≡ true → (if b then c else true) ≡ true → c ≡ true
turn b c h k = ground arith

false-ne-true : false ≢ true
false-ne-true = cc

-- what is stripped of the two forms
stripped : (name : Str) → strip_data (codes "data-ng-" ++ name) ≡ codes "ng-" ++ name
unfolding starts_with
stripped name = refl

unstripped : (name : Str) → strip_data (codes "ng-" ++ name) ≡ codes "ng-" ++ name
unfolding starts_with
unstripped name = refl

-- the `data-` form of a directive, and the directive of a `data-` form
abbrev has_data_form : Str → Bool
has_data_form d =
    if starts_with d (codes "ng-") then contains ng_directive_set (codes "data-" ++ d) else true

abbrev has_plain_form : Str → Bool
has_plain_form d =
    if starts_with d (codes "data-") then contains ng_directive_set (drop 5 d) else true

data_forms : all has_data_form ng_directive_set ≡ true
unfolding contains starts_with list_beq
data_forms = refl

plain_forms : all has_plain_form ng_directive_set ≡ true
unfolding contains starts_with list_beq
plain_forms = refl

all-In : (p : Str → Bool) (xs : List Str) (a : Str) → all p xs ≡ true → In a xs → p a ≡ true
all-In p [] a h i = absurd i
all-In p (x ∷ xs) a h (inl e) = rw e (ground arith)
all-In p (x ∷ xs) a h (inr i) = all-In p xs a (ground arith) i

data_prefix : (a : Str) → starts_with (codes "data-" ++ a) (codes "data-") ≡ true
data_prefix a = starts_with-append (codes "data-") a

-- of names that begin with "ng-", the one with the prefix is known exactly if the one without is
is_ng_directive-data :
    (a : Str)
    → starts_with a (codes "ng-") ≡ true
    → is_ng_directive (codes "data-" ++ a) ≡ is_ng_directive a
unfolding is_ng_directive
is_ng_directive-data a ng = elim (Bool-cases (contains ng_directive_set a)) [
  | inl known ↦
      let there =
        all-In has_data_form ng_directive_set a data_forms
          (In-of_contains a ng_directive_set known) in
      let with_data : contains ng_directive_set (codes "data-" ++ a) ≡ true =
        turn (starts_with a (codes "ng-")) _ ng there in
      with_data ∙ sym known
  | inr unknown ↦ elim (Bool-cases (contains ng_directive_set (codes "data-" ++ a))) [
    | inr absent ↦ absent ∙ sym unknown
    | inl present ↦
        let there =
          all-In has_plain_form ng_directive_set (codes "data-" ++ a) plain_forms
            (In-of_contains (codes "data-" ++ a) ng_directive_set present) in
        let plain : contains ng_directive_set a ≡ true =
          turn (starts_with (codes "data-" ++ a) (codes "data-")) _ (data_prefix a) there in
        absurd (false-ne-true (sym unknown ∙ plain))
  ]
]

-- Of an attribute, "data-ng-" counts as "ng-", whatever the rest of the name, the element and the
-- index.
pub is_directive_attribute-data :
    {Url : Type 0} (to_uppercase : ℕ → ℕ) (s : Index Url) (name : Str) (element : Option Str)
    → is_directive_attribute to_uppercase s (codes "data-ng-" ++ name) element
      ≡ is_directive_attribute to_uppercase s (codes "ng-" ++ name) element
unfolding is_directive_attribute
is_directive_attribute-data to_uppercase s name element =
    rw
      (
        is_ng_directive-data (codes "ng-" ++ name) (starts_with-append (codes "ng-") name),
        stripped name,
        unstripped name,
      )
      refl
