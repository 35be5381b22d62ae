-- ===== src/Analyzer/VariableParser/Offsets.antt =====
-- The variables that are parsed stand in the expression where their offsets say.
use mathlib.Core.Path.{subst}
use mathlib.Core.List.{append_assoc, append-nil}
use angularjs_lsp.Prelude.{
  ℕ, zero, suc, ◌+◌, ◌-◌, ◌≡◌, refl, sym, ap, ◌∙◌, inl, inr, Bool, ◌&&◌, none, some, List, [], ◌∷◌,
  ◌++◌, arith, ◌==◌, nat_eq, length, take, drop, is_empty, In, Bool-cases, Option-cases,
}
use angularjs_lsp.Text.{
  Str, codes, split, split_once, join, before_first, has_char, starts_with, split_once-rebuild,
}
use angularjs_lsp.Text.Splits.{join-split}
use angularjs_lsp.Text.Trim.{trim, trim_start, trim_start-split, trim_end-split}
use angularjs_lsp.Text.Widths.{byte_len, byte_len-append}
use angularjs_lsp.Model.Html.{
  HtmlLocalVariableSource, ng_init, ng_repeat_iterator, ng_repeat_key_value,
}
use angularjs_lsp.Analyzer.VariableParser.{
  ParsedVariable, leading_spaces, variable_at, parse_parts, parse_key_value, parse_statements,
  parse_iter_part, is_assignment, parse_ng_repeat_expression, parse_ng_init_expression,
}

-- The name of the variable stands in the text, behind as many bytes as its offset counts.
abbrev pub StandsIn : Str → ParsedVariable → Type 0
StandsIn s v =
    (pre : Str) × (post : Str) × (s ≡ pre ++ (v.name ++ post))
    × (byte_len pre ≡ v.offset)
    × (byte_len v.name ≡ v.len)

spaces :
    (left lead part : Str) (pos : ℕ)
    → byte_len left ≡ pos
    → part ≡ lead ++ trim_start part
    → byte_len left + byte_len lead ≡ pos + leading_spaces part
spaces left lead part pos at front =
    let whole : byte_len part ≡ byte_len lead + byte_len (trim_start part) =
      ap byte_len front ∙ byte_len-append lead (trim_start part) in
    omega arith

-- a part that is trimmed: its white space, its name, and white space
variable_at-StandsIn :
    (source : HtmlLocalVariableSource) (s left part right : Str) (pos : ℕ)
    → s ≡ left ++ (part ++ right)
    → byte_len left ≡ pos
    → StandsIn s (variable_at source pos part)
variable_at-StandsIn source s left part right pos whole at =
    let (lead, front) = trim_start-split part in
    let (trail, back) = trim_end-split (trim_start part) in
    (
      left ++ lead,
      trail ++ right,
      whole
          ∙ (ap (λ p. left ++ (p ++ right))
                (front ∙ (ap (λ t. lead ++ t) back ∙ sym (append_assoc lead (trim part) trail)))
              ∙ (ap (λ t. left ++ t) (append_assoc (lead ++ trim part) trail right)
                  ∙ (ap (λ t. left ++ t) (append_assoc lead (trim part) (trail ++ right))
                      ∙ sym (append_assoc left lead (trim part ++ (trail ++ right)))))),
      byte_len-append left lead ∙ spaces left lead part pos at front,
      refl,
    )

-- the text behind a part and its separator
next_part :
    (s left part rest right : Str) (d : ℕ)
    → s ≡ left ++ ((part ++ d ∷ rest) ++ right)
    → s ≡ (left ++ (part ++ d ∷ [])) ++ (rest ++ right)
next_part s left part rest right d whole =
    whole
    ∙ (ap (λ t. left ++ t)
          (append_assoc part (d ∷ rest) right ∙ sym (append_assoc part (d ∷ []) (rest ++ right)))
        ∙ sym (append_assoc left (part ++ d ∷ []) (rest ++ right)))

next_at :
    (left part : Str) (d pos : ℕ)
    → byte_len (d ∷ []) ≡ 1
    → byte_len left ≡ pos
    → byte_len (left ++ (part ++ d ∷ [])) ≡ pos + byte_len part + 1
next_at left part d pos one at =
    ground (arith, byte_len-append left (part ++ d ∷ []), byte_len-append part (d ∷ []))

-- the parts between commas
parts-StandsIn :
    (s left right : Str) (parts : List Str) (pos : ℕ) (v : ParsedVariable)
    → s ≡ left ++ (join b',' parts ++ right)
    → byte_len left ≡ pos
    → In v (parse_parts pos parts)
    → StandsIn s v
unfolding parse_parts join byte_len
parts-StandsIn s left right [] pos v whole at i = absurd i
parts-StandsIn s left right (part ∷ []) pos v whole at i =
    elim (Bool-cases (is_empty (trim part))) [
      | inl nothing ↦ absurd (rw nothing at i)
      | inr name ↦ elim (rw name at i) [
        | inl e ↦ rw e (variable_at-StandsIn ng_repeat_key_value s left part right pos whole at)
        | inr nowhere ↦ absurd nowhere
      ]
    ]
parts-StandsIn s left right (part ∷ next ∷ parts) pos v whole at i =
    let whole' = next_part s left part (join b',' (next ∷ parts)) right b',' whole in
    let at' = next_at left part b',' pos (byte_len-comma) at in
    let later =
      parts-StandsIn s (left ++ (part ++ b',' ∷ [])) right (next ∷ parts) (pos + byte_len part + 1)
        v whole' at' in
    elim (Bool-cases (is_empty (trim part))) [
      | inl nothing ↦ later (rw nothing at i)
      | inr name ↦ elim (rw name at i) [
        | inl e ↦ rw e (
            variable_at-StandsIn ng_repeat_key_value s left part
              (b',' ∷ (join b',' (next ∷ parts) ++ right)) pos
              (whole
                ∙ ap (λ t. left ++ t) (append_assoc part (b',' ∷ join b',' (next ∷ parts)) right))
              at)
        | inr j ↦ later j
      ]
    ]
  where
    byte_len-comma : byte_len (b',' ∷ []) ≡ 1
    byte_len-comma = refl

take-drop : (n : ℕ) (s : Str) → s ≡ take n s ++ drop n s
take-drop zero s = refl
take-drop (suc n) [] = refl
take-drop (suc n) (c ∷ s) = ap (λ t. c ∷ t) (take-drop n s)

key_value-StandsIn :
    (s iter_part right : Str) (v : ParsedVariable)
    → s ≡ iter_part ++ right
    → In v (parse_key_value iter_part)
    → StandsIn s v
unfolding parse_key_value
key_value-StandsIn s iter_part right v whole i =
    let open_paren = length (before_first b'(' iter_part) in
    let close_paren = length (before_first b')' iter_part) in
    let left = take (open_paren + 1) iter_part in
    let behind = drop (open_paren + 1) iter_part in
    let inner = take (close_paren - (open_paren + 1)) behind in
    let last = drop (close_paren - (open_paren + 1)) behind in
    let cut : s ≡ left ++ (inner ++ (last ++ right)) =
      whole
      ∙ (ap (λ t. t ++ right) (take-drop (open_paren + 1) iter_part)
          ∙ (append_assoc left behind right
              ∙ ap (λ t. left ++ t)
                  (ap (λ t. t ++ right) (take-drop (close_paren - (open_paren + 1)) behind)
                    ∙ append_assoc inner last right))) in
    elim (Bool-cases (has_char b'(' iter_part && has_char b')' iter_part)) [
      | inl both ↦
          parts-StandsIn s left (last ++ right) (split b',' inner) (byte_len left) v
            (cut ∙ ap (λ t. left ++ (t ++ (last ++ right))) (sym (join-split b',' inner))) refl
            (rw both at i)
      | inr other ↦ absurd (rw other at i)
    ]

iter_part-StandsIn :
    (s iter_part right : Str) (v : ParsedVariable)
    → s ≡ iter_part ++ right
    → In v (parse_iter_part iter_part)
    → StandsIn s v
unfolding parse_iter_part byte_len
iter_part-StandsIn s iter_part right v whole i =
    elim (Bool-cases (starts_with (trim iter_part) (codes "("))) [
      | inl pair ↦ key_value-StandsIn s iter_part right v whole (rw pair at i)
      | inr item ↦ elim (Bool-cases (is_empty (trim iter_part))) [
        | inl nothing ↦ absurd (rw (item, nothing) at i)
        | inr name ↦ elim (rw (item, name) at i) [
          | inl e ↦ rw e (variable_at-StandsIn ng_repeat_iterator s [] iter_part right 0 whole refl)
          | inr nowhere ↦ absurd nowhere
        ]
      ]
    ]

repeat-none :
    (expr : Str) → split_once expr (codes " in ") ≡ none → parse_ng_repeat_expression expr ≡ []
unfolding parse_ng_repeat_expression
repeat-none expr h = ground arith

repeat-some :
    (expr a b : Str)
    → split_once expr (codes " in ") ≡ some (a, b)
    → parse_ng_repeat_expression expr ≡ parse_iter_part a
unfolding parse_ng_repeat_expression
repeat-some expr a b h = ground arith

-- Each variable that is parsed from an ng-repeat stands in the expression, behind as many bytes as
-- its offset says and over as many as its length says.
pub parse_ng_repeat_expression-StandsIn :
    (expr : Str) (v : ParsedVariable) → In v (parse_ng_repeat_expression expr) → StandsIn expr v
parse_ng_repeat_expression-StandsIn expr v i =
    elim (Option-cases (split_once expr (codes " in "))) [
      | inl absent ↦ absurd (subst (In v) (repeat-none expr absent) i)
      | inr ((a, b), found) ↦
          iter_part-StandsIn expr a (codes " in " ++ b) v
            (split_once-rebuild expr (codes " in ") a b found)
            (subst (In v) (repeat-some expr a b found) i)
    ]

before_first-split : (d : ℕ) (s : Str) → (t : Str) × (s ≡ before_first d s ++ t)
unfolding before_first
before_first-split d [] = ([], refl)
before_first-split d (c ∷ s) = elim (Bool-cases (c == d)) [
  | inl here ↦ (c ∷ s, rw here refl)
  | inr more ↦ let (t, e) = before_first-split d s in (t, rw more (ap (λ r. c ∷ r) e))
]

module _ (is_alphabetic is_alphanumeric : ℕ → Bool) where
  -- the variable of a statement
  statement-StandsIn :
      (s left statement right : Str) (pos : ℕ)
      → s ≡ left ++ (statement ++ right)
      → byte_len left ≡ pos
      → StandsIn s (variable_at ng_init pos (before_first b'=' statement))
  statement-StandsIn s left statement right pos whole at =
      let (t, e) = before_first-split b'=' statement in
      variable_at-StandsIn ng_init s left (before_first b'=' statement) (t ++ right) pos
        (whole
          ∙ ap (λ x. left ++ x)
              (ap (λ x. x ++ right) e ∙ append_assoc (before_first b'=' statement) t right))
        at

  statements-StandsIn :
      (s left right : Str) (statements : List Str) (pos : ℕ) (v : ParsedVariable)
      → s ≡ left ++ (join b';' statements ++ right)
      → byte_len left ≡ pos
      → In v (parse_statements is_alphabetic is_alphanumeric pos statements)
      → StandsIn s v
  unfolding parse_statements join byte_len
  statements-StandsIn s left right [] pos v whole at i = absurd i
  statements-StandsIn s left right (x ∷ []) pos v whole at i =
      elim (Bool-cases
        (has_char b'=' x && is_assignment is_alphabetic is_alphanumeric x (before_first b'=' x))) [
          | inl assigns ↦ elim (rw assigns at i) [
            | inl e ↦ rw e (statement-StandsIn s left x right pos whole at)
            | inr nowhere ↦ absurd nowhere
          ]
          | inr other ↦ absurd (rw other at i)
        ]
  statements-StandsIn s left right (x ∷ next ∷ statements) pos v whole at i =
      let rest = join b';' (next ∷ statements) in
      let later =
        statements-StandsIn s (left ++ (x ++ b';' ∷ [])) right (next ∷ statements)
          (pos + (byte_len x + 1)) v (next_part s left x rest right b';' whole)
          (next_at left x b';' pos refl at ∙ omega arith) in
      elim (Bool-cases
        (has_char b'=' x && is_assignment is_alphabetic is_alphanumeric x (before_first b'=' x))) [
          | inl assigns ↦ elim (rw assigns at i) [
            | inl e ↦ rw e (
                statement-StandsIn s left x (b';' ∷ (rest ++ right)) pos
                  (whole ∙ ap (λ t. left ++ t) (append_assoc x (b';' ∷ rest) right)) at)
            | inr j ↦ later j
          ]
          | inr other ↦ later (rw other at i)
        ]

  -- Each variable that is parsed from an ng-init stands in the expression, behind as many bytes as
  -- its offset says and over as many as its length says.
  pub parse_ng_init_expression-StandsIn :
      (expr : Str) (v : ParsedVariable)
      → In v (parse_ng_init_expression is_alphabetic is_alphanumeric expr)
      → StandsIn expr v
  unfolding parse_ng_init_expression byte_len
  parse_ng_init_expression-StandsIn expr v i =
      statements-StandsIn expr [] [] (split b';' expr) 0 v
        (sym (ap (λ t. t ++ []) (join-split b';' expr) ∙ append-nil expr)) refl i
