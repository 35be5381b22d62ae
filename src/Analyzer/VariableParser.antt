-- ===== src/Analyzer/VariableParser.antt =====
-- src/analyzer/html/variable_parser.rs: the variables of `ng-repeat` and `ng-init`, with their byte
-- offsets. `is_alphabetic` and `is_alphanumeric` are the character tables of Rust.
pub mod Offsets
use angularjs_lsp.Prelude.{
  ℕ, ◌+◌, ◌-◌, Bool, true, false, not, ◌&&◌, ◌||◌, Option, none, some, List, [], ◌∷◌, Eq, ◌==◌,
  nat_eq, if◌then◌else◌, length, get_elem?, take, drop, all, is_empty,
}
use angularjs_lsp.Text.{
  Str, codes, split_once, split, before_first, has_char, starts_with, ends_with,
}
use angularjs_lsp.Text.Trim.{trim, trim_start}
use angularjs_lsp.Text.Widths.{byte_len}
use angularjs_lsp.Model.Html.{
  HtmlLocalVariableSource, ng_init, ng_repeat_iterator, ng_repeat_key_value,
}

pub record ParsedVariable : Type 0 where
  pub name : Str
  pub source : HtmlLocalVariableSource
  pub offset : ℕ
  pub len : ℕ

-- `s.len() - s.trim_start().len()`
abbrev pub leading_spaces : Str → ℕ
leading_spaces s = byte_len s - byte_len (trim_start s)

-- the variable that a part of an expression names, where the part begins at `pos`
abbrev pub variable_at : HtmlLocalVariableSource → ℕ → Str → ParsedVariable
variable_at source pos part = record {
  name = trim part;
  source = source;
  offset = pos + leading_spaces part;
  len = byte_len (trim part);
}

-- the loop over the parts between commas; `pos` is where the first begins
unfoldable pub parse_parts : ℕ → List Str → List ParsedVariable
parse_parts pos [] = []
parse_parts pos (part ∷ parts) =
    let rest = parse_parts (pos + byte_len part + 1) parts in
    if is_empty (trim part) then rest else variable_at ng_repeat_key_value pos part ∷ rest

-- the (key, value) pattern: between the first "(" and the first ")"
unfoldable pub parse_key_value : Str → List ParsedVariable
unfolding parse_parts split before_first
parse_key_value iter_part =
    let open_paren = length (before_first b'(' iter_part) in
    let close_paren = length (before_first b')' iter_part) in
    let inner = take (close_paren - (open_paren + 1)) (drop (open_paren + 1) iter_part) in
    if has_char b'(' iter_part && has_char b')' iter_part
    then parse_parts (byte_len (take (open_paren + 1) iter_part)) (split b',' inner)
    else []

-- what stands before " in "
unfoldable pub parse_iter_part : Str → List ParsedVariable
unfolding parse_key_value
parse_iter_part iter_part =
    if starts_with (trim iter_part) (codes "(")
    then parse_key_value iter_part
    else if is_empty (trim iter_part)
    then []
    else variable_at ng_repeat_iterator 0 iter_part ∷ []

unfoldable pub parse_ng_repeat_expression : Str → List ParsedVariable
unfolding parse_iter_part split_once
parse_ng_repeat_expression expr = elim (split_once expr (codes " in ")) [
  | none ↦ []
  | some (iter_part, rest) ↦ parse_iter_part iter_part
]

module _ (is_alphabetic is_alphanumeric : ℕ → Bool) where
  unfoldable pub is_valid_identifier : Str → Bool
  is_valid_identifier [] = false
  is_valid_identifier (c ∷ s) =
      (is_alphabetic c || c == b'_' || c == b'$')
      && all (λ c. is_alphanumeric c || c == b'_' || c == b'$') s

  -- the tests on a statement; the byte index of "=" is taken for an index of characters
  abbrev pub is_assignment : Str → Str → Bool
  is_assignment statement before_eq =
      not (is_equals (get_elem? statement (byte_len before_eq + 1)))
      && not (ends_with before_eq (codes "!"))
      && not (is_empty (trim before_eq))
      && is_valid_identifier (trim before_eq)
    where
      is_equals : Option ℕ → Bool
      is_equals none = false
      is_equals (some c) = c == b'='

  -- the loop over the statements; `pos` is where the first begins
  unfoldable pub parse_statements : ℕ → List Str → List ParsedVariable
  unfolding before_first is_valid_identifier
  parse_statements pos [] = []
  parse_statements pos (statement ∷ statements) =
      let rest = parse_statements (pos + (byte_len statement + 1)) statements in
      let before_eq = before_first b'=' statement in
      if has_char b'=' statement && is_assignment statement before_eq
      then variable_at ng_init pos before_eq ∷ rest
      else rest

  unfoldable pub parse_ng_init_expression : Str → List ParsedVariable
  unfolding parse_statements split
  parse_ng_init_expression expr = parse_statements 0 (split b';' expr)
