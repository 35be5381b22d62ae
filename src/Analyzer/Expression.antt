-- ===== src/Analyzer/Expression.antt =====
-- src/analyzer/html/expression.rs: where the cursor stands in a line of a template. `lines` is the line
-- iterator of Rust.
pub mod Spaces
pub mod Cuts
use angularjs_lsp.Prelude.{
  ℕ, zero, suc, ◌-◌, ◌%◌, Bool, true, false, not, ◌&&◌, ◌||◌, Option, none, some, List, [], ◌∷◌,
  ◌==◌, nat_eq, list_eq, if◌then◌else◌, ltb, nat_beq, get_elem?, length, retain, any, contains,
  is_empty, is_some, and_then, Outcome, panics, returns,
}
use angularjs_lsp.Text.{
  Str, codes, has_char, has_text, starts_with, ends_with, after_last, before_first,
}
use angularjs_lsp.Text.Trim.{trim, trim_end, is_whitespace}
use angularjs_lsp.Text.Widths.{len_utf8, byte_len}

-- `&s[..col]`: none where the cut is inside a character, which panics
unfoldable pub slice_to : Str → ℕ → Option Str
slice_to s zero = some []
slice_to [] (suc col) = none
slice_to (c ∷ s) (suc col) =
    let rest = slice_to s (suc col - len_utf8 c) in
    if ltb (suc col) (len_utf8 c) then none else elim rest [ none ↦ none | some t ↦ some (c ∷ t) ]

-- `rfind` of a character that passes: the character, and what stands behind it
unfoldable pub last_of : (ℕ → Bool) → Str → Option (ℕ × Str)
last_of p [] = none
last_of p (c ∷ s) = elim (last_of p s) [
  | some found ↦ some found
  | none ↦ if p c then some (c, s) else none
]

-- `&s[i + 1..]` for a character at the byte `i` and what stands behind it: a character of several
-- bytes does not end there
abbrev pub slice_behind : ℕ × Str → Outcome Str
slice_behind (c, s) = if nat_beq (len_utf8 c) 1 then returns s else panics

-- from the last space or "<" on
unfoldable pub extract_attr_name : Str → Outcome (Option Str)
unfolding last_of
extract_attr_name s =
    elim (elim (last_of (λ c. is_whitespace c || c == b'<') s) as (λ _. Outcome Str) [
      | none ↦ returns s
      | some found ↦ slice_behind found
    ]) [
      | panics ↦ panics
      | returns attr_name ↦ returns (if is_empty attr_name then none else some attr_name)
    ]

-- up to the first character that passes
unfoldable pub take_until : (ℕ → Bool) → Str → Str
take_until p [] = []
take_until p (c ∷ s) = let rest = take_until p s in if p c then [] else c ∷ rest

unfoldable pub extract_element_name_before : Str → Option Str
unfolding take_until after_last
extract_element_name_before s =
    let after_lt = after_last b'<' s in
    let name = take_until (λ c. is_whitespace c || c == b'>' || c == b'/') after_lt in
    if not (has_char b'<' s) || starts_with after_lt (codes "/") || is_empty name
    then none
    else some name

abbrev pub count : ℕ → Str → ℕ
count d s = length (retain (λ c. c == d) s)

-- `is_ascii_whitespace`
abbrev pub is_ascii_space : ℕ → Bool
is_ascii_space c = contains (32 ∷ 9 ∷ 10 ∷ 12 ∷ 13 ∷ []) c

-- the first word of `split_ascii_whitespace`
unfoldable pub skip_ascii_space : Str → Str
skip_ascii_space [] = []
skip_ascii_space (c ∷ s) = let rest = skip_ascii_space s in if is_ascii_space c then rest else c ∷ s

unfoldable pub first_word : Str → Option Str
unfolding skip_ascii_space take_until
first_word s =
    let word = take_until is_ascii_space (skip_ascii_space s) in
    if is_empty word then none else some word

-- what is typed behind a space in a tag, with the name of the tag
abbrev pub context_of_attribute : Str → Str → Option (Str × Bool × Option Str)
context_of_attribute tag_content attr_part =
    if ends_with (trim_end tag_content) (codes "=") || has_char b'=' attr_part
    then none
    else some (attr_part, false, first_word tag_content)

-- what is typed in a tag: the text, whether it is the name of the tag, and else that name
abbrev pub context_in_tag : Str → Outcome (Option (Str × Bool × Option Str))
context_in_tag tag_content =
    if starts_with tag_content (codes "/")
      || nat_beq (count 34 tag_content % 2) 1
      || nat_beq (count 39 tag_content % 2) 1
    then returns none
    else elim (last_of is_whitespace tag_content) [
      | none ↦ returns (some (tag_content, true, none))
      | some found ↦ elim (slice_behind found) [
        | panics ↦ panics
        | returns attr_part ↦ returns (context_of_attribute tag_content attr_part)
      ]
    ]

-- behind the last "<", unless a ">" stands behind it
abbrev pub context_before_cursor : Str → Outcome (Option (Str × Bool × Option Str))
context_before_cursor before_cursor =
    let tag_content = after_last b'<' before_cursor in
    if not (has_char b'<' before_cursor) || has_char b'>' tag_content
    then returns none
    else context_in_tag tag_content

-- the line, cut at the cursor
abbrev pub context_in_line : Str → ℕ → Outcome (Option (Str × Bool × Option Str))
context_in_line current_line col =
    if ltb (byte_len current_line) col then returns none else elim (slice_to current_line col) [
      | none ↦ panics
      | some before_cursor ↦ context_before_cursor before_cursor
    ]

unfoldable pub get_directive_completion_context_with_tag :
    (Str → List Str) → Str → ℕ → ℕ → Outcome (Option (Str × Bool × Option Str))
unfolding slice_to last_of
get_directive_completion_context_with_tag lines source line col =
    elim (get_elem? (lines source) line) [
      | none ↦ returns none
      | some current_line ↦ context_in_line current_line col
    ]

unfoldable pub get_directive_completion_context :
    (Str → List Str) → Str → ℕ → ℕ → Outcome (Option (Str × Bool))
unfolding get_directive_completion_context_with_tag
get_directive_completion_context lines source line col =
    elim (get_directive_completion_context_with_tag lines source line col) [
      | panics ↦ panics
      | returns none ↦ returns none
      | returns (some (prefix, is_tag_name, tag)) ↦ returns (some (prefix, is_tag_name))
    ]

-- `remove_angular_filters`: up to the first "|" that is not part of "||"; `after_pipe` tells that the
-- character before is a "|"
unfoldable pub before_filter : Bool → Str → Str
before_filter after_pipe [] = []
before_filter after_pipe (c ∷ s) =
    let rest = before_filter (c == b'|') s in
    if c == b'|' && not (starts_with s (codes "|")) && not after_pipe then [] else c ∷ rest

unfoldable pub remove_angular_filters : Str → Str
unfolding before_filter
remove_angular_filters expr = trim (before_filter false expr)
