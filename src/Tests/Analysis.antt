-- ===== src/Tests/Analysis.antt =====
-- Runs and examples for src/analyzer/html and the identifier under a cursor.
use angularjs_lsp.Prelude.{
  ℕ, ◌≡◌, ◌↔◌, ◌<◌, refl, inl, Bool, ◌&&◌, some, List, [], ◌∷◌, arith, leb, length, get_elem?,
  panics, returns, nat_eq, list_eq,
}
use angularjs_lsp.Text.{Str, codes, after_last, has_char, starts_with}
use angularjs_lsp.Text.Trim.{trim_end, trim_start, is_whitespace}
use angularjs_lsp.Text.Widths.{byte_len}
use angularjs_lsp.Model.Html.{ng_repeat_iterator}
use angularjs_lsp.Index.HtmlPosition.{identifier_in_line, cut}
use angularjs_lsp.Index.HtmlPosition.Identifier.{
  IsRun, identifier_in_line-panics_iff, identifier_in_line-run,
}
use angularjs_lsp.Analyzer.VariableParser.{ParsedVariable, parse_ng_repeat_expression}
use angularjs_lsp.Analyzer.VariableParser.Offsets.{StandsIn, parse_ng_repeat_expression-StandsIn}
use angularjs_lsp.Analyzer.Expression.{get_directive_completion_context_with_tag, slice_to, last_of}
use angularjs_lsp.Analyzer.Expression.Cuts.{Cut, get_directive_completion_context_with_tag-panics}

-- the small letters of ASCII
abbrev is_letter : ℕ → Bool
is_letter c = leb 97 c && leb c 122

abbrev binding_line : Str
binding_line = codes "{{ user }}"

identifier_in_line-panics_iff_example :
    (identifier_in_line is_letter binding_line 4 ≡ panics)
    ↔ ((length binding_line < 4) × (4 < byte_len binding_line))
identifier_in_line-panics_iff_example = identifier_in_line-panics_iff is_letter binding_line 4

identifier_in_line-run_example :
    (start : ℕ) × (end_ : ℕ) × IsRun is_letter binding_line 4 start end_
    × (identifier_in_line is_letter binding_line 4
        ≡ returns (cut is_letter binding_line start end_))
unfolding byte_len
identifier_in_line-run_example =
    identifier_in_line-run is_letter binding_line 4 (omega arith) (ground arith)

abbrev repeat_users : Str
repeat_users = codes " user in users"

abbrev user : ParsedVariable
user = record { name = codes "user"; source = ng_repeat_iterator; offset = 1; len = 4 }

user_parsed : parse_ng_repeat_expression repeat_users ≡ user ∷ []
unfolding parse_ng_repeat_expression trim_end trim_start is_whitespace byte_len
user_parsed = refl

parse_ng_repeat_expression-StandsIn_example : StandsIn repeat_users user
parse_ng_repeat_expression-StandsIn_example =
    parse_ng_repeat_expression-StandsIn repeat_users user (rw user_parsed (inl refl))

abbrev one_line : Str → List Str
one_line source = source ∷ []

get_directive_completion_context_with_tag-panics_example :
    (get_directive_completion_context_with_tag one_line (codes "<é") 0 2 ≡ panics)
    ↔ ((s : Str) × (get_elem? (one_line (codes "<é")) 0 ≡ some s) × Cut s 2)
get_directive_completion_context_with_tag-panics_example =
    get_directive_completion_context_with_tag-panics one_line (codes "<é") 0 2

-- "<a" and an ideographic space
abbrev wide_space : Str
wide_space = 60 ∷ 97 ∷ 0x3000 ∷ []

-- Behind an ideographic space, of three bytes, the slice panics.
wide_space_cut : get_directive_completion_context_with_tag one_line wide_space 0 5 ≡ panics
unfolding get_directive_completion_context_with_tag slice_to last_of is_whitespace byte_len
    after_last has_char starts_with
wide_space_cut = refl
