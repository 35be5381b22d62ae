-- ===== src/Tests/Texts.antt =====
-- Runs and examples for src/util.rs.
use angularjs_lsp.Prelude.{
  list_eq, list_beq, ℕ, ◌+◌, ◌-◌, ◌≡◌, refl, Bool, ◌&&◌, some, ◌++◌, arith, leb, if◌then◌else◌,
  nat_eq,
}
use angularjs_lsp.Text.{Str, codes, has_char, starts_with, split}
use angularjs_lsp.Text.Splits.{with_query}
use angularjs_lsp.Util.{
  camel_to_kebab, kebab_to_camel, normalize_template_path, resolve_relative_path,
}
use angularjs_lsp.Util.Names.{kebab_to_camel-camel_to_kebab}
use angularjs_lsp.Util.Paths.{
  up, here, normalize_template_path-prefixes, normalize_template_path-parent_kept,
}
use angularjs_lsp.Util.Walks.{walk, innermost, directories, resolve_relative_path-walk}

-- The letter cases of ASCII.
abbrev is_upper : ℕ → Bool
is_upper c = leb b'A' c && leb c b'Z'

abbrev to_lower : ℕ → ℕ
to_lower c = if is_upper c then c + 32 else c

abbrev to_upper : ℕ → ℕ
to_upper c = if leb b'a' c && leb c b'z' then c - 32 else c

abbrev file_path : Str → Str
file_path uri = uri

kebab_of_directive : camel_to_kebab is_upper to_lower (codes "myDirective") ≡ codes "my-directive"
unfolding camel_to_kebab
kebab_of_directive = refl

camel_of_directive : kebab_to_camel to_upper (codes "my-directive") ≡ codes "myDirective"
unfolding kebab_to_camel
camel_of_directive = refl

kebab_to_camel-camel_to_kebab_example :
    kebab_to_camel to_upper (camel_to_kebab is_upper to_lower (codes "aBc")) ≡ codes "aBc"
kebab_to_camel-camel_to_kebab_example =
    kebab_to_camel-camel_to_kebab is_upper to_lower to_upper (codes "aBc")
      (
        ground arith,
        (λ h. absurd (ground arith)),
        (
          ground arith,
          (λ h. (refl, ground arith)),
          (ground arith, (λ h. absurd (ground arith)), tt),
        ),
      )
      refl

normalized : normalize_template_path (codes "../a/b.html?v=1") ≡ codes "a/b.html"
unfolding normalize_template_path
normalized = refl

normalize_template_path-prefixes_example :
    normalize_template_path (with_query (up 2 (here 1 (codes "a.html"))) (some (codes "v=1")))
    ≡ codes "a.html"
normalize_template_path-prefixes_example =
    normalize_template_path-prefixes 2 1 (codes "a.html") (some (codes "v=1"))
      (unfold has_char in refl) (unfold starts_with in refl) (unfold starts_with in refl)
      (unfold starts_with in refl)

normalize_template_path-parent_kept_example :
    normalize_template_path (here 1 (codes "../" ++ codes "a.html")) ≡ codes "../" ++ codes "a.html"
normalize_template_path-parent_kept_example =
    normalize_template_path-parent_kept 0 (codes "a.html") (unfold has_char in refl)

-- From the directory of the parent out and in again, and out: the name of the directory is left.
resolve_relative_path-walk_example :
    resolve_relative_path file_path
      (codes "/app/views/main.html")
      (with_query (codes "../shared/..") (some (codes "v=1")))
    ≡ innermost (walk (directories (codes "/app/views")) (split b'/' (codes "../shared/..")))
resolve_relative_path-walk_example =
    resolve_relative_path-walk file_path (codes "/app/views/main.html") (codes "/app/views")
      (codes "main.html") (codes "../shared/..") (some (codes "v=1")) refl (unfold has_char in refl)
      (unfold has_char in refl) (unfold starts_with in refl)

left_in_app :
    innermost (walk (directories (codes "/app/views")) (split b'/' (codes "../shared/..")))
    ≡ codes "app"
unfolding split list_beq
left_in_app = refl
