-- ===== src/Templates/Matching.antt =====
-- src/index/template_store.rs: the tests of a document's path against a template's path.
use angularjs_lsp.Prelude.{Bool, ◌||◌, ◌==◌, nat_eq, list_eq, ◌∷◌}
use angularjs_lsp.Text.{Str, ends_with, after_last}

-- `path.rsplit('/').next()`, which is there for every path
unfoldable pub filename : Str → Str
unfolding after_last
filename path = after_last b'/' path

-- `path.ends_with("/" + template_path) || path == "/" + template_path`
unfoldable pub matches_path : Str → Str → Bool
unfolding ends_with
matches_path path template_path =
    ends_with path (b'/' ∷ template_path) || path == (b'/' ∷ template_path)
