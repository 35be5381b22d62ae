-- ===== src/Util.antt =====
-- src/util.rs: names between camelCase and kebab-case, and paths of templates.
pub mod Names
pub mod Paths
pub mod Walks
use angularjs_lsp.Prelude.{
  ℕ, Bool, true, false, ◌||◌, not, Option, none, some, List, [], ◌∷◌, ◌++◌, Eq, ◌==◌, nat_eq,
  list_eq, if◌then◌else◌, retain, is_empty,
}
use angularjs_lsp.Text.{
  Str, codes, starts_with, ends_with, before_first, after_last, before_last, split, join,
}

-- Rust's tables of letter cases: `is_uppercase`, and the first character of `to_lowercase` and
-- of `to_uppercase`.
module _ (is_uppercase : ℕ → Bool) (to_lowercase : ℕ → ℕ) where
  -- `first` is `i == 0`
  camel_from : Bool → Str → Str
  camel_from first [] = []
  camel_from first (c ∷ s) =
      let rest = camel_from false s in
      if is_uppercase c
      then if first then to_lowercase c ∷ rest else b'-' ∷ to_lowercase c ∷ rest
      else c ∷ rest

  unfoldable pub camel_to_kebab : Str → Str
  unfolding camel_from
  camel_to_kebab s = camel_from true s

module _ (to_uppercase : ℕ → ℕ) where
  kebab_from : Bool → Str → Str
  kebab_from capitalize_next [] = []
  kebab_from capitalize_next (c ∷ s) =
      let rest = kebab_from (c == b'-') s in
      if c == b'-' then rest else if capitalize_next then to_uppercase c ∷ rest else c ∷ rest

  unfoldable pub kebab_to_camel : Str → Str
  unfolding kebab_from
  kebab_to_camel s = kebab_from false s

-- `while normalized.starts_with("../") { normalized = &normalized[3..]; }`
strip_parents : Str → Str
unfolding starts_with
strip_parents (a ∷ b ∷ c ∷ s) =
    let rest = strip_parents s in
    if starts_with (a ∷ b ∷ c ∷ s) (codes "../") then rest else a ∷ b ∷ c ∷ s
strip_parents s = s

-- `while normalized.starts_with("./") { normalized = &normalized[2..]; }`
strip_currents : Str → Str
unfolding starts_with
strip_currents (a ∷ b ∷ s) =
    let rest = strip_currents s in if starts_with (a ∷ b ∷ s) (codes "./") then rest else a ∷ b ∷ s
strip_currents s = s

-- `if normalized.starts_with('/') { normalized = &normalized[1..]; }`
strip_root : Str → Str
strip_root [] = []
strip_root (c ∷ s) = if c == b'/' then s else c ∷ s

unfoldable pub normalize_template_path : Str → Str
unfolding strip_parents strip_currents strip_root before_first
normalize_template_path path = strip_root (strip_currents (strip_parents (before_first b'?' path)))

-- `parts.pop()`
pop : List Str → List Str
pop [] = []
pop (w ∷ []) = []
pop (w ∷ v ∷ ws) = w ∷ pop (v ∷ ws)

-- the `match segment` of the loop
resolve_segment : List Str → Str → List Str
unfolding pop
resolve_segment parts segment =
    if segment == codes ".."
    then pop parts
    else if segment == codes "." || is_empty segment
    then parts
    else parts ++ segment ∷ []

resolve_segments : List Str → List Str → List Str
unfolding resolve_segment
resolve_segments parts [] = parts
resolve_segments parts (segment ∷ segments) =
    resolve_segments (resolve_segment parts segment) segments

module _ {Url : Type 0} (path : Url → Str) where
  -- `path.to_lowercase()` on a whole text is Rust's
  unfoldable pub is_html_file : (Str → Str) → Url → Bool
  is_html_file lowercase uri =
      ends_with (lowercase (path uri)) (codes ".html")
      || ends_with (lowercase (path uri)) (codes ".htm")

  unfoldable pub is_js_file : Url → Bool
  is_js_file uri = ends_with (path uri) (codes ".js")

  abbrev parent_dir : Url → Str
  parent_dir uri = elim (before_last b'/' (path uri)) [ some dir ↦ dir | none ↦ [] ]

  resolved : Url → Str → Str
  resolved parent_uri template_path =
      if starts_with template_path (codes "/")
      then template_path
      else b'/'
        ∷ join b'/' (
            resolve_segments (retain (λ w. not (is_empty w)) (split b'/' (parent_dir parent_uri)))
              (split b'/' template_path))

  unfoldable pub resolve_relative_path : Url → Str → Str
  unfolding resolved resolve_segments starts_with before_last split join before_first after_last
  resolve_relative_path parent_uri template_path =
      after_last b'/' (resolved parent_uri (before_first b'?' template_path))
