-- ===== src/Templates/Resolution.antt =====
-- src/index/template_store.rs: the document that a template's path names. `path`, `scheme`,
-- `authority` and `parse` are the URI library's.
use angularjs_lsp.Prelude.{
  ℕ, Option, none, some, List, [], ◌∷◌, ◌++◌, map, Eq, ◌==◌, nat_eq, list_eq, leb, if◌then◌else◌,
  retain, sort_by,
}
use angularjs_lsp.DashMap.{DashMap}
use angularjs_lsp.Text.{Str, codes, split_once, before_first, before_last}
use angularjs_lsp.Util.{normalize_template_path}
use angularjs_lsp.Model.Template.{NgIncludeBinding}
use angularjs_lsp.Templates.State.{TemplateStore, extract_template_path_from_key}

-- `resolved_path`: from the directory of the parent that holds the first part of the path, else from
-- the parent's own directory; none is the `continue` of the loop
unfoldable pub resolved_path : Str → Str → Option Str
unfolding split_once before_first before_last
resolved_path parent_path normalized_path =
    let marker = b'/' ∷ (before_first b'/' normalized_path ++ b'/' ∷ []) in
    elim (split_once parent_path marker) [
      | some (root, rest) ↦ some (root ++ b'/' ∷ normalized_path)
      | none ↦ elim (before_last b'/' parent_path) [
        | some parent_dir ↦ some (parent_dir ++ b'/' ∷ normalized_path)
        | none ↦ none
      ]
    ]

module _ {Url : Type 0} (path scheme authority : Url → Str) (parse : Str → Option Url) where
  -- the URI that one binding gives
  unfoldable pub uri_from_parent : Url → Str → Option Url
  unfolding resolved_path
  uri_from_parent parent_uri normalized_path =
      elim (resolved_path (path parent_uri) normalized_path) [
        | none ↦ none
        | some resolved ↦
            parse (scheme parent_uri ++ (codes "://" ++ (authority parent_uri ++ resolved)))
      ]

  -- the loop over the bindings
  unfoldable pub resolve_from_bindings : Str → DashMap Str (NgIncludeBinding Url) → Option Url
  unfolding uri_from_parent
  resolve_from_bindings normalized_path [] = none
  resolve_from_bindings normalized_path ((key, binding) ∷ bindings) =
      let rest = resolve_from_bindings normalized_path bindings in
      if extract_template_path_from_key key == normalized_path
      then elim (uri_from_parent binding.parent_uri normalized_path) [
        | some uri ↦ some uri
        | none ↦ rest
      ]
      else rest

  unfoldable pub resolve_template_uri : TemplateStore Url → Str → Option Url
  unfolding resolve_from_bindings
  resolve_template_uri s template_path =
      resolve_from_bindings (normalize_template_path template_path) s.ng_include_bindings

  unfoldable pub get_ng_includes_in_file :
      ⦃e : Eq Url⦄ → TemplateStore Url → Url → List (ℕ × Str × Option Url)
  unfolding resolve_template_uri
  get_ng_includes_in_file s uri =
      sort_by (λ a b. leb a.0 b.0)
        (map
          (λ entry.
            (entry.1.line, entry.1.template_path, resolve_template_uri s entry.1.template_path))
          (retain (λ entry. entry.1.parent_uri == uri) s.ng_include_bindings))
