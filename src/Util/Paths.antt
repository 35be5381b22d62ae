-- ===== src/Util/Paths.antt =====
-- What is left of a template's path after normalisation, and which file a relative path names.
use angularjs_lsp.Prelude.{
  ℕ, zero, suc, ◌≡◌, ◌≢◌, refl, ◌∙◌, false, not, Option, List, [], ◌∷◌, ◌++◌, arith, list_beq_iff,
  nat_eq, list_eq, retain, is_empty, Bool-cases, inl, inr,
}
use angularjs_lsp.Text.{
  Str, codes, starts_with, has_char, before_first, split, before_first_of_clean, after_last-append,
  has_char-append,
}
use angularjs_lsp.Text.Splits.{
  with_query, before_first-with_query, split_of_clean, split-append, after_last-join,
}
use angularjs_lsp.Util.{
  strip_parents, strip_currents, strip_root, normalize_template_path, resolve_segment,
  resolve_segments, parent_dir, resolve_relative_path,
}

-- `n` times "../" in front.
abbrev pub up : ℕ → Str → Str
up zero s = s
up (suc n) s = b'.' ∷ b'.' ∷ b'/' ∷ up n s

-- `n` times "./" in front.
abbrev pub here : ℕ → Str → Str
here zero s = s
here (suc n) s = b'.' ∷ b'/' ∷ here n s

strip_parents_of_clean : (s : Str) → starts_with s (codes "../") ≡ false → strip_parents s ≡ s
unfolding strip_parents
strip_parents_of_clean [] h = refl
strip_parents_of_clean (a ∷ []) h = refl
strip_parents_of_clean (a ∷ b ∷ []) h = refl
strip_parents_of_clean (a ∷ b ∷ c ∷ s) h = ground arith

strip_parents-up :
    (n : ℕ) (s : Str) → starts_with s (codes "../") ≡ false → strip_parents (up n s) ≡ s
unfolding strip_parents
strip_parents-up zero s h = strip_parents_of_clean s h
strip_parents-up (suc n) s h = strip_parents-up n s h

strip_currents_of_clean : (s : Str) → starts_with s (codes "./") ≡ false → strip_currents s ≡ s
unfolding strip_currents
strip_currents_of_clean [] h = refl
strip_currents_of_clean (a ∷ []) h = refl
strip_currents_of_clean (a ∷ b ∷ s) h = ground arith

strip_currents-here :
    (n : ℕ) (s : Str) → starts_with s (codes "./") ≡ false → strip_currents (here n s) ≡ s
unfolding strip_currents
strip_currents-here zero s h = strip_currents_of_clean s h
strip_currents-here (suc n) s h = strip_currents-here n s h

here-clean :
    (n : ℕ) (s : Str)
    → starts_with s (codes "../") ≡ false
    → starts_with (here n s) (codes "../") ≡ false
unfolding starts_with
here-clean zero s h = h
here-clean (suc n) s h = refl

strip_root_of_clean : (s : Str) → starts_with s (codes "/") ≡ false → strip_root s ≡ s
unfolding strip_root starts_with
strip_root_of_clean [] h = refl
strip_root_of_clean (c ∷ s) h = ground arith

has_char-up : (n : ℕ) (s : Str) → has_char b'?' (up n s) ≡ has_char b'?' s
unfolding has_char
has_char-up zero s = refl
has_char-up (suc n) s = has_char-up n s

has_char-here : (n : ℕ) (s : Str) → has_char b'?' (here n s) ≡ has_char b'?' s
unfolding has_char
has_char-here zero s = refl
has_char-here (suc n) s = has_char-here n s

normalize_template_path_lem :
    (p : Str)
    → normalize_template_path p ≡ strip_root (strip_currents (strip_parents (before_first b'?' p)))
unfolding normalize_template_path
normalize_template_path_lem p = refl

-- Of a path of any number of "../", then any number of "./", then a clean rest, with a query or
-- none behind, normalisation leaves the rest.
pub normalize_template_path-prefixes :
    (n m : ℕ) (rest : Str) (query : Option Str)
    → has_char b'?' rest ≡ false
    → starts_with rest (codes "../") ≡ false
    → starts_with rest (codes "./") ≡ false
    → starts_with rest (codes "/") ≡ false
    → normalize_template_path (with_query (up n (here m rest)) query) ≡ rest
unfolding normalize_template_path
normalize_template_path-prefixes n m rest query mark parent current root =
    rw
      (
        before_first-with_query (up n (here m rest)) query
            (has_char-up n (here m rest) ∙ has_char-here m rest ∙ mark),
        strip_parents-up n (here m rest) (here-clean m rest parent),
        strip_currents-here m rest current,
      )
      (strip_root_of_clean rest root)

-- A "../" behind a "./" stays: of such a path, without a query, normalisation takes off only the
-- "./".
pub normalize_template_path-parent_kept :
    (m : ℕ) (rest : Str)
    → has_char b'?' rest ≡ false
    → normalize_template_path (here (suc m) (codes "../" ++ rest)) ≡ codes "../" ++ rest
normalize_template_path-parent_kept m rest mark =
    rw
      (
        normalize_template_path_lem,
        before_first_of_clean b'?' (here (suc m) (codes "../" ++ rest))
            (has_char-here (suc m) (codes "../" ++ rest) ∙ unfold has_char in mark),
        strip_parents_of_clean (here (suc m) (codes "../" ++ rest)) (unfold starts_with in refl),
        strip_currents-here (suc m) (codes "../" ++ rest) (unfold starts_with in refl),
      )
      (unfold strip_root in refl)

-- A last segment that is a name is the last part.
resolve_segments-concat :
    (parts segments : List Str) (file : Str)
    → file ≢ codes ".."
    → file ≢ codes "."
    → file ≢ []
    → resolve_segments parts (segments ++ file ∷ []) ≡ resolve_segments parts segments ++ file ∷ []
unfolding resolve_segments
resolve_segments-concat parts [] [] a b c = absurd (c refl)
resolve_segments-concat parts [] (x ∷ file) a b c =
    ground (arith, list_beq_iff (x ∷ file) (codes ".."), list_beq_iff (x ∷ file) (codes "."))
resolve_segments-concat parts (w ∷ ws) file a b c =
    resolve_segments-concat (resolve_segment parts w) ws file a b c

-- Whatever the parent document, the directories and the query, a template path that ends in "/" and
-- a file name resolves to that name.
pub resolve_relative_path-file :
    {Url : Type 0} (path : Url → Str) (parent_uri : Url) (dir file : Str) (query : Option Str)
    → has_char b'?' dir ≡ false
    → has_char b'?' file ≡ false
    → has_char b'/' file ≡ false
    → file ≢ codes ".."
    → file ≢ codes "."
    → file ≢ []
    → resolve_relative_path path parent_uri (with_query (dir ++ b'/' ∷ file) query) ≡ file
unfolding resolve_relative_path
resolve_relative_path-file path parent_uri dir file query dq fq slash a b c =
    let clean = has_char-append b'?' dir (b'/' ∷ file) ∙ unfold has_char in ground arith in
    let base = retain (λ w. not (is_empty w)) (split b'/' (parent_dir path parent_uri)) in
    rw (before_first-with_query (dir ++ b'/' ∷ file) query clean)
      (elim (Bool-cases (starts_with (dir ++ b'/' ∷ file) (codes "/"))) [
        | inl root ↦ rw root (after_last-append b'/' dir file slash)
        | inr relative ↦
            rw
              (
                relative,
                split-append b'/' dir file,
                split_of_clean b'/' file slash,
                resolve_segments-concat base (split b'/' dir) file a b c,
              )
              (after_last-join b'/' (resolve_segments base (split b'/' dir)) file slash)
      ])
