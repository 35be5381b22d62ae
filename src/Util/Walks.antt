-- ===== src/Util/Walks.antt =====
-- Which name a template's path leads to from the directory of its parent document.
use angularjs_lsp.Prelude.{
  ◌≡◌, refl, sym, ap, ◌∙◌, inl, inr, Bool, false, not, ◌||◌, Option, List, [], ◌∷◌, ◌++◌, arith,
  ◌==◌, nat_eq, list_eq, if◌then◌else◌, retain, is_empty, In, In-append, In-retain, Bool-cases,
  drop,
}
use angularjs_lsp.Text.{Str, codes, starts_with, has_char, before_last, split, join, after_last}
use angularjs_lsp.Text.Splits.{
  with_query, before_first-with_query, after_last-join, split-clean, before_last-append,
}
use angularjs_lsp.Util.{pop, resolve_segment, resolve_segments, parent_dir, resolve_relative_path}

-- The innermost directory stands first: a step goes into a directory, out of one, or nowhere.
abbrev pub visit : List Str → Str → List Str
visit dirs segment =
    if segment == codes ".."
    then drop 1 dirs
    else if segment == codes "." || is_empty segment
    then dirs
    else segment ∷ dirs

abbrev pub walk : List Str → List Str → List Str
walk dirs [] = dirs
walk dirs (segment ∷ segments) = walk (visit dirs segment) segments

abbrev pub outward : List Str → List Str
outward [] = []
outward (w ∷ ws) = outward ws ++ w ∷ []

-- The innermost name, or nothing at the root.
abbrev pub innermost : List Str → Str
innermost [] = []
innermost (w ∷ ws) = w

-- The directories of a path, the innermost first.
abbrev pub directories : Str → List Str
directories dir = outward (retain (λ w. not (is_empty w)) (split b'/' dir))

pop-push : (ws : List Str) (w : Str) → pop (ws ++ w ∷ []) ≡ ws
unfolding pop
pop-push [] w = refl
pop-push (a ∷ []) w = refl
pop-push (a ∷ b ∷ ws) w = ap (λ r. a ∷ r) (pop-push (b ∷ ws) w)

resolve_segment-outward :
    (dirs : List Str) (segment : Str)
    → resolve_segment (outward dirs) segment ≡ outward (visit dirs segment)
unfolding resolve_segment
resolve_segment-outward [] segment = ground (arith, pop)
resolve_segment-outward (d ∷ dirs) segment = ground (arith, pop-push (outward dirs) d)

resolve_segments-outward :
    (dirs segments : List Str)
    → resolve_segments (outward dirs) segments ≡ outward (walk dirs segments)
unfolding resolve_segments
resolve_segments-outward dirs [] = refl
resolve_segments-outward dirs (w ∷ ws) =
    ap (λ r. resolve_segments r ws) (resolve_segment-outward dirs w)
    ∙ resolve_segments-outward (visit dirs w) ws

outward-push : (ws : List Str) (w : Str) → outward (ws ++ w ∷ []) ≡ w ∷ outward ws
outward-push [] w = refl
outward-push (a ∷ ws) w = ap (λ r. r ++ a ∷ []) (outward-push ws w)

outward-outward : (ws : List Str) → outward (outward ws) ≡ ws
outward-outward [] = refl
outward-outward (w ∷ ws) = outward-push (outward ws) w ∙ ap (λ r. w ∷ r) (outward-outward ws)

-- No "/" stands in the names.
AllClean : List Str → Type 0
AllClean ws = (w : Str) → In w ws → has_char b'/' w ≡ false

split-AllClean : (s : Str) → AllClean (split b'/' s)
unfolding AllClean
split-AllClean s = split-clean b'/' s

outward-AllClean : (ws : List Str) → AllClean ws → AllClean (outward ws)
unfolding AllClean
outward-AllClean [] h w i = absurd i
outward-AllClean (a ∷ ws) h w i = elim (In-append w (outward ws) (a ∷ []) i) [
  | inl j ↦ outward-AllClean ws (λ v k. h v (inr k)) w j
  | inr (inl e) ↦ h w (inl e)
  | inr (inr k) ↦ absurd k
]

visit-AllClean :
    (dirs : List Str) (w : Str) → AllClean dirs → has_char b'/' w ≡ false → AllClean (visit dirs w)
unfolding AllClean
visit-AllClean dirs w h clean v i = elim (Bool-cases (w == codes "..")) [
  | inl parent ↦ dropped dirs h (rw parent at i)
  | inr name ↦ elim (Bool-cases (w == codes "." || is_empty w)) [
    | inl stays ↦ h v (rw (name, stays) at i)
    | inr goes ↦ elim (rw (name, goes) at i) [ inl e ↦ rw e clean | inr j ↦ h v j ]
  ]
]
  where
    dropped :
        (ds : List Str)
        → ((u : Str) → In u ds → has_char b'/' u ≡ false)
        → In v (drop 1 ds)
        → has_char b'/' v ≡ false
    dropped [] k j = absurd j
    dropped (d ∷ ds) k j = k v (inr j)

walk-AllClean : (dirs ws : List Str) → AllClean dirs → AllClean ws → AllClean (walk dirs ws)
unfolding AllClean
walk-AllClean dirs [] h k = h
walk-AllClean dirs (w ∷ ws) h k =
    walk-AllClean (visit dirs w) ws (visit-AllClean dirs w h (k w (inl refl))) (λ v i. k v (inr i))

last-innermost :
    (dirs : List Str)
    → AllClean dirs
    → after_last b'/' (b'/' ∷ join b'/' (outward dirs)) ≡ innermost dirs
unfolding AllClean join after_last has_char
last-innermost [] h = refl
last-innermost (d ∷ dirs) h = after_last-join b'/' (outward dirs) d (h d (inl refl))

retain-AllClean : (test : Str → Bool) (ws : List Str) → AllClean ws → AllClean (retain test ws)
unfolding AllClean
retain-AllClean test ws h w i = h w ((In-retain w test ws i).0)

parent_dir_lem :
    {Url : Type 0} (path : Url → Str) (parent_uri : Url) (dir name : Str)
    → path parent_uri ≡ dir ++ b'/' ∷ name
    → has_char b'/' name ≡ false
    → parent_dir path parent_uri ≡ dir
unfolding before_last
parent_dir_lem path parent_uri dir name e clean =
    rw (parent_dir, e, before_last-append b'/' dir name clean) refl

-- A relative template path without a query of its own, whatever query stands behind it, resolves
-- to the innermost name that is reached from the directory of the parent document, where ".."
-- leaves a directory, "." and an empty segment stay, any other segment enters, and ".." at the
-- root stays there; at the root the name is empty.
pub resolve_relative_path-walk :
    {Url : Type 0} (path : Url → Str) (parent_uri : Url) (dir name template_path : Str)
    (query : Option Str)
    → path parent_uri ≡ dir ++ b'/' ∷ name
    → has_char b'/' name ≡ false
    → has_char b'?' template_path ≡ false
    → starts_with template_path (codes "/") ≡ false
    → resolve_relative_path path parent_uri (with_query template_path query)
      ≡ innermost (walk (directories dir) (split b'/' template_path))
unfolding resolve_relative_path
resolve_relative_path-walk path parent_uri dir name tp query e clean mark relative =
    let base = retain (λ w. not (is_empty w)) (split b'/' dir) in
    let segments = split b'/' tp in
    let dirs = outward base in
    let walked : resolve_segments base segments ≡ outward (walk dirs segments) =
      ap (λ parts. resolve_segments parts segments) (sym (outward-outward base))
      ∙ resolve_segments-outward dirs segments in
    rw
      (
        before_first-with_query tp query mark,
        relative,
        parent_dir_lem path parent_uri dir name e clean,
        walked,
      )
      (last-innermost (walk dirs segments) (
        walk-AllClean dirs segments
          (outward-AllClean base
            (retain-AllClean (λ w. not (is_empty w)) (split b'/' dir) (split-AllClean dir)))
          (split-AllClean tp)))
