-- ===== src/Analyzer/Expression/Cuts.antt =====
-- Where the cut of a line at the cursor panics.
use angularjs_lsp.Prelude.{
  ℕ, zero, suc, ◌+◌, ◌-◌, ◌≤◌, ◌<◌, ◌≡◌, ◌≢◌, refl, sym, ap, ◌∙◌, ◌↔◌, ◌⊎◌, inl, inr, true, false,
  Option, none, some, List, [], ◌∷◌, ◌++◌, arith, ltb, get_elem?, Bool-cases, Option-cases, panics,
  and_then,
}
use angularjs_lsp.Text.{Str}
use angularjs_lsp.Text.Widths.{len_utf8, byte_len, byte_len-append}
use angularjs_lsp.Analyzer.Expression.Spaces.{CutsSpace, context_before_cursor-panics_iff}
use angularjs_lsp.Analyzer.Expression.{
  slice_to, context_in_line, get_directive_completion_context_with_tag,
}

len_utf8-pos : (c : ℕ) → 0 < len_utf8 c
len_utf8-pos c = ground arith

none-ne-some : (t : Str) → none ≢ some t
none-ne-some t = cc

some_inj : {t u : Str} → some t ≡ some u → t ≡ u
some_inj h = ground arith

behind : (w k col : ℕ) → ltb (suc col) w ≡ false → k ≡ suc col - w → w + k ≡ suc col
behind w k col past at = ground arith

turn_inside :
    (c n : ℕ) (s : Str) → ltb (suc n) (len_utf8 c) ≡ true → slice_to (c ∷ s) (suc n) ≡ none
unfolding slice_to
turn_inside c n s inside = rw (inside, slice_to) refl

turn_none :
    (c n : ℕ) (s : Str)
    → ltb (suc n) (len_utf8 c) ≡ false
    → slice_to s (suc n - len_utf8 c) ≡ none
    → slice_to (c ∷ s) (suc n) ≡ none
unfolding slice_to
turn_none c n s past h = rw (past, h, slice_to) refl

turn_some :
    (c n : ℕ) (s t : Str)
    → ltb (suc n) (len_utf8 c) ≡ false
    → slice_to s (suc n - len_utf8 c) ≡ some t
    → slice_to (c ∷ s) (suc n) ≡ some (c ∷ t)
unfolding slice_to
turn_some c n s t past h = rw (past, h, slice_to) refl

-- the cut behind one character
slice_past :
    (c n w : ℕ) (s : Str)
    → len_utf8 c ≡ w
    → w ≤ n
    → 0 < w
    → slice_to (c ∷ s) n ≡ and_then (slice_to s (n - w)) (λ t. some (c ∷ t))
unfolding slice_to
slice_past c zero w s e h positive = absurd (omega arith)
slice_past c (suc n) w s e h positive =
    let past : ltb (suc n) (len_utf8 c) ≡ false = rw e (ground arith) in
    let there : suc n - len_utf8 c ≡ suc n - w = rw e refl in
    elim (Option-cases (slice_to s (suc n - w))) [
      | inl bad ↦
          let inner = ap (slice_to s) there ∙ bad in turn_none c n s past inner ∙ sym (and_none bad)
      | inr (t, good) ↦
          let inner = ap (slice_to s) there ∙ good in
          turn_some c n s t past inner ∙ sym (and_some t good)
    ]
  where
    and_none : {o : Option Str} → o ≡ none → and_then o (λ t. some (c ∷ t)) ≡ none
    and_none h = rw h refl

    and_some :
        {o : Option Str} (t : Str) → o ≡ some t → and_then o (λ t. some (c ∷ t)) ≡ some (c ∷ t)
    and_some t h = rw h refl

slice_to-prefix : (pre post : Str) → slice_to (pre ++ post) (byte_len pre) ≡ some pre
unfolding byte_len slice_to
slice_to-prefix [] post = refl
slice_to-prefix (c ∷ pre) post =
    let n = len_utf8 c + byte_len pre in
    let behind : n - len_utf8 c ≡ byte_len pre = minus (len_utf8 c) (byte_len pre) in
    slice_past c n (len_utf8 c) (pre ++ post) refl (fits (len_utf8 c) (byte_len pre))
      (len_utf8-pos c)
    ∙ ap (λ o. and_then o (λ t. some (c ∷ t)))
        (ap (slice_to (pre ++ post)) behind ∙ slice_to-prefix pre post)
  where
    minus : (w k : ℕ) → w + k - w ≡ k
    minus w k = omega arith

    fits : (w k : ℕ) → w ≤ w + k
    fits w k = omega arith

slice_to-some :
    (s t : Str) (col : ℕ)
    → slice_to s col ≡ some t
    → (post : Str) × (s ≡ t ++ post) × (byte_len t ≡ col)
unfolding slice_to byte_len
slice_to-some s t zero h =
    let nothing : t ≡ [] = ground arith in (s, rw nothing refl, rw nothing refl)
slice_to-some [] t (suc col) h = absurd (cc)
slice_to-some (c ∷ s) t (suc col) h = elim (Bool-cases (ltb (suc col) (len_utf8 c))) [
  | inl inside ↦ absurd (none-ne-some t (sym (turn_inside c col s inside) ∙ h))
  | inr past ↦ elim (Option-cases (slice_to s (suc col - len_utf8 c))) [
    | inl bad ↦ absurd (none-ne-some t (sym (turn_none c col s past bad) ∙ h))
    | inr (u, good) ↦
        let (post, whole, at) = slice_to-some s u (suc col - len_utf8 c) good in
        let same : t ≡ c ∷ u = some_inj (sym h ∙ turn_some c col s u past good) in
        (
          post,
          rw same (ap (λ r. c ∷ r) whole),
          rw (same, byte_len) (behind (len_utf8 c) (byte_len u) col past at),
        )
  ]
]

-- The column is in the line, and no character ends there.
abbrev pub CutsCharacter : Str → ℕ → Type 0
CutsCharacter s col = (col ≤ byte_len s) × ((pre post : Str) → s ≡ pre ++ post → byte_len pre ≢ col)

-- The line is cut inside a character, or cut well and then cut in its last white space.
abbrev pub Cut : Str → ℕ → Type 0
Cut s col =
    CutsCharacter s col
    ⊎ ((pre : Str) × (post : Str) × (s ≡ pre ++ post) × (byte_len pre ≡ col) × CutsSpace pre)

cuts : (s : Str) (col : ℕ) → context_in_line s col ≡ panics → Cut s col
cuts s col h = elim (Option-cases (slice_to s col)) [
  | inl bad ↦ inl (
      (
        ground arith,
        λ pre post whole at.
            let good : slice_to s col ≡ some pre = rw (whole, ← at) (slice_to-prefix pre post) in
            absurd (ground arith),
      ))
  | inr (pre, good) ↦
      let (post, whole, at) = slice_to-some s pre col good in
      inr (pre, post, whole, at, (context_before_cursor-panics_iff pre).0 (ground arith))
]

within : (pre post : Str) → byte_len pre ≤ byte_len (pre ++ post)
within pre post = rw (byte_len-append pre post) (omega arith)

cuts-panics : (s : Str) (col : ℕ) → Cut s col → context_in_line s col ≡ panics
cuts-panics s col (inl (inside, whole_characters)) = elim (Option-cases (slice_to s col)) [
  | inl bad ↦ ground arith
  | inr (t, good) ↦
      let (post, whole, at) = slice_to-some s t col good in
      absurd (whole_characters t post whole at)
]
cuts-panics s col (inr (pre, post, whole, at, space)) =
    let good : slice_to s col ≡ some pre = rw (whole, ← at) (slice_to-prefix pre post) in
    let inside : col ≤ byte_len s = rw (whole, ← at) (within pre post) in
    let panicked = (context_before_cursor-panics_iff pre).1 space in ground arith

-- The context of a completion panics exactly when the line exists and either the column is within
-- its bytes and no character ends there, or the text up to the column ends in an open tag, that
-- does not begin with a slash and has an even number of each kind of quote, whose last white space
-- takes several bytes.
pub get_directive_completion_context_with_tag-panics :
    (lines : Str → List Str) (source : Str) (line col : ℕ)
    → (get_directive_completion_context_with_tag lines source line col ≡ panics)
      ↔ ((s : Str) × (get_elem? (lines source) line ≡ some s) × Cut s col)
unfolding get_directive_completion_context_with_tag
get_directive_completion_context_with_tag-panics lines source line col = (
  λ h. elim (Option-cases (get_elem? (lines source) line)) [
    | inl absent ↦ absurd (ground arith)
    | inr (s, found) ↦ (s, found, cuts s col (ground arith))
  ],
  λ (s, found, cut). ground (arith, cuts-panics s col cut),
)
