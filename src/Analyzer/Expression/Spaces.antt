-- ===== src/Analyzer/Expression/Spaces.antt =====
-- Where the cut of a tag behind its last white space panics.
use angularjs_lsp.Prelude.{
  ℕ, ◌%◌, ◌≤◌, ◌≡◌, refl, ap, ◌∙◌, ◌↔◌, inl, inr, Bool, true, false, none, some, [], ◌∷◌, ◌++◌,
  arith, ==_refl, nat_eq, nat_beq, any, Bool-cases, Option-cases, panics,
}
use angularjs_lsp.Text.{
  Str, codes, has_char, starts_with, after_last, after_last-append, after_last-clean,
}
use angularjs_lsp.Text.Trim.{is_whitespace}
use angularjs_lsp.Text.Widths.{len_utf8}
use angularjs_lsp.Analyzer.Expression.{last_of, count, context_in_tag, context_before_cursor}

-- The text ends in a tag that is open, with its quotes closed, and the last white space of the tag is
-- a character of several bytes.
abbrev pub CutsSpace : Str → Type 0
CutsSpace s =
    (before : Str) × (word : Str) × (c : ℕ) × (behind : Str) × (s
      ≡ before ++ b'<' ∷ (word ++ c ∷ behind))
    × (has_char b'<' (word ++ c ∷ behind) ≡ false)
    × (has_char b'>' (word ++ c ∷ behind) ≡ false)
    × (starts_with (word ++ c ∷ behind) (codes "/") ≡ false)
    × (nat_beq (count 34 (word ++ c ∷ behind) % 2) 1 ≡ false)
    × (nat_beq (count 39 (word ++ c ∷ behind) % 2) 1 ≡ false)
    × (is_whitespace c ≡ true)
    × (any is_whitespace behind ≡ false)
    × (128 ≤ c)

last_of-none : (p : ℕ → Bool) (s : Str) → any p s ≡ false → last_of p s ≡ none
unfolding last_of
last_of-none p [] h = refl
last_of-none p (c ∷ s) h = ground (arith, last_of-none p s)

last_of-there :
    (p : ℕ → Bool) (a : Str) (c : ℕ) (b : Str)
    → p c ≡ true
    → any p b ≡ false
    → last_of p (a ++ c ∷ b) ≡ some (c, b)
unfolding last_of
last_of-there p [] c b h none_behind = ground (arith, last_of-none p b none_behind)
last_of-there p (d ∷ a) c b h none_behind = ground (arith, last_of-there p a c b h none_behind)

none_of : (p : ℕ → Bool) (s : Str) → last_of p s ≡ none → any p s ≡ false
unfolding last_of
none_of p [] h = refl
none_of p (c ∷ s) h = elim (Option-cases (last_of p s)) [
  | inl absent ↦ ground (arith, none_of p s absent)
  | inr (r, found) ↦ absurd (ground arith)
]

last_of-some :
    (p : ℕ → Bool) (s : Str) (c : ℕ) (b : Str)
    → last_of p s ≡ some (c, b)
    → (a : Str) × (s ≡ a ++ c ∷ b) × (p c ≡ true) × (any p b ≡ false)
unfolding last_of
last_of-some p [] c b h = absurd (ground arith)
last_of-some p (d ∷ s) c b h = elim (Option-cases (last_of p s)) [
  | inl absent ↦
      let passes : p d ≡ true = ground arith in
      let same : d ≡ c = ground arith in
      let rest : s ≡ b = ground arith in
      ([], rw (same, rest) refl, rw (← same) passes, rw (← rest) (none_of p s absent))
  | inr (r, found) ↦
      let (a, e, q, n) = last_of-some p s c b (found ∙ ground arith) in
      (d ∷ a, ap (λ t. d ∷ t) e, q, n)
]

wide : (c : ℕ) → (nat_beq (len_utf8 c) 1 ≡ false) ↔ (128 ≤ c)
wide c = (λ h. ground arith, λ h. ground arith)

after_last-split :
    (d : ℕ) (s : Str) → has_char d s ≡ true → (t : Str) × (s ≡ t ++ d ∷ after_last d s)
unfolding after_last has_char
after_last-split d [] h = absurd (cc)
after_last-split d (c ∷ s) h = elim (Bool-cases (has_char d s)) [
  | inl later ↦ let (t, e) = after_last-split d s later in (c ∷ t, rw later (ap (λ r. c ∷ r) e))
  | inr last ↦ let here : c ≡ d = ground arith in ([], rw (last, here) (ground arith))
]

tag_panics :
    (tag : Str)
    → context_in_tag tag ≡ panics
    → (word : Str) × (c : ℕ) × (behind : Str) × (tag ≡ word ++ c ∷ behind)
      × (is_whitespace c ≡ true)
      × (any is_whitespace behind ≡ false)
      × (128 ≤ c)
tag_panics tag h = elim (Option-cases (last_of is_whitespace tag)) [
  | inl absent ↦ absurd (ground arith)
  | inr ((c, behind), found) ↦
      let (word, e, space, solid) = last_of-some is_whitespace tag c behind found in
      (word, c, behind, e, space, solid, (wide c).0 (ground arith))
]

cut_of_panics : (s : Str) → context_before_cursor s ≡ panics → CutsSpace s
cut_of_panics s h =
    let tag = after_last b'<' s in
    let opened : has_char b'<' s ≡ true = ground arith in
    let unclosed : has_char b'>' tag ≡ false = ground arith in
    let inside : context_in_tag tag ≡ panics = ground arith in
    let starts : starts_with tag (codes "/") ≡ false = ground arith in
    let double : nat_beq (count 34 tag % 2) 1 ≡ false = ground arith in
    let single : nat_beq (count 39 tag % 2) 1 ≡ false = ground arith in
    let (before, e) = after_last-split b'<' s opened in
    let (word, c, behind, same, space, solid, large) = tag_panics tag inside in
    (
      before,
      word,
      c,
      behind,
      e ∙ ap (λ t. before ++ b'<' ∷ t) same,
      rw (← same) (after_last-clean b'<' s),
      rw (← same) unclosed,
      rw (← same) starts,
      rw (← same) double,
      rw (← same) single,
      space,
      solid,
      large,
    )

has_char-there : (d : ℕ) (s t : Str) → has_char d (s ++ d ∷ t) ≡ true
unfolding has_char
has_char-there d [] t = ground (arith, ==_refl d)
has_char-there d (c ∷ s) t = ground (arith, has_char-there d s t)

panics_of_cut : (s : Str) → CutsSpace s → context_before_cursor s ≡ panics
panics_of_cut s
      (before, word, c, behind, e, inner, unclosed, starts, double, single, space, solid, large) =
    let tag = word ++ c ∷ behind in
    let found = last_of-there is_whitespace word c behind space solid in
    let broad = (wide c).1 large in
    let opened = has_char-there b'<' before tag in
    let last = after_last-append b'<' before tag inner in
    let inside : context_in_tag tag ≡ panics = ground arith in rw e (ground arith)

-- The text up to a cursor panics exactly where the last white space of its open tag is cut.
pub context_before_cursor-panics_iff : (s : Str) → (context_before_cursor s ≡ panics) ↔ CutsSpace s
context_before_cursor-panics_iff s = (cut_of_panics s, panics_of_cut s)
