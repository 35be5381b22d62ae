-- ===== src/Text/Splits.antt =====
-- Texts that are split at a character, and joined by it.
use angularjs_lsp.Prelude.{
  In, ==_refl, ℕ, ◌≡◌, ◌≢◌, ◌↔◌, refl, ◌∙◌, true, false, Option, none, some, List, [], ◌∷◌, ◌++◌,
  arith, nat_eq, ◌==◌, ==_sound, Bool-cases, inl, inr, sym, ap,
}
use angularjs_lsp.Text.{
  Str, has_char, before_first, after_last, split, join, cons_first, before_first_of_clean,
  before_last, has_char-append, after_last-append, has_text, starts_with, starts_with-split,
  starts_with-append,
}

-- A query behind a path, or none.
abbrev pub with_query : Str → Option Str → Str
with_query s none = s
with_query s (some q) = s ++ b'?' ∷ q

pub before_first-with_query :
    (s : Str) (q : Option Str) → has_char b'?' s ≡ false → before_first b'?' (with_query s q) ≡ s
unfolding before_first has_char
before_first-with_query s none h = before_first_of_clean b'?' s h
before_first-with_query [] (some q) h = refl
before_first-with_query (c ∷ s) (some q) h = ground (arith, before_first-with_query s (some q))

pub split_of_clean : (d : ℕ) (s : Str) → has_char d s ≡ false → split d s ≡ s ∷ []
unfolding split has_char
split_of_clean d [] h = refl
split_of_clean d (c ∷ s) h = ground (arith, split_of_clean d s)

cons_first-append :
    (c : ℕ) (ws vs : List Str) → ws ≢ [] → cons_first c (ws ++ vs) ≡ cons_first c ws ++ vs
unfolding cons_first
cons_first-append c [] vs h = absurd (h refl)
cons_first-append c (w ∷ ws) vs h = refl

cons_first-ne-nil : (c : ℕ) (ws : List Str) → cons_first c ws ≢ []
unfolding cons_first
cons_first-ne-nil c [] h = cc
cons_first-ne-nil c (w ∷ ws) h = cc

split-ne-nil : (d : ℕ) (s : Str) → split d s ≢ []
unfolding split
split-ne-nil d [] h = cc
split-ne-nil d (c ∷ s) h = ground (arith, cons_first-ne-nil c (split d s))

pub split-append : (d : ℕ) (s t : Str) → split d (s ++ d ∷ t) ≡ split d s ++ split d t
unfolding split
split-append d [] t = ground arith
split-append d (c ∷ s) t =
    ground
      (arith, split-append d s t, cons_first-append c (split d s) (split d t) (split-ne-nil d s))

-- Only what stands behind the last `d` counts.
pub after_last-append_right :
    (d : ℕ) (s t : Str) → has_char d t ≡ true → after_last d (s ++ t) ≡ after_last d t
unfolding after_last
after_last-append_right d [] t h = refl
after_last-append_right d (c ∷ s) t h =
    ground (arith, after_last-append_right d s t, has_char-append d s t)

-- The text after the last separator of joined parts is the last part.
pub after_last-join :
    (d : ℕ) (ws : List Str) (w : Str)
    → has_char d w ≡ false
    → after_last d (d ∷ join d (ws ++ w ∷ [])) ≡ w
unfolding join
after_last-join d [] w h = after_last-append d [] w h
after_last-join d (v ∷ []) w h = after_last-append d (d ∷ v) w h
after_last-join d (v ∷ u ∷ us) w h =
    after_last-append_right d (d ∷ v) (d ∷ join d (u ∷ us ++ w ∷ []))
      (unfold has_char in ground arith)
    ∙ after_last-join d (u ∷ us) w h

join-empty_first : (d : ℕ) (ws : List Str) → ws ≢ [] → join d ([] ∷ ws) ≡ d ∷ join d ws
unfolding join
join-empty_first d [] h = absurd (h refl)
join-empty_first d (w ∷ ws) h = refl

join-cons_first : (d c : ℕ) (ws : List Str) → ws ≢ [] → join d (cons_first c ws) ≡ c ∷ join d ws
unfolding join cons_first
join-cons_first d c [] h = absurd (h refl)
join-cons_first d c (w ∷ []) h = refl
join-cons_first d c (w ∷ v ∷ ws) h = refl

-- The parts of a text, joined again, are the text.
pub join-split : (d : ℕ) (s : Str) → join d (split d s) ≡ s
unfolding split join cons_first
join-split d [] = refl
join-split d (c ∷ s) = elim (Bool-cases (c == d)) [
  | inl here ↦ rw here (
      join-empty_first d (split d s) (split-ne-nil d s)
      ∙ (ap (λ t. d ∷ t) (join-split d s) ∙ ap (λ x. x ∷ s) (sym (==_sound c d here))))
  | inr more ↦
      rw more
        (join-cons_first d c (split d s) (split-ne-nil d s) ∙ ap (λ t. c ∷ t) (join-split d s))
]

held : (s p : Str) → has_text s p ≡ true → (pre : Str) × (post : Str) × (s ≡ pre ++ (p ++ post))
unfolding has_text
held [] [] h = ([], [], refl)
held [] (d ∷ p) h = absurd (cc)
held (c ∷ s) p h = elim (Bool-cases (starts_with (c ∷ s) p)) [
  | inl here ↦ let (q, e) = starts_with-split (c ∷ s) p here in ([], q, e)
  | inr later ↦ let (pre, post, e) = held s p (ground arith) in (c ∷ pre, post, ap (λ t. c ∷ t) e)
]

has_text-there : (pre p post : Str) → has_text (pre ++ (p ++ post)) p ≡ true
unfolding has_text
has_text-there [] [] [] = refl
has_text-there [] [] (c ∷ post) = ground (arith, starts_with-append [] (c ∷ post))
has_text-there [] (d ∷ p) post = ground (arith, starts_with-append (d ∷ p) post)
has_text-there (c ∷ pre) p post = ground (arith, has_text-there pre p post)

-- A text holds another exactly where it is that text between two others.
pub has_text_iff :
    (s p : Str) → (has_text s p ≡ true) ↔ ((pre : Str) × (post : Str) × (s ≡ pre ++ (p ++ post)))
has_text_iff s p = (held s p, λ (pre, post, e). rw e (has_text-there pre p post))

cons_first-clean :
    (d c : ℕ) (ws : List Str) (w : Str)
    → (c == d) ≡ false
    → ((v : Str) → In v ws → has_char d v ≡ false)
    → In w (cons_first c ws)
    → has_char d w ≡ false
unfolding cons_first has_char
cons_first-clean d c [] w ne h (inl e) = rw e (ground arith)
cons_first-clean d c [] w ne h (inr i) = absurd i
cons_first-clean d c (v ∷ ws) w ne h (inl e) = rw e (ground (arith, h v (inl refl)))
cons_first-clean d c (v ∷ ws) w ne h (inr i) = h w (inr i)

-- The parts of a text hold no separator.
pub split-clean : (d : ℕ) (s w : Str) → In w (split d s) → has_char d w ≡ false
unfolding split has_char
split-clean d [] w (inl e) = rw e refl
split-clean d [] w (inr i) = absurd i
split-clean d (c ∷ s) w i = elim (Bool-cases (c == d)) [
  | inl here ↦ elim (rw here at i) [ inl e ↦ rw e refl | inr j ↦ split-clean d s w j ]
  | inr there ↦
      cons_first-clean d c (split d s) w there (λ v j. split-clean d s v j) (rw there at i)
]

before_last-clean : (d : ℕ) (s : Str) → has_char d s ≡ false → before_last d s ≡ none
unfolding before_last has_char
before_last-clean d [] h = refl
before_last-clean d (c ∷ s) h = rw (before_last-clean d s (ground arith)) (ground arith)

-- What stands before the last separator, and behind it.
pub before_last-append :
    (d : ℕ) (s t : Str) → has_char d t ≡ false → before_last d (s ++ d ∷ t) ≡ some s
unfolding before_last has_char
before_last-append d [] t h = rw (before_last-clean d t h) (ground (arith, ==_refl d))
before_last-append d (c ∷ s) t h = rw (before_last-append d s t h) refl
