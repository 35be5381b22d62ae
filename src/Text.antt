-- ===== src/Text.antt =====
-- Texts as lists of code points, with the methods of Rust's `str` that the program calls. The
-- program cuts texts at the positions that a search returns; here a search returns the parts.
pub mod Splits
pub mod Widths
pub mod Trim
pub mod Decimal
use Prim.Native.Char.{code}
use angularjs_lsp.Prelude.{
  ℕ, String, ◌≡◌, refl, ap, inl, inr, Bool, true, false, ◌||◌, ◌&&◌, Option, none, some, List, [],
  ◌∷◌, ◌++◌, arith, ◌==◌, nat_eq, list_eq, list_beq, list_beq_iff, if◌then◌else◌, Bool-cases,
  Option-cases, is_empty,
}

abbrev pub Str : Type 0
Str = List ℕ

abbrev pub codes : String → Str
codes String.[] = []
codes (String.◌∷◌ c s) = code c ∷ codes s

-- `s.starts_with(p)`
unfoldable pub starts_with : Str → Str → Bool
starts_with s [] = true
starts_with [] (p ∷ ps) = false
starts_with (c ∷ s) (p ∷ ps) = c == p && starts_with s ps

-- `s.ends_with(p)`
unfoldable pub ends_with : Str → Str → Bool
unfolding list_beq
ends_with [] p = is_empty p
ends_with (c ∷ s) p = list_beq (c ∷ s) p || ends_with s p

-- `s.split(d).next()`: the text before the first `d`, or the whole text
unfoldable pub before_first : ℕ → Str → Str
before_first d [] = []
before_first d (c ∷ s) = let rest = before_first d s in if c == d then [] else c ∷ rest

-- `s.contains(d)`
unfoldable pub has_char : ℕ → Str → Bool
has_char d [] = false
has_char d (c ∷ s) = c == d || has_char d s

-- `s.rsplit(d).next()`: the text after the last `d`, or the whole text
unfoldable pub after_last : ℕ → Str → Str
unfolding has_char
after_last d [] = []
after_last d (c ∷ s) =
    let rest = after_last d s in if has_char d s then rest else if c == d then s else c ∷ s

-- `s.rfind(d)`, and `&s[..idx]`
unfoldable pub before_last : ℕ → Str → Option Str
unfolding has_char
before_last d [] = none
before_last d (c ∷ s) = elim (before_last d s) [
  | some t ↦ some (c ∷ t)
  | none ↦ if c == d then some [] else none
]

cons_first : ℕ → List Str → List Str
cons_first c [] = (c ∷ []) ∷ []
cons_first c (w ∷ ws) = (c ∷ w) ∷ ws

-- `s.split(d)`
unfoldable pub split : ℕ → Str → List Str
unfolding cons_first
split d [] = [] ∷ []
split d (c ∷ s) = let rest = split d s in if c == d then [] ∷ rest else cons_first c rest

abbrev drop_prefix : Str → Str → Str
drop_prefix [] s = s
drop_prefix (p ∷ ps) [] = []
drop_prefix (p ∷ ps) (c ∷ s) = drop_prefix ps s

-- `s.find(p)`, `&s[..idx]` and `&s[idx + p.len()..]`; also `s.split_once(p)`
unfoldable pub split_once : Str → Str → Option (Str × Str)
unfolding starts_with
split_once [] p = if is_empty p then some ([], []) else none
split_once (c ∷ s) p =
    let later = split_once s p in
    if starts_with (c ∷ s) p
    then some ([], drop_prefix p (c ∷ s))
    else elim later [ none ↦ none | some (a, b) ↦ some (c ∷ a, b) ]

-- `s.contains(p)`
unfoldable pub has_text : Str → Str → Bool
unfolding starts_with
has_text [] p = is_empty p
has_text (c ∷ s) p = starts_with (c ∷ s) p || has_text s p

-- `parts.join(d)`, for a separator of one character
unfoldable pub join : ℕ → List Str → Str
join d [] = []
join d (w ∷ []) = w
join d (w ∷ v ∷ ws) = w ++ d ∷ join d (v ∷ ws)

pub starts_with-append : (p s : Str) → starts_with (p ++ s) p ≡ true
unfolding starts_with
starts_with-append [] s = refl
starts_with-append (c ∷ p) s = ground (arith, starts_with-append p s)

pub ends_with-append : (s p : Str) → ends_with (s ++ p) p ≡ true
unfolding ends_with
ends_with-append [] [] = refl
ends_with-append [] (c ∷ p) = ground (arith, list_beq_iff (c ∷ p) (c ∷ p))
ends_with-append (c ∷ s) p = ground (arith, ends_with-append s p)

-- A text ends with `p` only as some text followed by `p`.
pub ends_with-split : (s p : Str) → ends_with s p ≡ true → (q : Str) × (s ≡ q ++ p)
unfolding ends_with
ends_with-split [] [] h = ([], refl)
ends_with-split [] (c ∷ p) h = absurd (cc)
ends_with-split (c ∷ s) p h = elim (Bool-cases (list_beq (c ∷ s) p)) [
  | inl whole ↦ ([], (list_beq_iff (c ∷ s) p).0 whole)
  | inr part ↦ let (q, e) = ends_with-split s p (rw part at h) in (c ∷ q, ap (◌∷◌ c) e)
]

pub before_first-clean : (d : ℕ) (s : Str) → has_char d (before_first d s) ≡ false
unfolding before_first has_char
before_first-clean d [] = refl
before_first-clean d (c ∷ s) = ground (arith, before_first-clean d s)

pub before_first_of_clean : (d : ℕ) (s : Str) → has_char d s ≡ false → before_first d s ≡ s
unfolding before_first has_char
before_first_of_clean d [] h = refl
before_first_of_clean d (c ∷ s) h = ground (arith, before_first_of_clean d s)

pub after_last-clean : (d : ℕ) (s : Str) → has_char d (after_last d s) ≡ false
unfolding after_last
after_last-clean d [] = refl
after_last-clean d (c ∷ s) = ground (arith, after_last-clean d s)

pub after_last_of_clean : (d : ℕ) (s : Str) → has_char d s ≡ false → after_last d s ≡ s
unfolding after_last
after_last_of_clean d [] h = refl
after_last_of_clean d (c ∷ s) h = ground arith

pub has_char-append : (d : ℕ) (s t : Str) → has_char d (s ++ t) ≡ (has_char d s || has_char d t)
unfolding has_char
has_char-append d [] t = refl
has_char-append d (c ∷ s) t = ground (arith, has_char-append d s t)

-- After `d`, and a text without it, only that text is left.
pub after_last-append : (d : ℕ) (s t : Str) → has_char d t ≡ false → after_last d (s ++ d ∷ t) ≡ t
unfolding after_last
after_last-append d [] t h = ground arith
after_last-append d (c ∷ s) t h =
    ground (arith, after_last-append d s t h, has_char-append d s (d ∷ t))

starts_with-drop : (s p : Str) → starts_with s p ≡ true → s ≡ p ++ drop_prefix p s
unfolding starts_with
starts_with-drop s [] h = refl
starts_with-drop [] (c ∷ p) h = absurd (cc)
starts_with-drop (c ∷ s) (d ∷ p) h = ground (arith, starts_with-drop s p)

-- A text begins with `p` only as `p` followed by some text.
pub starts_with-split : (s p : Str) → starts_with s p ≡ true → (q : Str) × (s ≡ p ++ q)
starts_with-split s p h = (drop_prefix p s, starts_with-drop s p h)

-- The parts that a search returns rebuild the text.
pub split_once-rebuild : (s p a b : Str) → split_once s p ≡ some (a, b) → s ≡ a ++ (p ++ b)
unfolding split_once
split_once-rebuild [] [] a b h = ground arith
split_once-rebuild [] (c ∷ p) a b h = absurd (cc)
split_once-rebuild (c ∷ s) p a b h = elim (Bool-cases (starts_with (c ∷ s) p)) [
  | inl here ↦ ground (arith, starts_with-drop (c ∷ s) p here)
  | inr later ↦ elim (Option-cases (split_once s p)) [
    | inl miss ↦ absurd (ground arith)
    | inr ((x, y), hit) ↦ ground (arith, split_once-rebuild s p x y hit)
  ]
]
