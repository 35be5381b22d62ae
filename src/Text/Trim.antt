-- ===== src/Text/Trim.antt =====
-- `trim`: white space is the Unicode property.
use angularjs_lsp.Prelude.{
  ℕ, ◌≡◌, refl, ap, Bool, true, false, not, ◌&&◌, ◌||◌, [], ◌∷◌, ◌++◌, arith, ◌==◌, nat_eq, leb,
  all, is_empty, if◌then◌else◌, Bool-cases, inl, inr,
}
use angularjs_lsp.Text.{Str}

-- `char::is_whitespace`
unfoldable pub is_whitespace : ℕ → Bool
is_whitespace c =
    (leb 0x9 c && leb c 0xd)
    || c == 0x20
    || c == 0x85
    || c == 0xa0
    || c == 0x1680
    || (leb 0x2000 c && leb c 0x200a)
    || c == 0x2028
    || c == 0x2029
    || c == 0x202f
    || c == 0x205f
    || c == 0x3000

unfoldable pub trim_start : Str → Str
trim_start [] = []
trim_start (c ∷ s) = let rest = trim_start s in if is_whitespace c then rest else c ∷ s

unfoldable pub trim_end : Str → Str
trim_end [] = []
trim_end (c ∷ s) =
    let rest = trim_end s in if is_empty rest && is_whitespace c then [] else c ∷ rest

abbrev pub trim : Str → Str
trim s = trim_end (trim_start s)

-- text with no white space in it
abbrev pub is_solid : Str → Bool
is_solid s = all (λ c. not (is_whitespace c)) s

pub trim_end_of_solid : (s : Str) → is_solid s ≡ true → trim_end s ≡ s
unfolding trim_end
trim_end_of_solid [] h = refl
trim_end_of_solid (c ∷ s) h = ground (arith, trim_end_of_solid s)

-- White space behind a text is trimmed with it.
pub trim_end-append_blank : (s w : Str) → trim_end w ≡ [] → trim_end (s ++ w) ≡ trim_end s
unfolding trim_end
trim_end-append_blank [] w h = h
trim_end-append_blank (c ∷ s) w h = rw (trim_end-append_blank s w h) refl

filled-append : (a s : Str) → is_empty s ≡ false → is_empty (a ++ s) ≡ false
filled-append [] s h = h
filled-append (c ∷ a) s h = refl

-- What stands before a text that trims to more than nothing stays.
pub trim_end-append :
    (a s : Str) → is_empty (trim_end s) ≡ false → trim_end (a ++ s) ≡ a ++ trim_end s
unfolding trim_end
trim_end-append [] s h = refl
trim_end-append (c ∷ a) s h = rw (trim_end-append a s h, filled-append a (trim_end s) h) refl

pub trim_start_of_solid : (s : Str) → is_solid s ≡ true → trim_start s ≡ s
unfolding trim_start
trim_start_of_solid [] h = refl
trim_start_of_solid (c ∷ s) h = ground arith

-- What is trimmed stands at the ends.
pub trim_start-split : (s : Str) → (w : Str) × (s ≡ w ++ trim_start s)
unfolding trim_start
trim_start-split [] = ([], refl)
trim_start-split (c ∷ s) = elim (Bool-cases (is_whitespace c)) [
  | inl blank ↦ let (w, e) = trim_start-split s in (c ∷ w, rw blank (ap (λ t. c ∷ t) e))
  | inr solid ↦ ([], rw solid refl)
]

pub trim_end-split : (s : Str) → (w : Str) × (s ≡ trim_end s ++ w)
unfolding trim_end
trim_end-split [] = ([], refl)
trim_end-split (c ∷ s) = elim (Bool-cases (is_empty (trim_end s) && is_whitespace c)) [
  | inl blank ↦ (c ∷ s, rw blank refl)
  | inr solid ↦ let (w, e) = trim_end-split s in (w, rw solid (ap (λ t. c ∷ t) e))
]
