-- ===== src/Text/Decimal.antt =====
-- `usize` in decimal: `format!("{}", n)`, and `parse`, with `usize` of 64 bits.
use angularjs_lsp.Prelude.{
  ℕ, zero, suc, ◌+◌, ◌-◌, ◌*◌, ◌/◌, ◌%◌, ◌^◌, ◌≤◌, ◌<◌, ◌≡◌, refl, ◌∙◌, Bool, true, false, not,
  ◌&&◌, Option, none, some, [], ◌∷◌, arith, ◌==◌, nat_eq, ltb, leb, all, is_empty, if◌then◌else◌,
  Bool-cases, ltb→lt, inl, inr,
}
use angularjs_lsp.Text.{Str}

abbrev pub usize_max : ℕ
usize_max = 2 ^ 64 - 1

-- the digits before `out`; `fuel` bounds their number
unfoldable pub digits_from : ℕ → ℕ → Str → Str
digits_from zero n out = out
digits_from (suc fuel) n out =
    let rest = digits_from fuel (n / 10) ((b'0' + n % 10) ∷ out) in
    if ltb n 10 then (b'0' + n) ∷ out else rest

-- a number has fewer digits than it counts, and one more for zero
unfoldable pub decimal : ℕ → Str
unfolding digits_from
decimal n = digits_from (suc n) n []

abbrev pub is_digit : ℕ → Bool
is_digit c = leb b'0' c && leb c b'9'

-- the loop of `parse`: none for another character, or past the largest number
unfoldable pub parse_from : ℕ → Str → Option ℕ
parse_from n [] = some n
parse_from n (c ∷ s) =
    let m = n * 10 + (c - b'0') in
    let rest = parse_from m s in if is_digit c && leb m usize_max then rest else none

-- a sign "+" before the digits is allowed
unfoldable pub parse_usize : Str → Option ℕ
unfolding parse_from
parse_usize [] = none
parse_usize (c ∷ s) =
    if c == b'+' then if is_empty s then none else parse_from 0 s else parse_from 0 (c ∷ s)

parse_digit :
    (m d n : ℕ) (out : Str)
    → d < 10
    → n ≡ m * 10 + d
    → n ≤ usize_max
    → parse_from m ((b'0' + d) ∷ out) ≡ parse_from n out
unfolding parse_from
parse_digit m d n out small e fits =
    let same : m * 10 + (b'0' + d - b'0') ≡ n = omega arith in ground arith

parse-digits_from :
    (fuel n : ℕ) (out : Str)
    → n < fuel
    → n ≤ usize_max
    → parse_from 0 (digits_from fuel n out) ≡ parse_from n out
unfolding digits_from parse_from
parse-digits_from zero n out h fits = absurd (omega arith)
parse-digits_from (suc fuel) n out h fits = elim (Bool-cases (ltb n 10)) [
  | inl small ↦ rw small (parse_digit 0 n n out (ltb→lt n 10 small) (omega arith) fits)
  | inr large ↦ rw large (
      parse-digits_from fuel (n / 10) ((b'0' + n % 10) ∷ out) (ground arith) (omega arith)
      ∙ parse_digit (n / 10) (n % 10) n out (omega arith) (omega arith) fits)
]

-- the characters of a number
all-digits_from :
    (p : ℕ → Bool) (fuel n : ℕ) (out : Str)
    → ((d : ℕ) → d < 10 → p (b'0' + d) ≡ true)
    → all p out ≡ true
    → all p (digits_from fuel n out) ≡ true
unfolding digits_from
all-digits_from p zero n out digit h = h
all-digits_from p (suc fuel) n out digit h = elim (Bool-cases (ltb n 10)) [
  | inl small ↦ rw small (ground (arith, digit n (ltb→lt n 10 small)))
  | inr large ↦ rw large (
      all-digits_from p fuel (n / 10) ((b'0' + n % 10) ∷ out) digit
        (ground (arith, digit (n % 10) (omega arith))))
]

pub all-decimal :
    (p : ℕ → Bool) (n : ℕ) → ((d : ℕ) → d < 10 → p (b'0' + d) ≡ true) → all p (decimal n) ≡ true
unfolding decimal
all-decimal p n digit = all-digits_from p (suc n) n [] digit refl

digits_from-filled :
    (fuel n : ℕ) (out : Str) → is_empty out ≡ false → is_empty (digits_from fuel n out) ≡ false
unfolding digits_from
digits_from-filled zero n out h = h
digits_from-filled (suc fuel) n out h = elim (Bool-cases (ltb n 10)) [
  | inl small ↦ rw small refl
  | inr large ↦ rw large (digits_from-filled fuel (n / 10) ((b'0' + n % 10) ∷ out) refl)
]

pub decimal-filled : (n : ℕ) → is_empty (decimal n) ≡ false
unfolding decimal digits_from
decimal-filled n = elim (Bool-cases (ltb n 10)) [
  | inl small ↦ rw small refl
  | inr large ↦ rw large (digits_from-filled n (n / 10) ((b'0' + n % 10) ∷ []) refl)
]

parse_unsigned :
    (s : Str)
    → is_empty s ≡ false
    → all (λ c. not (c == b'+')) s ≡ true
    → parse_usize s ≡ parse_from 0 s
unfolding parse_usize
parse_unsigned [] h k = absurd (cc)
parse_unsigned (c ∷ s) h k = ground arith

-- A number is read back from its decimal form.
pub parse_usize-decimal : (n : ℕ) → n ≤ usize_max → parse_usize (decimal n) ≡ some n
unfolding decimal parse_from
parse_usize-decimal n fits =
    parse_unsigned (decimal n) (decimal-filled n)
      (all-decimal (λ c. not (c == b'+')) n (λ d small. ground arith))
    ∙ parse-digits_from (suc n) n [] (omega arith) fits
