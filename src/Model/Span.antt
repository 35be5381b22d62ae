-- ===== src/Model/Span.antt =====
-- src/model/span.rs: positions are `u32`, and the arithmetic of a release build wraps.
use angularjs_lsp.Prelude.{
  ℕ, ◌+◌, ◌-◌, ◌*◌, ◌%◌, ◌^◌, ◌≤◌, ◌<◌, ◌≡◌, ◌↔◌, ◌⊎◌, Bool, true, false, ◌&&◌, ◌||◌, arith, leb,
  ltb, nat_beq, if◌then◌else◌,
}

abbrev pub u32_mod : ℕ
u32_mod = 2 ^ 32

abbrev pub add32 : ℕ → ℕ → ℕ
add32 a b = (a + b) % u32_mod

abbrev pub sub32 : ℕ → ℕ → ℕ
sub32 a b = (a + u32_mod - b) % u32_mod

abbrev mul32 : ℕ → ℕ → ℕ
mul32 a b = (a * b) % u32_mod

pub record Span : Type 0 where
  pub start_line : ℕ
  pub start_col : ℕ
  pub end_line : ℕ
  pub end_col : ℕ

unfoldable pub new : ℕ → ℕ → ℕ → ℕ → Span
new sl sc el ec = record { start_line = sl; start_col = sc; end_line = el; end_col = ec }

unfoldable pub contains : Span → ℕ → ℕ → Bool
contains s line col =
    if ltb line s.start_line || ltb s.end_line line
    then false
    else if nat_beq line s.start_line && ltb col s.start_col
    then false
    else if nat_beq line s.end_line && ltb s.end_col col
    then false
    else true

unfoldable pub contains_line : Span → ℕ → Bool
contains_line s line = leb s.start_line line && leb line s.end_line

unfoldable pub range_size : Span → ℕ
range_size s =
    let line_diff = sub32 s.end_line s.start_line in
    let col_diff =
      if nat_beq line_diff 0
      then sub32 s.end_col s.start_col
      else add32 s.end_col (sub32 10000 s.start_col) in
    add32 (mul32 line_diff 10000) col_diff

-- (line, col) is not after (line', col').
abbrev pub NotAfter : ℕ → ℕ → ℕ → ℕ → Type 0
NotAfter line col line' col' = (line < line') ⊎ ((line ≡ line') × (col ≤ col'))

-- A span contains a position exactly when the position is not before its start and not after its
-- end, in the order of the text.
pub contains_iff :
    (s : Span) (line col : ℕ)
    → (contains s line col ≡ true)
      ↔ (NotAfter s.start_line s.start_col line col × NotAfter line col s.end_line s.end_col)
unfolding contains
contains_iff s line col = ground arith

-- What a parser reports: the end is not before the start, and the numbers are small enough that
-- the size of the span can be read off without a wrap.
pub record IsMeasurable (s : Span) : Type 0 where
  pub ordered : NotAfter s.start_line s.start_col s.end_line s.end_col
  pub start_fits : s.start_col ≤ 10000
  pub end_fits : s.end_col ≤ 10000
  pub lines_fit : s.end_line < 400000

-- The size in plain arithmetic.
abbrev plain_size : Span → ℕ
plain_size s =
    if nat_beq s.end_line s.start_line
    then s.end_col - s.start_col
    else (s.end_line - s.start_line) * 10000 + (s.end_col + (10000 - s.start_col))

pub range_size-plain : (s : Span) → IsMeasurable s → range_size s ≡ plain_size s
unfolding range_size
range_size-plain s h = ground arith

-- A span that lies within another one has at most its size, as long as the spans are ordered, no
-- column passes 10000 and the lines stay below 400000, so that the 32-bit arithmetic does not
-- wrap.
pub range_size_mono :
    (outer inner : Span)
    → IsMeasurable outer
    → IsMeasurable inner
    → contains outer inner.start_line inner.start_col ≡ true
    → contains outer inner.end_line inner.end_col ≡ true
    → range_size inner ≤ range_size outer
unfolding contains
range_size_mono outer inner ho hi hs he =
    ground (arith, range_size-plain outer ho, range_size-plain inner hi)
