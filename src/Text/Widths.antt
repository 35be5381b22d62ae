-- ===== src/Text/Widths.antt =====
-- The sizes of a text's encodings: bytes in UTF-8, and units in UTF-16.
use angularjs_lsp.Prelude.{ℕ, ◌+◌, ◌≡◌, [], ◌∷◌, ◌++◌, arith, ◌≤◌, if◌then◌else◌, ltb, length}
use angularjs_lsp.Text.{Str}

-- `c.len_utf8()`
abbrev pub len_utf8 : ℕ → ℕ
len_utf8 c = if ltb c 0x80 then 1 else if ltb c 0x800 then 2 else if ltb c 0x10000 then 3 else 4

-- `s.len()`
unfoldable pub byte_len : Str → ℕ
byte_len [] = 0
byte_len (c ∷ s) = len_utf8 c + byte_len s

-- `c.len_utf16()`
abbrev pub len_utf16 : ℕ → ℕ
len_utf16 c = if ltb c 0x10000 then 1 else 2

-- `s.chars().map(|c| c.len_utf16()).sum()`
unfoldable pub utf16_len : Str → ℕ
utf16_len [] = 0
utf16_len (c ∷ s) = len_utf16 c + utf16_len s

pub byte_len-append : (s t : Str) → byte_len (s ++ t) ≡ byte_len s + byte_len t
unfolding byte_len
byte_len-append [] t = ground arith
byte_len-append (c ∷ s) t = ground (arith, byte_len-append s t)

pub length-le-byte_len : (s : Str) → length s ≤ byte_len s
unfolding byte_len
length-le-byte_len [] = omega arith
length-le-byte_len (c ∷ s) = ground (arith, length-le-byte_len s)
