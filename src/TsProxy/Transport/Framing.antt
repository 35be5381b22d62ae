-- ===== src/TsProxy/Transport/Framing.antt =====
-- A message that is written is read back.
use mathlib.Core.Path.{ap₂}
use mathlib.Core.List.{append_assoc, append-nil}
use angularjs_lsp.Prelude.{
  ℕ, suc, ◌≤◌, ◌≡◌, refl, sym, ap, ◌∙◌, Bool, true, not, Option, some, [], ◌∷◌, ◌++◌, arith, ◌==◌,
  nat_eq, list_eq, list_beq, all, length, take, drop, le→leb, ltb, leb,
}
use angularjs_lsp.DashMap
use angularjs_lsp.DashMap.{DashMap}
use angularjs_lsp.Text.{Str, codes, split_once, starts_with}
use angularjs_lsp.Text.Trim.{
  trim, trim_start, trim_end, is_solid, is_whitespace, trim_end_of_solid, trim_end-append_blank,
  trim_end-append, trim_start_of_solid,
}
use angularjs_lsp.Text.Decimal.{
  decimal, usize_max, parse_usize, all-decimal, decimal-filled, parse_usize-decimal,
}
use angularjs_lsp.TsProxy.Transport.Endless.{turn_on, turn_blank}
use angularjs_lsp.TsProxy.Transport.{
  Bytes, crlf, write_message, read_line, headers, message, read_headers, add_header, read_content,
  read_message,
}

-- a line with no line feed in it
read_line-clean :
    (s t : Bytes) → all (λ c. not (c == 10)) s ≡ true → read_line (s ++ 10 ∷ t) ≡ (s ++ 10 ∷ [], t)
unfolding read_line
read_line-clean [] t h = refl
read_line-clean (c ∷ s) t h = ground (arith, read_line-clean s t)

all-append : (p : ℕ → Bool) (s t : Str) → all p s ≡ true → all p t ≡ true → all p (s ++ t) ≡ true
all-append p [] t h k = k
all-append p (c ∷ s) t h k = ground (arith, all-append p s t)

take-append : (s t : Bytes) → take (length s) (s ++ t) ≡ s
take-append [] t = refl
take-append (c ∷ s) t = ground (arith, take-append s t)

drop-append : (s t : Bytes) → drop (length s) (s ++ t) ≡ t
drop-append [] t = refl
drop-append (c ∷ s) t = ground (arith, drop-append s t)

length-append-le : (s t : Bytes) → length s ≤ length (s ++ t)
length-append-le [] t = omega arith
length-append-le (c ∷ s) t = ground (arith, length-append-le s t)

-- the header line, and what it holds
abbrev pub label : Str
label = codes "Content-Length: "

abbrev header_line : ℕ → Str
header_line n = label ++ (decimal n ++ crlf)

solid-decimal : (n : ℕ) → is_solid (decimal n) ≡ true
unfolding is_whitespace
solid-decimal n = all-decimal (λ c. not (is_whitespace c)) n (λ d small. ground arith)

trim-decimal : (n : ℕ) → trim_end (decimal n ++ crlf) ≡ decimal n
unfolding trim_end is_whitespace
trim-decimal n =
    trim_end-append_blank (decimal n) crlf refl ∙ trim_end_of_solid (decimal n) (solid-decimal n)

trim-header_line : (n : ℕ) → trim (header_line n) ≡ label ++ decimal n
unfolding trim_start is_whitespace
trim-header_line n =
    trim_end-append label (decimal n ++ crlf) (rw (trim-decimal n) (decimal-filled n))
    ∙ ap (λ s. label ++ s) (trim-decimal n)

split-label :
    (s : Str) → split_once (label ++ s) (codes ":") ≡ some (codes "Content-Length", b' ' ∷ s)
unfolding split_once starts_with
split-label s = refl

-- the header line without its line feed
abbrev line_start : ℕ → Str
line_start n = label ++ (decimal n ++ 13 ∷ [])

header-append : (n : ℕ) (t : Bytes) → header_line n ++ t ≡ line_start n ++ 10 ∷ t
header-append n t =
    append_assoc label (decimal n ++ crlf) t
    ∙ (ap (λ s. label ++ s)
          (append_assoc (decimal n) crlf t ∙ sym (append_assoc (decimal n) (13 ∷ []) (10 ∷ t)))
        ∙ sym (append_assoc label (decimal n ++ 13 ∷ []) (10 ∷ t)))

header-end : (n : ℕ) → line_start n ++ 10 ∷ [] ≡ header_line n
header-end n = sym (header-append n []) ∙ append-nil (header_line n)

read_line-header : (n : ℕ) (t : Bytes) → read_line (header_line n ++ t) ≡ (header_line n, t)
read_line-header n t =
    ap read_line (header-append n t)
    ∙ (read_line-clean (line_start n) t (
          all-append (λ c. not (c == 10)) label (decimal n ++ 13 ∷ []) refl
            (all-append (λ c. not (c == 10)) (decimal n) (13 ∷ [])
              (all-decimal (λ c. not (c == 10)) n (λ d small. ground arith)) refl))
        ∙ ap (λ l. (l, t)) (header-end n))

ascii-header : (n : ℕ) → all (λ c. ltb c 128) (header_line n) ≡ true
ascii-header n =
    all-append (λ c. ltb c 128) label (decimal n ++ crlf) refl
      (all-append (λ c. ltb c 128) (decimal n) crlf
        (all-decimal (λ c. ltb c 128) n (λ d small. ground arith)) refl)

whole :
    (n : ℕ) (content rest : Bytes)
    → (label ++ (decimal n ++ (crlf ++ (crlf ++ content)))) ++ rest
      ≡ header_line n ++ (crlf ++ (content ++ rest))
whole n content rest =
    ap (λ s. label ++ s)
      (append_assoc (decimal n) (crlf ++ (crlf ++ content)) rest
        ∙ sym (append_assoc (decimal n) crlf (crlf ++ (content ++ rest))))

module _ (from_utf8 : Bytes → Option Str) (to_lowercase : Str → Str) where
  add_header-some :
      (line key value : Str) (m : DashMap Str Str)
      → split_once (trim line) (codes ":") ≡ some (key, value)
      → add_header from_utf8 to_lowercase line m
        ≡ DashMap.insert (to_lowercase (trim key)) (trim value) m
  unfolding add_header
  add_header-some line key value m h = ground arith

  trim-key : trim (codes "Content-Length") ≡ codes "Content-Length"
  unfolding trim_start trim_end is_whitespace
  trim-key = refl

  trim-value : (n : ℕ) → trim (b' ' ∷ decimal n) ≡ decimal n
  unfolding trim_start is_whitespace
  trim-value n =
      rw (trim_start_of_solid (decimal n) (solid-decimal n))
        (trim_end_of_solid (decimal n) (solid-decimal n))

  -- The header is kept under its name in small letters.
  add_header-line :
      (n : ℕ)
      → to_lowercase (codes "Content-Length") ≡ codes "content-length"
      → add_header from_utf8 to_lowercase (header_line n) []
        ≡ (codes "content-length", decimal n) ∷ []
  unfolding DashMap.insert
  add_header-line n lower =
      add_header-some (header_line n) (codes "Content-Length") (b' ' ∷ decimal n) []
        (ap (λ s. split_once s (codes ":")) (trim-header_line n) ∙ split-label (decimal n))
      ∙ rw (trim-key, lower, trim-value n) refl

  read_headers-line :
      (n fuel : ℕ) (rest : Bytes)
      → ((s : Bytes) → all (λ c. ltb c 128) s ≡ true → from_utf8 s ≡ some s)
      → to_lowercase (codes "Content-Length") ≡ codes "content-length"
      → read_headers from_utf8 to_lowercase (suc (suc fuel)) [] (header_line n ++ (crlf ++ rest))
        ≡ headers ((codes "content-length", decimal n) ∷ []) rest
  unfolding list_beq read_line
  read_headers-line n fuel rest ascii lower =
      let line = read_line-header n (crlf ++ rest) in
      turn_on from_utf8 to_lowercase (suc fuel) [] (header_line n ++ (crlf ++ rest)) (header_line n)
        (ap (λ l. from_utf8 (l.0)) line ∙ ascii (header_line n) (ascii-header n)) refl
      ∙ (ap₂ (read_headers from_utf8 to_lowercase (suc fuel)) (add_header-line n lower)
            (ap (λ l. l.1) line)
          ∙ turn_blank from_utf8 to_lowercase fuel ((codes "content-length", decimal n) ∷ [])
              (crlf ++ rest) crlf (ascii crlf refl) refl)

  content_read :
      {Value : Type 0} (from_slice : Bytes → Option Value) (m : DashMap Str Str) (text : Str)
      → (n : ℕ) (input : Bytes) (v : Value) → DashMap.get (codes "content-length") m ≡ some text
      → parse_usize text ≡ some n
      → leb n (length input) ≡ true
      → from_slice (take n input) ≡ some v
      → read_content from_utf8 to_lowercase from_slice m input ≡ message v (drop n input)
  unfolding read_content
  content_read from_slice m text n input v found parsed long read = ground arith

  found_length :
      (text : Str)
      → DashMap.get (codes "content-length") ((codes "content-length", text) ∷ []) ≡ some text
  unfolding DashMap.get list_beq
  found_length text = refl

  headers_read :
      {Value : Type 0} (from_slice : Bytes → Option Value) (fuel : ℕ) (input rest : Bytes)
      → (m : DashMap Str Str) → read_headers from_utf8 to_lowercase fuel [] input ≡ headers m rest
      → read_message from_utf8 to_lowercase from_slice fuel input
        ≡ read_content from_utf8 to_lowercase from_slice m rest
  unfolding read_message
  headers_read from_slice fuel input rest m h = rw (h, read_message) refl

  -- A message that is written is read back by two turns of the loop, and the stream is left behind
  -- it, if ASCII bytes are read as they are, the header has its usual small letters, the value is
  -- read back from its text, and the length of the text fits in 64 bits.
  pub read_message-write_message :
      {Value : Type 0} (to_string : Value → Bytes) (from_slice : Bytes → Option Value)
      → (v : Value) (fuel : ℕ) (rest : Bytes)
      → ((s : Bytes) → all (λ c. ltb c 128) s ≡ true → from_utf8 s ≡ some s)
      → to_lowercase (codes "Content-Length") ≡ codes "content-length"
      → from_slice (to_string v) ≡ some v
      → length (to_string v) ≤ usize_max
      → read_message from_utf8 to_lowercase from_slice
          (suc (suc fuel))
          (write_message to_string v ++ rest)
        ≡ message v rest
  unfolding write_message
  read_message-write_message to_string from_slice v fuel rest ascii lower json fits =
      let content = to_string v in
      let n = length content in
      let m = (codes "content-length", decimal n) ∷ [] in
      ap (read_message from_utf8 to_lowercase from_slice (suc (suc fuel))) (whole n content rest)
      ∙ (headers_read from_slice (suc (suc fuel)) (header_line n ++ (crlf ++ (content ++ rest)))
            (content ++ rest) m (read_headers-line n fuel (content ++ rest) ascii lower)
          ∙ (content_read from_slice m (decimal n) n (content ++ rest) v (found_length (decimal n))
                (parse_usize-decimal n fits)
                (le→leb n (length (content ++ rest)) (length-append-le content rest))
                (ap from_slice (take-append content rest) ∙ json)
              ∙ ap (message v) (drop-append content rest)))
