-- ===== src/TsProxy/Transport.antt =====
-- src/ts_proxy/transport.rs: messages with their length before them. A stream is the bytes that come
-- before its end. `from_utf8` and `to_lowercase` are Rust's on texts; `to_string` and `from_slice`
-- are `serde_json`'s on the bytes of a value.
pub mod Framing
pub mod Endless
use angularjs_lsp.Prelude.{
  ℕ, zero, suc, Bool, true, false, ◌||◌, Option, none, some, List, [], ◌∷◌, ◌++◌, Eq, ◌==◌, nat_eq,
  list_eq, if◌then◌else◌, length, take, drop, leb,
}
use angularjs_lsp.DashMap
use angularjs_lsp.DashMap.{DashMap}
use angularjs_lsp.Text.{Str, codes, split_once}
use angularjs_lsp.Text.Trim.{trim}
use angularjs_lsp.Text.Decimal.{decimal, parse_usize}

abbrev pub Bytes : Type 0
Bytes = List ℕ

abbrev pub crlf : Bytes
crlf = 13 ∷ 10 ∷ []

-- `write_message`: the bytes that are written for a value
unfoldable pub write_message : {Value : Type 0} → (Value → Bytes) → Value → Bytes
write_message to_string msg =
    let content = to_string msg in
    codes "Content-Length: " ++ (decimal (length content) ++ (crlf ++ (crlf ++ content)))

-- `read_line`: up to the next line feed, which is read too, or to the end of the stream
unfoldable pub read_line : Bytes → Bytes × Bytes
read_line [] = ([], [])
read_line (c ∷ s) = let rest = read_line s in if c == 10 then (c ∷ [], s) else (c ∷ rest.0, rest.1)

abbrev pub is_blank_line : Str → Bool
is_blank_line line = line == crlf || line == 10 ∷ []

pub data ReadError : Type 0 where
  invalid_utf8 missing_length invalid_length unexpected_eof invalid_json : ReadError

-- `out_of_fuel` stands for a loop that goes on
pub data Headers : Type 0 where
  out_of_fuel : Headers
  bad_line : Headers
  headers : DashMap Str Str → Bytes → Headers

pub data ReadResult (Value : Type 0) : Type 0 where
  reading : ReadResult Value
  failed : ReadError → ReadResult Value
  message : Value → Bytes → ReadResult Value

module _ (from_utf8 : Bytes → Option Str) (to_lowercase : Str → Str) where
  unfoldable pub add_header : Str → DashMap Str Str → DashMap Str Str
  unfolding split_once
  add_header line m = elim (split_once (trim line) (codes ":")) [
    | none ↦ m
    | some (key, value) ↦ DashMap.insert (to_lowercase (trim key)) (trim value) m
  ]

  -- the loop of `read_message`, one line for each unit of fuel
  unfoldable pub read_headers : ℕ → DashMap Str Str → Bytes → Headers
  unfolding read_line add_header
  read_headers zero m input = out_of_fuel
  read_headers (suc fuel) m input = elim (from_utf8 ((read_line input).0)) [
    | none ↦ bad_line
    | some line ↦ elim (is_blank_line line) [
      | true ↦ headers m ((read_line input).1)
      | false ↦ read_headers fuel (add_header line m) ((read_line input).1)
    ]
  ]

  -- what comes behind the loop: `read_exact`, and the value
  unfoldable pub read_content :
      {Value : Type 0} → (Bytes → Option Value) → DashMap Str Str → Bytes → ReadResult Value
  read_content from_slice m input = elim (DashMap.get (codes "content-length") m) [
    | none ↦ failed missing_length
    | some value ↦ elim (parse_usize value) [
      | none ↦ failed invalid_length
      | some content_length ↦
          if leb content_length (length input)
          then elim (from_slice (take content_length input)) [
            | none ↦ failed invalid_json
            | some v ↦ message v (drop content_length input)
          ]
          else failed unexpected_eof
    ]
  ]

  unfoldable pub read_message :
      {Value : Type 0} → (Bytes → Option Value) → ℕ → Bytes → ReadResult Value
  unfolding read_headers read_content
  read_message from_slice fuel input = elim (read_headers fuel [] input) [
    | out_of_fuel ↦ reading
    | bad_line ↦ failed invalid_utf8
    | headers m rest ↦ read_content from_slice m rest
  ]
