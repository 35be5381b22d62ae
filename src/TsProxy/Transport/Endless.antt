-- ===== src/TsProxy/Transport/Endless.antt =====
-- When the loop over the header lines ends, and when it does not.
use angularjs_lsp.Prelude.{
  ℕ, zero, suc, ◌≡◌, refl, ◌∙◌, ◌⊎◌, inl, inr, true, false, Option, none, some, [], arith, nat_eq,
  list_eq, Bool-cases, Option-cases,
}
use angularjs_lsp.DashMap.{DashMap}
use angularjs_lsp.Text.{Str}
use angularjs_lsp.TsProxy.Transport.{
  Bytes, out_of_fuel, headers, reading, read_line, is_blank_line, read_headers, read_message,
  add_header,
}

-- the stream behind a number of lines
unfoldable pub after : ℕ → Bytes → Bytes
unfolding read_line
after zero input = input
after (suc n) input = after n ((read_line input).1)

module _ (from_utf8 : Bytes → Option Str) (to_lowercase : Str → Str) where
  pub turn_blank :
      (fuel : ℕ) (m : DashMap Str Str) (input : Bytes) (line : Str)
      → from_utf8 ((read_line input).0) ≡ some line
      → is_blank_line line ≡ true
      → read_headers from_utf8 to_lowercase (suc fuel) m input ≡ headers m ((read_line input).1)
  unfolding read_headers
  turn_blank fuel m input line h blank = rw (h, blank, read_headers) refl

  pub turn_on :
      (fuel : ℕ) (m : DashMap Str Str) (input : Bytes) (line : Str)
      → from_utf8 ((read_line input).0) ≡ some line
      → is_blank_line line ≡ false
      → read_headers from_utf8 to_lowercase (suc fuel) m input
        ≡ read_headers from_utf8 to_lowercase fuel
            (add_header from_utf8 to_lowercase line m)
            ((read_line input).1)
  unfolding read_headers
  turn_on fuel m input line h more = ground arith

  -- The line that is read ends the loop: it is blank, or no UTF-8.
  abbrev pub Stops : Bytes → Type 0
  Stops input =
      (from_utf8 ((read_line input).0) ≡ none)
      ⊎ ((line : Str) × (from_utf8 ((read_line input).0) ≡ some line) × (is_blank_line line ≡ true))

  goes_on :
      (fuel : ℕ) (m : DashMap Str Str) (input : Bytes)
      → ((n : ℕ) → ¬ Stops (after n input))
      → read_headers from_utf8 to_lowercase fuel m input ≡ out_of_fuel
  unfolding after read_headers
  goes_on zero m input on = refl
  goes_on (suc fuel) m input on = elim (Option-cases (from_utf8 ((read_line input).0))) [
    | inl bad ↦ absurd (on 0 (inl bad))
    | inr (line, good) ↦ elim (Bool-cases (is_blank_line line)) [
      | inl blank ↦ absurd (on 0 (inr (line, good, blank)))
      | inr more ↦
          turn_on fuel m input line good more
          ∙ goes_on fuel (add_header from_utf8 to_lowercase line m) ((read_line input).1)
              (λ n. on (suc n))
    ]
  ]

  module _ {Value : Type 0} (from_slice : Bytes → Option Value) where
    -- If no line of the stream, its end included, is blank or no UTF-8, then no fuel is enough for
    -- reading a message.
    pub read_message-endless :
        (fuel : ℕ) (input : Bytes)
        → ((n : ℕ) → ¬ Stops (after n input))
        → read_message from_utf8 to_lowercase from_slice fuel input ≡ reading
    unfolding read_message
    read_message-endless fuel input on = rw (goes_on fuel [] input on, read_message) refl
