-- ===== src/Handlers/SemanticTokens/Encoding.antt =====
-- What a client reads from the encoded tokens.
use angularjs_lsp.Prelude.{
  ℕ, ◌+◌, ◌^◌, ◌≤◌, ◌<◌, ◌≡◌, refl, ap, ◌∙◌, ◌⊎◌, inl, inr, true, false, List, [], ◌∷◌, arith,
  Bool-cases, nat_beq, ltb, if◌then◌else◌, retain, sort_by, Sorted, sort_by-Sorted, In, In-sort_by,
  sort_by-In, In-retain, retain-In,
}
use angularjs_lsp.Handlers.SemanticTokens.{
  RawSemanticToken, SemanticToken, Previous, comes_first, is_skipped, encode_token, after_token,
  encode_from, encode_tokens,
}

-- The protocol's reading of the tokens: each is given by its distance from the one before.
unfoldable pub decode : ℕ → ℕ → List SemanticToken → List RawSemanticToken
decode line col [] = []
decode line col (t ∷ ts) =
    let start_col = (if nat_beq t.delta_line 0 then col + t.delta_start else t.delta_start) in
    record {
      line = line + t.delta_line;
      start_col = start_col;
      length = t.length;
      token_type = t.token_type;
      token_modifiers = t.token_modifiers_bitset;
    }
    ∷ decode (line + t.delta_line) start_col ts

-- The token ends in the 32 bits of a column.
abbrev pub Fits : RawSemanticToken → Type 0
Fits t = t.start_col + t.length < 2 ^ 32

-- The second token begins on a later line, or not before the end of the first.
abbrev pub Apart : RawSemanticToken → RawSemanticToken → Type 0
Apart a b = (a.line < b.line) ⊎ ((a.line ≡ b.line) × (a.start_col + a.length ≤ b.start_col))

-- Each token stands apart from the next.
abbrev pub AllApart : List RawSemanticToken → Type 0
AllApart [] = Unit
AllApart (a ∷ []) = Unit
AllApart (a ∷ b ∷ ts) = Apart a b × AllApart (b ∷ ts)

-- (line, col) is not after the start of the token.
abbrev After : ℕ → ℕ → RawSemanticToken → Type 0
After line col t = (line < t.line) ⊎ ((line ≡ t.line) × (col ≤ t.start_col))

abbrev Ascending : ℕ → ℕ → List RawSemanticToken → Type 0
Ascending line col [] = Unit
Ascending line col (t ∷ ts) = After line col t × Ascending t.line t.start_col ts

abbrev AllFit : List RawSemanticToken → Type 0
AllFit [] = Unit
AllFit (t ∷ ts) = (Fits t × (0 < t.length)) × AllFit ts

-- the tokens that the loop does not skip
unfoldable shown : Previous → List RawSemanticToken → List RawSemanticToken
shown prev [] = []
shown prev (t ∷ ts) =
    let rest = shown (if is_skipped prev t then prev else after_token t) ts in
    if is_skipped prev t then rest else t ∷ rest

Ascending-earlier :
    (line col : ℕ) (t : RawSemanticToken) (ts : List RawSemanticToken)
    → After line col t
    → Ascending t.line t.start_col ts
    → Ascending line col ts
Ascending-earlier line col t [] h asc = tt
Ascending-earlier line col t (u ∷ ts) h asc = ground arith

-- the token read back behind the one before it
read-encode_token :
    (prev : Previous) (t : RawSemanticToken) (rest : List SemanticToken)
    → After prev.line prev.col t
    → decode prev.line prev.col (encode_token prev t ∷ rest) ≡ t ∷ decode t.line t.start_col rest
unfolding decode
read-encode_token prev t rest h = ground arith

decode-encode_from :
    (prev : Previous) (ts : List RawSemanticToken)
    → Ascending prev.line prev.col ts
    → decode prev.line prev.col (encode_from prev ts) ≡ shown prev ts
unfolding encode_from shown decode
decode-encode_from prev [] asc = refl
decode-encode_from prev (t ∷ ts) asc = elim (Bool-cases (is_skipped prev t)) [
  | inl skip ↦
      rw skip
        (decode-encode_from prev ts (Ascending-earlier prev.line prev.col t ts (asc.0) (asc.1)))
  | inr keep ↦ rw keep (
      read-encode_token prev t (encode_from (after_token t) ts) (asc.0)
      ∙ ap (λ r. t ∷ r) (decode-encode_from (after_token t) ts (asc.1)))
]

kept-Apart :
    (t u : RawSemanticToken)
    → Fits t
    → After t.line t.start_col u
    → is_skipped (after_token t) u ≡ false
    → Apart t u
kept-Apart t u ft h keep = ground arith

-- What is shown behind a token that stands.
shown-AllApart :
    (t : RawSemanticToken) (ts : List RawSemanticToken)
    → Fits t
    → AllFit ts
    → Ascending t.line t.start_col ts
    → AllApart (t ∷ shown (after_token t) ts)
unfolding shown
shown-AllApart t [] ft fs asc = tt
shown-AllApart t (u ∷ ts) ft fs asc = elim (Bool-cases (is_skipped (after_token t) u)) [
  | inl skip ↦
      rw skip
        (shown-AllApart t ts ft (fs.1) (Ascending-earlier t.line t.start_col u ts (asc.0) (asc.1)))
  | inr keep ↦
      rw keep ((kept-Apart t u ft (asc.0) keep, shown-AllApart u ts (fs.0.0) (fs.1) (asc.1)))
]

shown-In :
    (prev : Previous) (ts : List RawSemanticToken) (x : RawSemanticToken)
    → In x (shown prev ts)
    → In x ts
unfolding shown
shown-In prev [] x h = h
shown-In prev (t ∷ ts) x h = elim (Bool-cases (is_skipped prev t)) [
  | inl skip ↦ inr (shown-In prev ts x (rw skip at h))
  | inr keep ↦ elim (rw keep at h) [ inl e ↦ inl e | inr i ↦ inr (shown-In (after_token t) ts x i) ]
]

-- The token begins inside the other one.
abbrev pub BeginsIn : RawSemanticToken → RawSemanticToken → Type 0
BeginsIn y x =
    (x.line ≡ y.line) × (y.start_col ≤ x.start_col) × (x.start_col < y.start_col + y.length)

skipped-BeginsIn :
    (t u : RawSemanticToken)
    → Fits t
    → Fits u
    → 0 < u.length
    → After t.line t.start_col u
    → is_skipped (after_token t) u ≡ true
    → BeginsIn t u
skipped-BeginsIn t u ft fu positive h skip = ground arith

shown-covers :
    (t : RawSemanticToken) (ts : List RawSemanticToken)
    → Fits t
    → AllFit ts
    → Ascending t.line t.start_col ts
    → (x : RawSemanticToken) → In x ts
    → (y : RawSemanticToken) × In y (t ∷ shown (after_token t) ts) × BeginsIn y x
unfolding shown
shown-covers t [] ft fs asc x h = absurd h
shown-covers t (u ∷ ts) ft fs asc x h = elim (Bool-cases (is_skipped (after_token t) u)) [
  | inl skip ↦ rw skip (elim h [
    | inl e ↦ (t, inl refl, rw e (skipped-BeginsIn t u ft (fs.0.0) (fs.0.1) (asc.0) skip))
    | inr i ↦
        shown-covers t ts ft (fs.1) (Ascending-earlier t.line t.start_col u ts (asc.0) (asc.1)) x i
  ])
  | inr keep ↦ rw keep (elim h [
    | inl e ↦ (u, inr (inl refl), rw e ((refl, omega arith, ground arith)))
    | inr i ↦ let (y, j, b) = shown-covers u ts (fs.0.0) (fs.1) (asc.1) x i in (y, inr j, b)
  ])
]

-- The sorted tokens stand in the order of the text.
Sorted-Ascending :
    (t : RawSemanticToken) (ts : List RawSemanticToken)
    → Sorted comes_first (t ∷ ts)
    → Ascending t.line t.start_col ts
Sorted-Ascending t [] h = tt
Sorted-Ascending t (u ∷ ts) h = (ground arith, Sorted-Ascending u ts (h.1))

comes_first-total : (a b : RawSemanticToken) → comes_first a b ≡ false → comes_first b a ≡ true
comes_first-total a b h = ground arith

AllFit-of_In :
    (ts : List RawSemanticToken)
    → ((t : RawSemanticToken) → In t ts → Fits t × (0 < t.length))
    → AllFit ts
AllFit-of_In [] h = tt
AllFit-of_In (t ∷ ts) h = (h t (inl refl), AllFit-of_In ts (λ x i. h x (inr i)))

abbrev start : Previous
start = record { line = 0; col = 0; end_col = 0; first = true }

-- the sorted tokens of positive length
abbrev prepared : List RawSemanticToken → List RawSemanticToken
prepared raw_tokens = sort_by comes_first (retain (λ t. ltb 0 t.length) raw_tokens)

prepared-In :
    (raw_tokens : List RawSemanticToken) (t : RawSemanticToken)
    → In t (prepared raw_tokens)
    → In t raw_tokens × (0 < t.length)
prepared-In raw_tokens t h =
    let (i, positive) =
      In-retain t (λ t. ltb 0 t.length) raw_tokens
        (In-sort_by comes_first t (retain (λ t. ltb 0 t.length) raw_tokens) h) in
    (i, ground arith)

prepared-AllFit :
    (raw_tokens : List RawSemanticToken)
    → ((t : RawSemanticToken) → In t raw_tokens → Fits t)
    → AllFit (prepared raw_tokens)
prepared-AllFit raw_tokens fits =
    AllFit-of_In (prepared raw_tokens)
      (λ t h. let (i, positive) = prepared-In raw_tokens t h in (fits t i, positive))

-- what the client reads
read-start :
    (ts : List RawSemanticToken)
    → Sorted comes_first ts
    → decode 0 0 (encode_from start ts) ≡ shown start ts
unfolding shown
read-start [] h = decode-encode_from start [] tt
read-start (t ∷ ts) h = decode-encode_from start (t ∷ ts) (omega arith, Sorted-Ascending t ts h)

shown_start-AllApart :
    (ts : List RawSemanticToken) → Sorted comes_first ts → AllFit ts → AllApart (shown start ts)
unfolding shown
shown_start-AllApart [] h fs = tt
shown_start-AllApart (t ∷ ts) h fs = shown-AllApart t ts (fs.0.0) (fs.1) (Sorted-Ascending t ts h)

shown_start-covers :
    (ts : List RawSemanticToken)
    → Sorted comes_first ts
    → AllFit ts
    → (x : RawSemanticToken) → In x ts
    → (y : RawSemanticToken) × In y (shown start ts) × BeginsIn y x
unfolding shown
shown_start-covers [] h fs x i = absurd i
shown_start-covers (t ∷ ts) h fs x (inl e) = (t, inl refl, rw e ((refl, omega arith, ground arith)))
shown_start-covers (t ∷ ts) h fs x (inr i) =
    shown-covers t ts (fs.0.0) (fs.1) (Sorted-Ascending t ts h) x i

prepared-Sorted : (raw_tokens : List RawSemanticToken) → Sorted comes_first (prepared raw_tokens)
prepared-Sorted raw_tokens =
    sort_by-Sorted comes_first comes_first-total (retain (λ t. ltb 0 t.length) raw_tokens)

decode-encode_tokens :
    (raw_tokens : List RawSemanticToken)
    → decode 0 0 (encode_tokens raw_tokens) ≡ shown start (prepared raw_tokens)
unfolding encode_tokens
decode-encode_tokens raw_tokens = read-start (prepared raw_tokens) (prepared-Sorted raw_tokens)

-- Of tokens whose columns fit in 32 bits, a client reads back from the encoding tokens that were
-- collected and are not empty, and each ends before the next begins.
pub encode_tokens-AllApart :
    (raw_tokens : List RawSemanticToken)
    → ((t : RawSemanticToken) → In t raw_tokens → Fits t)
    → AllApart (decode 0 0 (encode_tokens raw_tokens))
      × ((t : RawSemanticToken)
          → In t (decode 0 0 (encode_tokens raw_tokens))
          → In t raw_tokens × (0 < t.length))
encode_tokens-AllApart raw_tokens fits = rw (decode-encode_tokens raw_tokens) (
    (
      shown_start-AllApart (prepared raw_tokens) (prepared-Sorted raw_tokens)
          (prepared-AllFit raw_tokens fits),
      λ t h. prepared-In raw_tokens t (shown-In start (prepared raw_tokens) t h),
    ))

-- Of tokens whose columns fit in 32 bits, each that is not empty begins inside a token that a
-- client reads back.
pub encode_tokens-covers :
    (raw_tokens : List RawSemanticToken)
    → ((t : RawSemanticToken) → In t raw_tokens → Fits t)
    → (x : RawSemanticToken) → In x raw_tokens
    → 0 < x.length
    → (y : RawSemanticToken) × In y (decode 0 0 (encode_tokens raw_tokens)) × BeginsIn y x
encode_tokens-covers raw_tokens fits x i positive = rw (decode-encode_tokens raw_tokens) (
    shown_start-covers (prepared raw_tokens) (prepared-Sorted raw_tokens)
      (prepared-AllFit raw_tokens fits) x
      (sort_by-In comes_first x (retain (λ t. ltb 0 t.length) raw_tokens)
        (retain-In x (λ t. ltb 0 t.length) raw_tokens i (ground arith))))
