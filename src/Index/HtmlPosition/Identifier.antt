-- ===== src/Index/HtmlPosition/Identifier.antt =====
-- The identifier that is cut out of a line at a column, and where the cut panics.
use angularjs_lsp.Prelude.{
  ℕ, zero, suc, ◌+◌, ◌-◌, ◌≤◌, ◌<◌, ◌≡◌, refl, sym, ◌∙◌, ◌↔◌, ◌⊎◌, inl, inr, Bool, true, false,
  none, some, [], ◌∷◌, arith, Bool-cases, length, get_elem?, drop, panics, returns,
}
use mathlib.Core.Path.{subst}
use angularjs_lsp.Text.{Str}
use angularjs_lsp.Text.Widths.{byte_len}
use angularjs_lsp.Index.HtmlPosition.{
  is_identifier_char, scan_back, scan_forward, cut, identifier_in_line,
}

≤-cases : (i n : ℕ) → i ≤ n → (i ≡ n) ⊎ (i < n)
≤-cases i n h = ground arith

lt-or-le : (i n : ℕ) → (i < n) ⊎ (n ≤ i)
lt-or-le i n = ground arith

get_elem-some : (s : Str) (i : ℕ) → i < length s → (c : ℕ) × (get_elem? s i ≡ some c)
get_elem-some [] i h = absurd (omega arith)
get_elem-some (c ∷ s) zero h = (c, refl)
get_elem-some (c ∷ s) (suc i) h = get_elem-some s i (omega arith)

get_elem-none : (s : Str) (i : ℕ) → length s ≤ i → get_elem? s i ≡ none
get_elem-none [] i h = refl
get_elem-none (c ∷ s) zero h = absurd (omega arith)
get_elem-none (c ∷ s) (suc i) h = get_elem-none s i (omega arith)

get_elem-drop : (n : ℕ) (s : Str) (i : ℕ) → get_elem? (drop n s) i ≡ get_elem? s (n + i)
get_elem-drop zero s i = ground arith
get_elem-drop (suc n) [] i = ground arith
get_elem-drop (suc n) (c ∷ s) i = ground (arith, get_elem-drop n s i)

module _ (is_alphanumeric : ℕ → Bool) where
  -- There is a character at the index, and it belongs to identifiers.
  abbrev pub identifier_at : Str → ℕ → Bool
  identifier_at s i = elim (get_elem? s i) [
    | none ↦ false
    | some c ↦ is_identifier_char is_alphanumeric c
  ]

  at_drop : (n : ℕ) (s : Str) (i : ℕ) → identifier_at (drop n s) i ≡ identifier_at s (n + i)
  at_drop n s i = ground (arith, get_elem-drop n s i)

  -- one turn of the first loop
  turn_out : (s : Str) (n : ℕ) → get_elem? s n ≡ none → scan_back is_alphanumeric s (suc n) ≡ panics
  unfolding scan_back
  turn_out s n at = ground arith

  turn_on :
      (s : Str) (n : ℕ)
      → identifier_at s n ≡ true
      → scan_back is_alphanumeric s (suc n) ≡ scan_back is_alphanumeric s n
  unfolding scan_back
  turn_on s n at = ground arith

  turn_stop :
      (s : Str) (n : ℕ)
      → n < length s
      → identifier_at s n ≡ false
      → scan_back is_alphanumeric s (suc n) ≡ returns (suc n)
  unfolding scan_back
  turn_stop s n lt at = let (c, here) = get_elem-some s n lt in ground arith

  scan_back-panics : (s : Str) (n : ℕ) → length s < n → scan_back is_alphanumeric s n ≡ panics
  scan_back-panics s zero h = absurd (omega arith)
  scan_back-panics s (suc n) h = turn_out s n (get_elem-none s n (omega arith))

  scan_back-returns :
      (s : Str) (n : ℕ) → n ≤ length s → (k : ℕ) × (scan_back is_alphanumeric s n ≡ returns k)
  unfolding scan_back
  scan_back-returns s zero h = (0, refl)
  scan_back-returns s (suc n) h = elim (Bool-cases (identifier_at s n)) [
    | inl t ↦ let (k, e) = scan_back-returns s n (omega arith) in (k, turn_on s n t ∙ e)
    | inr f ↦ (suc n, turn_stop s n (omega arith) f)
  ]

  scan_back_lem :
      (s : Str) (n k : ℕ)
      → n ≤ length s
      → scan_back is_alphanumeric s n ≡ returns k
      → (k ≤ n)
        × ((i : ℕ) → k ≤ i → i < n → identifier_at s i ≡ true)
        × ((k ≡ 0) ⊎ (identifier_at s (k - 1) ≡ false))
  unfolding scan_back
  scan_back_lem s zero k le h =
      let zeroth : k ≡ 0 = ground arith in
      (omega arith, λ i from to. absurd (omega arith), inl zeroth)
  scan_back_lem s (suc n) k le h = elim (Bool-cases (identifier_at s n)) [
    | inl t ↦
        let (below, all, before) = scan_back_lem s n k (omega arith) (sym (turn_on s n t) ∙ h) in
        (
          omega arith,
          λ i from to. elim (≤-cases i n (omega arith)) [ inl e ↦ rw e t | inr lt ↦ all i from lt ],
          before,
        )
    | inr f ↦
        let stopped : k ≡ suc n = ground (arith, turn_stop s n (omega arith) f) in
        (omega arith, λ i from to. absurd (omega arith), inr (ground arith))
  ]

  run_at :
      (c : ℕ) (s : Str) (m : ℕ)
      → is_identifier_char is_alphanumeric c ≡ true
      → ((i : ℕ) → i < m → identifier_at s i ≡ true)
      → (i : ℕ) → i < suc m
      → identifier_at (c ∷ s) i ≡ true
  run_at c s m t all zero lt = t
  run_at c s m t all (suc i) lt = all i (omega arith)

  scan_forward_lem :
      (s : Str) (n e : ℕ)
      → scan_forward is_alphanumeric s n ≡ e
      → (n ≤ e)
        × ((i : ℕ) → i < e - n → identifier_at s i ≡ true)
        × (identifier_at s (e - n) ≡ false)
  unfolding scan_forward
  scan_forward_lem [] n e h = (omega arith, λ i lt. absurd (omega arith), refl)
  scan_forward_lem (c ∷ s) n e h = elim (Bool-cases (is_identifier_char is_alphanumeric c)) [
    | inl t ↦
        let (below, all, end_) = scan_forward_lem s (suc n) e (rw t at h) in
        let step : e - n ≡ suc (e - suc n) = omega arith in
        (omega arith, rw step (run_at c s (e - suc n) t all), rw step end_)
    | inr f ↦
        let here : e ≡ n = sym (rw f at h) in
        let none_left : e - n ≡ 0 = omega arith in
        (omega arith, λ i lt. absurd (omega arith), rw none_left f)
  ]

  -- The columns from `start` to `end` are a longest run of identifier characters around `col`.
  abbrev pub IsRun : Str → ℕ → ℕ → ℕ → Type 0
  IsRun line col start end_ =
      (start ≤ col)
      × (col ≤ end_)
      × ((i : ℕ) → start ≤ i → i < end_ → identifier_at line i ≡ true)
      × ((start ≡ 0) ⊎ (identifier_at line (start - 1) ≡ false))
      × (identifier_at line end_ ≡ false)

  -- Looking for the identifier at a column panics exactly when the column is behind the characters
  -- of the line and before the end of its bytes.
  pub identifier_in_line-panics_iff :
      (line : Str) (col : ℕ)
      → (identifier_in_line is_alphanumeric line col ≡ panics)
        ↔ ((length line < col) × (col < byte_len line))
  unfolding identifier_in_line
  identifier_in_line-panics_iff line col = (
    λ h. (
      elim (lt-or-le (length line) col) [
        | inl lt ↦ lt
        | inr le ↦ let (k, e) = scan_back-returns line col le in absurd (ground arith)
      ],
      ground arith,
    ),
    λ h. ground (arith, scan_back-panics line col (h.0)),
  )

  run :
      (line : Str) (col start : ℕ)
      → col ≤ length line
      → scan_back is_alphanumeric line col ≡ returns start
      → IsRun line col start (scan_forward is_alphanumeric (drop col line) col)
  run line col start le h =
      let (below, all, before) = scan_back_lem line col start le h in
      let end_ = scan_forward is_alphanumeric (drop col line) col in
      let (above, more, stop) = scan_forward_lem (drop col line) col end_ refl in
      (
        below,
        above,
        λ i from to. elim (lt-or-le i col) [
          | inl lt ↦ all i from lt
          | inr le ↦
              let there : col + (i - col) ≡ i = omega arith in
              rw (← there) (sym (at_drop col line (i - col)) ∙ more (i - col) (omega arith))
        ],
        before,
        let there : col + (end_ - col) ≡ end_ = omega arith in
            subst (λ j. identifier_at line j ≡ false) there
              (sym (at_drop col line (end_ - col)) ∙ stop),
      )

  -- At a column that is inside the line in characters and in bytes, the identifier is the longest
  -- run of identifier characters around the column.
  pub identifier_in_line-run :
      (line : Str) (col : ℕ)
      → col ≤ length line
      → col < byte_len line
      → (start : ℕ) × (end_ : ℕ) × IsRun line col start end_
        × (identifier_in_line is_alphanumeric line col
            ≡ returns (cut is_alphanumeric line start end_))
  unfolding identifier_in_line
  identifier_in_line-run line col le lt =
      let (start, back) = scan_back-returns line col le in
      (
        start,
        scan_forward is_alphanumeric (drop col line) col,
        run line col start le back,
        ground arith,
      )
