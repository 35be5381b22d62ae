-- ===== src/Handlers/Highlights/Order.antt =====
-- The order of the highlights, and one highlight for each range.
use angularjs_lsp.Prelude.{
  ℕ, ◌≤◌, ◌≡◌, ◌≢◌, refl, inl, inr, true, false, Option, none, some, List, [], ◌∷◌, ◌++◌, arith,
  Bool-cases, ◌==◌, nat_eq, list_eq, ==_sound, length, list_beq, In, sort_by, Sorted,
  sort_by-Sorted, In-sort_by, sort_by-In,
}
use mathlib.Core.Path.{subst}
use angularjs_lsp.Model.Location.{Range}
use angularjs_lsp.Handlers.References.{unless_empty}
use angularjs_lsp.Handlers.Highlights.{
  DocumentHighlight, DocumentHighlightKind, write_kind, read_kind, text_kind, other_kind, kind_key,
  range_key, highlight_key, lex_leb, sorts_first, same_range, dedup_from, dedup, finalize,
}

lex_leb-total : (xs ys : List ℕ) → lex_leb xs ys ≡ false → lex_leb ys xs ≡ true
unfolding lex_leb
lex_leb-total [] ys h = absurd (cc)
lex_leb-total (x ∷ xs) [] h = refl
lex_leb-total (x ∷ xs) (y ∷ ys) h = ground (arith, lex_leb-total xs ys)

lex_leb_trans :
    (xs ys zs : List ℕ) → lex_leb xs ys ≡ true → lex_leb ys zs ≡ true → lex_leb xs zs ≡ true
unfolding lex_leb
lex_leb_trans [] ys zs h k = refl
lex_leb_trans (x ∷ xs) [] zs h k = absurd (cc)
lex_leb_trans (x ∷ xs) (y ∷ ys) [] h k = absurd (cc)
lex_leb_trans (x ∷ xs) (y ∷ ys) (z ∷ zs) h k = ground (arith, lex_leb_trans xs ys zs)

-- keys of the same range are ordered by their last part
lex_leb-last : (k : List ℕ) (a b : ℕ) → lex_leb (k ++ a ∷ []) (k ++ b ∷ []) ≡ true → a ≤ b
unfolding lex_leb
lex_leb-last [] a b h = ground arith
lex_leb-last (x ∷ k) a b h = ground (arith, lex_leb-last k a b)

range_key_inj : (a b : Range) → range_key a ≡ range_key b → a ≡ b
range_key_inj a b h = ground arith

same_range_sound : (a b : DocumentHighlight) → same_range a b ≡ true → a.range ≡ b.range
same_range_sound a b h =
    range_key_inj a.range b.range (==_sound (range_key a.range) (range_key b.range) h)

lex_leb-strict :
    (k l : List ℕ) (a b : ℕ)
    → length k ≡ length l
    → lex_leb (k ++ a ∷ []) (l ++ b ∷ []) ≡ true
    → (k == l) ≡ false
    → lex_leb l k ≡ false
unfolding lex_leb list_beq
lex_leb-strict [] [] a b e h n = absurd (cc)
lex_leb-strict [] (y ∷ l) a b e h n = absurd (omega arith)
lex_leb-strict (x ∷ k) [] a b e h n = absurd (omega arith)
lex_leb-strict (x ∷ k) (y ∷ l) a b e h n = ground (arith, lex_leb-strict k l a b)

-- The range of the first comes before that of the second.
abbrev pub RangeBefore : DocumentHighlight → DocumentHighlight → Type 0
RangeBefore a b = lex_leb (range_key b.range) (range_key a.range) ≡ false

-- The ranges ascend, so that none stands twice.
abbrev pub Ascending : List DocumentHighlight → Type 0
Ascending [] = Unit
Ascending (a ∷ []) = Unit
Ascending (a ∷ b ∷ hs) = RangeBefore a b × Ascending (b ∷ hs)

-- The kinds in the order in which they are kept: none, writing, reading, text, any other.
abbrev pub Preferred : Option DocumentHighlightKind → Option DocumentHighlightKind → Type 0
Preferred none k = Unit
Preferred (some k) none = ⊥
Preferred (some write_kind) (some k) = Unit
Preferred (some read_kind) (some k) = k ≢ write_kind
Preferred (some text_kind) (some k) = (k ≢ write_kind) × (k ≢ read_kind)
Preferred (some (other_kind n)) (some k) = (m : ℕ) × (k ≡ other_kind m)

Preferred-of_key : (a b : Option DocumentHighlightKind) → kind_key a ≤ kind_key b → Preferred a b
Preferred-of_key none b h = tt
Preferred-of_key (some k) none h = absurd (ground arith)
Preferred-of_key (some write_kind) (some k) h = tt
Preferred-of_key (some read_kind) (some k) h = λ e. absurd (ground arith)
Preferred-of_key (some text_kind) (some k) h =
    (λ e. absurd (ground arith), λ e. absurd (ground arith))
Preferred-of_key (some (other_kind n)) (some write_kind) h = absurd (ground arith)
Preferred-of_key (some (other_kind n)) (some read_kind) h = absurd (ground arith)
Preferred-of_key (some (other_kind n)) (some text_kind) h = absurd (ground arith)
Preferred-of_key (some (other_kind n)) (some (other_kind m)) h = (m, refl)

-- The highlight has the range of the other one, and a kind that is preferred to its kind or is its.
abbrev pub StandsFor : DocumentHighlight → DocumentHighlight → Type 0
StandsFor g h = (g.range ≡ h.range) × Preferred g.kind h.kind

Sorted-skip :
    (p h : DocumentHighlight) (hs : List DocumentHighlight)
    → Sorted sorts_first (p ∷ h ∷ hs)
    → Sorted sorts_first (p ∷ hs)
Sorted-skip p h [] s = tt
Sorted-skip p h (g ∷ hs) s =
    (lex_leb_trans (highlight_key p) (highlight_key h) (highlight_key g) (s.0) (s.1.0), s.1.1)

dedup-Ascending :
    (p : DocumentHighlight) (hs : List DocumentHighlight)
    → Sorted sorts_first (p ∷ hs)
    → Ascending (p ∷ dedup_from p hs)
unfolding dedup_from
dedup-Ascending p [] s = tt
dedup-Ascending p (h ∷ hs) s = elim (Bool-cases (same_range p h)) [
  | inl same ↦ rw same (dedup-Ascending p hs (Sorted-skip p h hs s))
  | inr other ↦ rw other (
      (
        lex_leb-strict (range_key p.range) (range_key h.range) (kind_key p.kind) (kind_key h.kind)
            refl (s.0) other,
        dedup-Ascending h hs (s.1),
      ))
]

dedup-In :
    (p : DocumentHighlight) (hs : List DocumentHighlight) (g : DocumentHighlight)
    → In g (dedup_from p hs)
    → In g hs
unfolding dedup_from
dedup-In p [] g i = i
dedup-In p (h ∷ hs) g i = elim (Bool-cases (same_range p h)) [
  | inl same ↦ inr (dedup-In p hs g (rw same at i))
  | inr other ↦ elim (rw other at i) [ inl e ↦ inl e | inr j ↦ inr (dedup-In h hs g j) ]
]

stands_for :
    (p h : DocumentHighlight) → sorts_first p h ≡ true → same_range p h ≡ true → StandsFor p h
stands_for p h le same =
    let e : range_key p.range ≡ range_key h.range =
      ==_sound (range_key p.range) (range_key h.range) same in
    (
      range_key_inj p.range h.range e,
      Preferred-of_key p.kind h.kind (
          lex_leb-last (range_key h.range) (kind_key p.kind) (kind_key h.kind)
            (subst (λ k. lex_leb (k ++ kind_key p.kind ∷ []) (highlight_key h) ≡ true) e le)),
    )

dedup-StandsFor :
    (p : DocumentHighlight) (hs : List DocumentHighlight)
    → Sorted sorts_first (p ∷ hs)
    → (h : DocumentHighlight) → In h hs
    → (g : DocumentHighlight) × In g (p ∷ dedup_from p hs) × StandsFor g h
unfolding dedup_from
dedup-StandsFor p [] s h i = absurd i
dedup-StandsFor p (x ∷ hs) s h i = elim (Bool-cases (same_range p x)) [
  | inl same ↦ rw same (elim i [
    | inl e ↦ (p, inl refl, rw e (stands_for p x (s.0) same))
    | inr j ↦ dedup-StandsFor p hs (Sorted-skip p x hs s) h j
  ])
  | inr other ↦ rw other (elim i [
    | inl e ↦ (x, inr (inl refl), rw e ((refl, Preferred-of_key _ _ (omega arith))))
    | inr j ↦ let (g, k, stands) = dedup-StandsFor x hs (s.1) h j in (g, inr k, stands)
  ])
]

-- the list behind the answer
abbrev pub all_of : Option (List DocumentHighlight) → List DocumentHighlight
all_of none = []
all_of (some l) = l

all_of-unless_empty : (l : List DocumentHighlight) → all_of (unless_empty l) ≡ l
all_of-unless_empty [] = refl
all_of-unless_empty (h ∷ l) = refl

IsFinal : List DocumentHighlight → List DocumentHighlight → Type 0
IsFinal hs out =
    Ascending out
    × ((h : DocumentHighlight) → In h out → In h hs)
    × ((h : DocumentHighlight) → In h hs → (g : DocumentHighlight) × In g out × StandsFor g h)

dedup-IsFinal : (hs : List DocumentHighlight) → Sorted sorts_first hs → IsFinal hs (dedup hs)
unfolding dedup IsFinal
dedup-IsFinal [] s = (tt, λ h i. i, λ h i. absurd i)
dedup-IsFinal (p ∷ hs) s = (
  dedup-Ascending p hs s,
  λ h i. elim i [ inl e ↦ inl e | inr j ↦ inr (dedup-In p hs h j) ],
  λ h i. elim i [
    | inl e ↦ (p, inl refl, rw e ((refl, Preferred-of_key _ _ (omega arith))))
    | inr j ↦ dedup-StandsFor p hs s h j
  ],
)

-- The final highlights ascend by their ranges, so that no range stands twice; each was collected,
-- and for each that was collected one with its range stands there whose kind is the same or comes
-- before it in this order: no kind, writing, reading, text, any other number.
pub finalize_lem :
    (hs : List DocumentHighlight)
    → Ascending (all_of (finalize hs))
      × ((h : DocumentHighlight) → In h (all_of (finalize hs)) → In h hs)
      × ((h : DocumentHighlight)
          → In h hs
          → (g : DocumentHighlight) × In g (all_of (finalize hs)) × StandsFor g h)
unfolding finalize IsFinal
finalize_lem hs =
    let sorted = sort_by sorts_first hs in
    let (ascending, from, stands) = dedup-IsFinal sorted (
      sort_by-Sorted sorts_first (λ a b h. lex_leb-total (highlight_key a) (highlight_key b) h)
        hs) in
    rw (all_of-unless_empty (dedup sorted)) (
      (
        ascending,
        λ h i. In-sort_by sorts_first h hs (from h i),
        λ h i. stands h (sort_by-In sorts_first h hs i),
      ))
