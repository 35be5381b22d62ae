-- ===== src/Definitions/Position/Smallest.antt =====
-- The least of named sizes, by the step of the search for the symbol at a position.
use mathlib.Core.Option
use angularjs_lsp.Prelude.{
  ℕ, ◌≤◌, ◌≡◌, ◌≢◌, refl, ◌⊎◌, inl, inr, Option, none, some, List, [], ◌∷◌, ◌++◌, arith, nat_eq,
  list_eq, ltb, In, Bool-cases,
}
use angularjs_lsp.Text.{Str}
use angularjs_lsp.Definitions.Search.{Best, better}

-- The search as one pass over named sizes.
unfoldable pub smallest : Best → List (Str × ℕ) → Best
smallest best [] = best
smallest best ((n, z) ∷ cs) = smallest (better best n z) cs

pub smallest-append :
    (best : Best) (cs ds : List (Str × ℕ))
    → smallest best (cs ++ ds) ≡ smallest (smallest best cs) ds
unfolding smallest
smallest-append best [] ds = refl
smallest-append best ((n, z) ∷ cs) ds = smallest-append (better best n z) cs ds

smallest-some : (b : Str × ℕ) (cs : List (Str × ℕ)) → smallest (some b) cs ≢ none
unfolding smallest better
smallest-some b [] h = cc
smallest-some (n, z) ((m, y) ∷ cs) h = elim (Bool-cases (ltb y z)) [
  | inl less ↦ smallest-some (m, y) cs (rw (less, better) at h)
  | inr more ↦ smallest-some (n, z) cs (rw (more, better) at h)
]

pub smallest-none : (cs : List (Str × ℕ)) → smallest none cs ≡ none → cs ≡ []
unfolding smallest better
smallest-none [] h = refl
smallest-none ((n, z) ∷ cs) h = absurd (smallest-some (n, z) cs h)

-- From a best match, the search ends with that one or a candidate, and with no larger size.
smallest-from :
    (b : Str × ℕ) (cs : List (Str × ℕ)) (r : Str × ℕ)
    → smallest (some b) cs ≡ some r
    → ((r ≡ b) ⊎ In r cs) × (r.1 ≤ b.1) × ((c : Str × ℕ) → In c cs → r.1 ≤ c.1)
unfolding smallest better
smallest-from b [] r h = (inl (ground arith), ground arith, λ c i. absurd i)
smallest-from (n, z) ((m, y) ∷ cs) r h = elim (Bool-cases (ltb y z)) [
  | inl less ↦
      let (from, le, all) = smallest-from (m, y) cs r (rw (less, better) at h) in
      (inr from, ground arith, λ c i. elim i [ inl e ↦ ground arith | inr j ↦ all c j ])
  | inr more ↦
      let (from, le, all) = smallest-from (n, z) cs r (rw (more, better) at h) in
      (
        elim from [ inl e ↦ inl e | inr j ↦ inr (inr j) ],
        le,
        λ c i. elim i [ inl e ↦ ground arith | inr j ↦ all c j ],
      )
]

-- The search from nothing ends with a candidate of a smallest size.
pub smallest_lem :
    (cs : List (Str × ℕ)) (r : Str × ℕ)
    → smallest none cs ≡ some r
    → In r cs × ((c : Str × ℕ) → In c cs → r.1 ≤ c.1)
unfolding smallest better
smallest_lem [] r h = absurd (cc)
smallest_lem ((n, z) ∷ cs) r h =
    let (from, le, all) = smallest-from (n, z) cs r h in
    (from, λ c i. elim i [ inl e ↦ ground arith | inr j ↦ all c j ])

pub pair_path : {n m : Str} {y z : ℕ} → n ≡ m → y ≡ z → ◌≡◌ {A = Str × ℕ} (n, y) (m, z)
pair_path p q = λ i. (p i, q i)

pub map-none : {A B : Type 0} (f : A → B) (o : Option A) → Option.map f o ≡ none → o ≡ none
map-none f none h = refl
map-none f (some a) h = absurd (cc)

pub map-some :
    {A B : Type 0} (f : A → B) (o : Option A) {b : B}
    → Option.map f o ≡ some b
    → (a : A) × (o ≡ some a) × (f a ≡ b)
map-some f none h = absurd (cc)
map-some f (some a) h = (a, refl, ground arith)
