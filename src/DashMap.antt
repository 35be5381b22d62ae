-- ===== src/DashMap.antt =====
-- A hash map with unique keys, as the program uses `DashMap` and `HashMap`: an association list
-- in the order of one iteration. Statements about iterations hold for every order of the entries.
use mathlib.Core.Option
use angularjs_lsp.Prelude.{
  ◌≡◌, refl, inl, inr, Bool, false, Option, none, some, List, [], ◌∷◌, arith, Eq, ◌==◌, ==_refl,
  if◌then◌else◌, Bool-cases, In, is_some,
}

abbrev pub DashMap : Type 0 → Type 0 → Type 0
DashMap K V = List (K × V)

module _ {K V : Type 0} ⦃e : Eq K⦄ where
  unfoldable pub get : K → DashMap K V → Option V
  get k [] = none
  get k ((j, v) ∷ m) = let rest = get k m in if j == k then some v else rest

  unfoldable pub insert : K → V → DashMap K V → DashMap K V
  insert k v [] = (k, v) ∷ []
  insert k v ((j, w) ∷ m) = let rest = insert k v m in if j == k then (k, v) ∷ m else (j, w) ∷ rest

  unfoldable pub remove : K → DashMap K V → DashMap K V
  remove k [] = []
  remove k ((j, w) ∷ m) = let rest = remove k m in if j == k then rest else (j, w) ∷ rest

  -- `get(k).unwrap_or(d)`, and what `entry(k).or_insert(d)` shows
  abbrev pub get_or : K → V → DashMap K V → V
  get_or k d m = Option.get_or (get k m) d

  -- `entry(k).or_insert(d)`, then a change of the value
  abbrev pub update : K → V → (V → V) → DashMap K V → DashMap K V
  update k d f m = insert k (f (get_or k d m)) m

  abbrev pub contains_key : K → DashMap K V → Bool
  contains_key k m = is_some (get k m)

  -- No key stands twice.
  abbrev pub Distinct : DashMap K V → Type 0
  Distinct [] = Unit
  Distinct ((k, v) ∷ m) = (get k m ≡ none) × Distinct m

  pub get-insert :
      (k j : K) (v : V) (m : DashMap K V)
      → get j (insert k v m) ≡ (if k == j then some v else get j m)
  unfolding get insert
  get-insert k j v [] = refl
  get-insert k j v ((i, w) ∷ m) =
      ground (arith, e.beq_iff k j, e.beq_iff i k, e.beq_iff i j, get-insert k j v m)

  pub get-remove :
      (k j : K) (m : DashMap K V) → get j (remove k m) ≡ (if k == j then none else get j m)
  unfolding get remove
  get-remove k j [] = ground arith
  get-remove k j ((i, w) ∷ m) =
      ground (arith, e.beq_iff k j, e.beq_iff i k, e.beq_iff i j, get-remove k j m)

  pub get-insert_self : (k : K) (v : V) (m : DashMap K V) → get k (insert k v m) ≡ some v
  get-insert_self k v m = rw (get-insert, ==_refl)

  pub get-insert_ne :
      (k j : K) (v : V) (m : DashMap K V) → (k == j) ≡ false → get j (insert k v m) ≡ get j m
  get-insert_ne k j v m h = rw (get-insert, h)

  pub get-remove_self : (k : K) (m : DashMap K V) → get k (remove k m) ≡ none
  get-remove_self k m = rw (get-remove, ==_refl)

  pub get_or-insert :
      (k j : K) (d v : V) (m : DashMap K V)
      → get_or j d (insert k v m) ≡ (if k == j then v else get_or j d m)
  get_or-insert k j d v m = ground (arith, get-insert k j v m)

  pub get_or-remove :
      (k j : K) (d : V) (m : DashMap K V)
      → get_or j d (remove k m) ≡ (if k == j then d else get_or j d m)
  get_or-remove k j d m = ground (arith, get-remove k j m)

  -- Writing back what stands under a key changes no reading.
  pub get_or-touch :
      (k j : K) (d : V) (m : DashMap K V) → get_or j d (insert k (get_or k d m) m) ≡ get_or j d m
  get_or-touch k j d m = ground (arith, e.beq_iff k j, get-insert k j (get_or k d m) m)

  pub remove_absent : (k : K) (m : DashMap K V) → get k m ≡ none → remove k m ≡ m
  unfolding get remove
  remove_absent k [] h = refl
  remove_absent k ((i, w) ∷ m) h = ground (arith, remove_absent k m)

  pub insert-Distinct : (k : K) (v : V) (m : DashMap K V) → Distinct m → Distinct (insert k v m)
  unfolding insert get
  insert-Distinct k v [] h = (refl, tt)
  insert-Distinct k v ((i, w) ∷ m) h =
      ground (arith, e.beq_iff i k, e.beq_iff k i, insert-Distinct k v m h.1, get-insert k i v m)

  pub remove-Distinct : (k : K) (m : DashMap K V) → Distinct m → Distinct (remove k m)
  unfolding remove get
  remove-Distinct k [] h = h
  remove-Distinct k ((i, w) ∷ m) h =
      ground (arith, e.beq_iff i k, remove-Distinct k m h.1, get-remove k i m)

  -- An iteration meets an entry exactly when a lookup of its key finds it.
  pub In-of_get : (k : K) (v : V) (m : DashMap K V) → get k m ≡ some v → In (k, v) m
  unfolding get
  In-of_get k v [] h = absurd (cc)
  In-of_get k v ((i, w) ∷ m) h = elim (Bool-cases (i == k)) [
    | inl p ↦ inl (ground (arith, e.beq_iff i k))
    | inr n ↦ inr (In-of_get k v m (ground arith))
  ]

  pub get_of_In : (k : K) (v : V) (m : DashMap K V) → Distinct m → In (k, v) m → get k m ≡ some v
  unfolding get
  get_of_In k v [] d h = absurd h
  get_of_In k v ((i, w) ∷ m) d (inl p) = ground (arith, e.beq_iff i k)
  get_of_In k v ((i, w) ∷ m) d (inr h) = elim (Bool-cases (i == k)) [
    | inl p ↦ absurd (ground (arith, e.beq_iff i k, get_of_In k v m d.1 h))
    | inr n ↦ rw n (get_of_In k v m d.1 h)
  ]

pub ruleset map_laws = (get-insert, get-remove)
