-- ===== src/Definitions/Table.antt =====
-- One table of the definition store (its symbols, or its references): the lists under the names,
-- kept in step with the names that each document contributed.
use angularjs_lsp.Prelude.{
  ◌≡◌, ◌≢◌, refl, inl, inr, Bool, true, false, some, List, [], ◌∷◌, ◌++◌, arith, ◌==◌, nat_eq,
  list_eq, list_beq_iff, if◌then◌else◌, any, retain, is_empty, contains, In, retain_idem,
  any-append,
}
use angularjs_lsp.DashMap
use angularjs_lsp.DashMap.{DashMap, get-insert, get-remove, get-insert_self}
use angularjs_lsp.Text.{Str}
use angularjs_lsp.Definitions.{purge}

-- No key holds an empty list.
abbrev pub NoEmpty : {A : Type 0} → DashMap Str (List A) → Type 0
NoEmpty m = (n : Str) → DashMap.get n m ≢ some []

-- No element repeats an earlier one.
abbrev pub NoRepeat : {A : Type 0} → (A → A → Bool) → List A → Type 0
NoRepeat same [] = Unit
NoRepeat same (x ∷ xs) = (any (same x) xs ≡ false) × NoRepeat same xs

is_empty→nil : {A : Type 0} (xs : List A) → is_empty xs ≡ true → xs ≡ []
is_empty→nil [] h = refl
is_empty→nil (x ∷ xs) h = absurd (cc)

-- The purge of several names, one after the other.
unfoldable pub purge_all :
    {A : Type 0} → (A → Bool) → List Str → DashMap Str (List A) → DashMap Str (List A)
purge_all keep [] m = m
purge_all keep (name ∷ names) m = purge_all keep names (purge keep name m)

module _ {A : Type 0} (keep : A → Bool) where
  -- What is kept under a name after a purge.
  pub get_or-purge :
      (name n : Str) (m : DashMap Str (List A))
      → DashMap.get_or n [] (purge keep name m)
        ≡ (if name == n then retain keep (DashMap.get_or n [] m) else DashMap.get_or n [] m)
  unfolding purge
  get_or-purge name n m = ground (
    arith,
    list_beq_iff name n,
    get-insert name n (retain keep (DashMap.get_or name [] m)) m,
    get-remove name n m,
    is_empty→nil (retain keep (DashMap.get_or name [] m)),
  )

  pub purge-NoEmpty :
      (name : Str) (m : DashMap Str (List A)) → NoEmpty m → NoEmpty (purge keep name m)
  unfolding purge
  purge-NoEmpty name m h n = ground (
    arith,
    list_beq_iff name n,
    h n,
    get-insert name n (retain keep (DashMap.get_or name [] m)) m,
    get-remove name n m,
  )

  pub purge-Distinct :
      (name : Str) (m : DashMap Str (List A))
      → DashMap.Distinct m
      → DashMap.Distinct (purge keep name m)
  unfolding purge
  purge-Distinct name m h = ground (
    arith,
    DashMap.insert-Distinct name (retain keep (DashMap.get_or name [] m)) m h,
    DashMap.remove-Distinct name m h,
  )

  -- After the names of a document are purged, each of them keeps what passes.
  pub get_or-purge_all :
      (names : List Str) (n : Str) (m : DashMap Str (List A))
      → DashMap.get_or n [] (purge_all keep names m)
        ≡ (if contains names n then retain keep (DashMap.get_or n [] m) else DashMap.get_or n [] m)
  unfolding purge_all contains
  get_or-purge_all [] n m = refl
  get_or-purge_all (name ∷ names) n m = ground (
    arith,
    get_or-purge_all names n (purge keep name m),
    get_or-purge name n m,
    retain_idem keep (DashMap.get_or n [] m),
  )

  pub purge_all-NoEmpty :
      (names : List Str) (m : DashMap Str (List A)) → NoEmpty m → NoEmpty (purge_all keep names m)
  unfolding purge_all
  purge_all-NoEmpty [] m h = h
  purge_all-NoEmpty (name ∷ names) m h =
      purge_all-NoEmpty names (purge keep name m) (purge-NoEmpty name m h)

  pub purge_all-Distinct :
      (names : List Str) (m : DashMap Str (List A))
      → DashMap.Distinct m
      → DashMap.Distinct (purge_all keep names m)
  unfolding purge_all
  purge_all-Distinct [] m h = h
  purge_all-Distinct (name ∷ names) m h =
      purge_all-Distinct names (purge keep name m) (purge-Distinct name m h)

pub retain_all :
    {A : Type 0} (keep : A → Bool) (xs : List A)
    → ((a : A) → In a xs → keep a ≡ true)
    → retain keep xs ≡ xs
retain_all keep [] h = refl
retain_all keep (x ∷ xs) h = ground (arith, h x (inl refl), retain_all keep xs (λ a i. h a (inr i)))

any-retain :
    {A : Type 0} (p keep : A → Bool) (xs : List A)
    → any p xs ≡ false
    → any p (retain keep xs) ≡ false
any-retain p keep [] h = refl
any-retain p keep (x ∷ xs) h = ground (arith, any-retain p keep xs)

pub NoRepeat-retain :
    {A : Type 0} (same : A → A → Bool) (keep : A → Bool) (xs : List A)
    → NoRepeat same xs
    → NoRepeat same (retain keep xs)
NoRepeat-retain same keep [] h = h
NoRepeat-retain same keep (x ∷ xs) h =
    ground (arith, NoRepeat-retain same keep xs h.1, any-retain (same x) keep xs h.0)

pub NoRepeat-concat :
    {A : Type 0} (same : A → A → Bool) (xs : List A) (a : A)
    → NoRepeat same xs
    → any (λ x. same x a) xs ≡ false
    → NoRepeat same (xs ++ a ∷ [])
NoRepeat-concat same [] a h n = (refl, tt)
NoRepeat-concat same (x ∷ xs) a h n =
    ground (arith, NoRepeat-concat same xs a h.1, any-append (same x) xs (a ∷ []))
