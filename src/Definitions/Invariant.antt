-- ===== src/Definitions/Invariant.antt =====
-- The invariant of one table of the definition store, and what keeps it.
use angularjs_lsp.Prelude.{
  ◌≡◌, ◌≢◌, sym, ap, ◌∙◌, ◌⊎◌, inl, inr, Bool, true, false, not, List, [], ◌∷◌, ◌++◌, arith, Eq,
  ◌==◌, nat_eq, list_eq, any, retain, contains, set_insert, In, In-append, In-retain, contains-In,
  In-set_insert, In-set_insert_self, Bool-cases, ==_refl, ==_sound,
}
use angularjs_lsp.DashMap
use angularjs_lsp.DashMap.{DashMap, get-insert, get_or-insert, get_or-remove, get_or-touch}
use angularjs_lsp.Text.{Str}
use angularjs_lsp.Definitions.Table.{
  NoEmpty, NoRepeat, purge_all, get_or-purge_all, purge_all-NoEmpty, purge_all-Distinct, retain_all,
  NoRepeat-retain, NoRepeat-concat,
}

append-ne-nil : {A : Type 0} (xs : List A) (a : A) → xs ++ a ∷ [] ≢ []
append-ne-nil [] a h = cc
append-ne-nil (x ∷ xs) a h = cc

module _ {A Url : Type 0} ⦃e : Eq Url⦄ (name_of : A → Str) (uri_of : A → Url)
    (same : A → A → Bool) where
  -- Every entry stands under its own name and is indexed under its document; no name holds an empty
  -- list; no entry repeats another.
  pub record IsTable (docs : DashMap Url (List Str)) (m : DashMap Str (List A)) : Type 0 where
    pub named : (n : Str) (a : A) → In a (DashMap.get_or n [] m) → name_of a ≡ n
    pub indexed :
        (n : Str) (a : A) → In a (DashMap.get_or n [] m) → In n (DashMap.get_or (uri_of a) [] docs)
    pub nonempty : NoEmpty m
    pub distinct : DashMap.Distinct m
    pub unrepeated : (n : Str) → NoRepeat same (DashMap.get_or n [] m)

  pub IsTable-empty : IsTable [] []
  unfolding DashMap.get
  IsTable-empty = record {
    named = λ n a h. absurd h;
    indexed = λ n a h. absurd h;
    nonempty = λ n h. cc;
    distinct = tt;
    unrepeated = λ n. tt;
  }

  -- A document's set of names only grows by an insertion.
  In-update :
      (n name : Str) (u uri : Url) (docs : DashMap Url (List Str))
      → In n (DashMap.get_or u [] docs)
      → In n (DashMap.get_or u [] (DashMap.update uri [] (set_insert name) docs))
  In-update n name u uri docs h = elim (Bool-cases (uri == u)) [
    | inl p ↦
        rw (get_or-insert uri u [] (set_insert name (DashMap.get_or uri [] docs)) docs, p)
          (In-set_insert name n (DashMap.get_or uri [] docs) (rw (==_sound uri u p) h))
    | inr o ↦ rw (get_or-insert uri u [] (set_insert name (DashMap.get_or uri [] docs)) docs, o) h
  ]

  pub IsTable-grow :
      {docs : DashMap Url (List Str)} {m : DashMap Str (List A)} (name : Str) (uri : Url)
      → IsTable docs m
      → IsTable (DashMap.update uri [] (set_insert name) docs) m
  IsTable-grow {docs} name uri t = record {
    named = t.named;
    indexed = λ n a h. In-update n name (uri_of a) uri docs (t.indexed n a h);
    nonempty = t.nonempty;
    distinct = t.distinct;
    unrepeated = t.unrepeated;
  }

  -- Writing back what stands under a name, if something does.
  pub IsTable-touch :
      {docs : DashMap Url (List Str)} {m : DashMap Str (List A)} (name : Str) (p : A → Bool)
      → any p (DashMap.get_or name [] m) ≡ true
      → IsTable docs m
      → IsTable docs (DashMap.insert name (DashMap.get_or name [] m) m)
  IsTable-touch {m} name p h t = record {
    named = λ n a i. t.named n a (rw (get_or-touch name n [] m) at i);
    indexed = λ n a i. t.indexed n a (rw (get_or-touch name n [] m) at i);
    nonempty = λ n. ground (arith, get-insert name n (DashMap.get_or name [] m) m, t.nonempty n);
    distinct = DashMap.insert-Distinct name (DashMap.get_or name [] m) m t.distinct;
    unrepeated = λ n. rw (get_or-touch name n [] m) (t.unrepeated n);
  }

  -- What stands under a name after an entry is pushed.
  In-push :
      (n name : Str) (a b : A) (m : DashMap Str (List A))
      → In b (DashMap.get_or n [] (DashMap.insert name (DashMap.get_or name [] m ++ a ∷ []) m))
      → In b (DashMap.get_or n [] m) ⊎ ((b ≡ a) × (name ≡ n))
  In-push n name a b m i = elim (Bool-cases (name == n)) [
    | inr o ↦ inl (rw (get_or-insert name n [] (DashMap.get_or name [] m ++ a ∷ []) m, o) at i)
    | inl p ↦
        let same_name = ==_sound name n p in
        elim (In-append b (DashMap.get_or name [] m) (a ∷ [])
          (rw (get_or-insert name n [] (DashMap.get_or name [] m ++ a ∷ []) m, p) at i)) [
            | inl old ↦ inl (rw (← same_name) old)
            | inr new ↦ inr (ground arith, same_name)
          ]
  ]

  In-update_self :
      (n : Str) (uri : Url) (docs : DashMap Url (List Str))
      → In n (DashMap.get_or uri [] (DashMap.update uri [] (set_insert n) docs))
  In-update_self n uri docs =
      rw (get_or-insert uri uri [] (set_insert n (DashMap.get_or uri [] docs)) docs, ==_refl uri)
        (In-set_insert_self n (DashMap.get_or uri [] docs))

  pub IsTable-push :
      {docs : DashMap Url (List Str)} {m : DashMap Str (List A)} (a : A)
      → any (λ b. same b a) (DashMap.get_or (name_of a) [] m) ≡ false
      → IsTable docs m
      → IsTable
          (DashMap.update (uri_of a) [] (set_insert (name_of a)) docs)
          (DashMap.insert (name_of a) (DashMap.get_or (name_of a) [] m ++ a ∷ []) m)
  IsTable-push {docs} {m} a h t =
      let l = DashMap.get_or (name_of a) [] m ++ a ∷ [] in
      let g = λ (n : Str). get_or-insert (name_of a) n [] l m in
      record {
        named = λ n b i. elim (In-push n (name_of a) a b m i) [
          | inl old ↦ t.named n b old
          | inr (e, same_name) ↦ ap name_of e ∙ same_name
        ];
        indexed = λ n b i. elim (In-push n (name_of a) a b m i) [
          | inl old ↦ In-update n (name_of a) (uri_of b) (uri_of a) docs (t.indexed n b old)
          | inr (q, same_name) ↦ rw (q, ← same_name) (In-update_self (name_of a) (uri_of a) docs)
        ];
        nonempty = λ n. ground (
          arith,
          get-insert (name_of a) n l m,
          t.nonempty n,
          append-ne-nil (DashMap.get_or (name_of a) [] m) a,
        );
        distinct = DashMap.insert-Distinct (name_of a) l m t.distinct;
        unrepeated = λ n. elim (Bool-cases (name_of a == n)) [
          | inl p ↦
              rw (g n, p)
                (NoRepeat-concat same (DashMap.get_or (name_of a) [] m) a (t.unrepeated (name_of a))
                  h)
          | inr o ↦ rw (g n, o) (t.unrepeated n)
        ];
      }

  -- An entry under a name that a document did not contribute is of another document.
  elsewhere :
      {docs : DashMap Url (List Str)} {m : DashMap Str (List A)} (uri : Url)
      → IsTable docs m
      → (n : Str) (a : A) → contains (DashMap.get_or uri [] docs) n ≡ false
      → In a (DashMap.get_or n [] m)
      → not (uri_of a == uri) ≡ true
  elsewhere {docs} uri t n a c i = elim (Bool-cases (uri_of a == uri)) [
    | inr o ↦ rw o
    | inl p ↦
        let here = contains-In n (DashMap.get_or (uri_of a) [] docs) (t.indexed n a i) in
        absurd (ground (arith, ==_sound (uri_of a) uri p))
  ]

  -- What stands under a name after the names of a document are purged of its entries.
  pub get_or-purge_document :
      {docs : DashMap Url (List Str)} {m : DashMap Str (List A)} (uri : Url)
      → IsTable docs m
      → (n : Str)
      → DashMap.get_or n [] (purge_all (λ a. not (uri_of a == uri)) (DashMap.get_or uri [] docs) m)
        ≡ retain (λ a. not (uri_of a == uri)) (DashMap.get_or n [] m)
  get_or-purge_document {docs} {m} uri t n =
      elim (Bool-cases (contains (DashMap.get_or uri [] docs) n)) [
        | inl c ↦
            rw (get_or-purge_all (λ a. not (uri_of a == uri)) (DashMap.get_or uri [] docs) n m, c)
        | inr c ↦
            rw (get_or-purge_all (λ a. not (uri_of a == uri)) (DashMap.get_or uri [] docs) n m, c)
              (sym (
                retain_all (λ a. not (uri_of a == uri)) (DashMap.get_or n [] m)
                  (λ a i. elsewhere uri t n a c i)))
      ]

  other_uri : (a : A) (uri : Url) → not (uri_of a == uri) ≡ true → (uri == uri_of a) ≡ false
  other_uri a uri h = ground (arith, e.beq_iff (uri_of a) uri, e.beq_iff uri (uri_of a))

  pub IsTable-purge_document :
      {docs : DashMap Url (List Str)} {m : DashMap Str (List A)} (uri : Url)
      → IsTable docs m
      → IsTable
          (DashMap.remove uri docs)
          (purge_all (λ a. not (uri_of a == uri)) (DashMap.get_or uri [] docs) m)
  IsTable-purge_document {docs} {m} uri t =
      let keep = λ (a : A). not (uri_of a == uri) in
      let names = DashMap.get_or uri [] docs in
      let g = get_or-purge_document uri t in
      record {
        named = λ n a i. t.named n a (In-retain a keep (DashMap.get_or n [] m) (rw (g n) at i)).0;
        indexed = λ n a i.
            let (old, kept) = In-retain a keep (DashMap.get_or n [] m) (rw (g n) at i) in
            rw (get_or-remove uri (uri_of a) [] docs, other_uri a uri kept) (t.indexed n a old);
        nonempty = purge_all-NoEmpty keep names m t.nonempty;
        distinct = purge_all-Distinct keep names m t.distinct;
        unrepeated =
            λ n. rw (g n) (NoRepeat-retain same keep (DashMap.get_or n [] m) (t.unrepeated n));
      }
