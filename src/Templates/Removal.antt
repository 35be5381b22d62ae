-- ===== src/Templates/Removal.antt =====
-- src/index/template_store.rs: what is forgotten with a document. `as_str` is `Url::to_string`.
use angularjs_lsp.Prelude.{
  ◌≡◌, refl, ◌∙◌, Bool, false, not, Option, none, some, List, [], ◌∷◌, arith, Eq, ◌==◌, nat_eq,
  list_eq, list_beq_iff, if◌then◌else◌, retain, any, inl, inr, Option-cases,
}
use angularjs_lsp.DashMap
use angularjs_lsp.DashMap.{DashMap, Distinct, get-insert, get-remove}
use angularjs_lsp.Text.{Str}
use angularjs_lsp.Util.{normalize_template_path}
use angularjs_lsp.Model.Template.{NgIncludeBinding}
use angularjs_lsp.Templates.State.{TemplateStore}

-- `get_mut(k)` with `retain(|x| x != key)`
unfoldable pub drop_key : Str → Str → DashMap Str (List Str) → DashMap Str (List Str)
drop_key k key m = elim (DashMap.get k m) [
  | none ↦ m
  | some keys ↦ DashMap.insert k (retain (λ x. not (x == key)) keys) m
]

module _ {Url : Type 0} where
  -- the second loop of `clear_ng_include_bindings_for_parent`
  unfoldable pub remove_entries :
      List (Str × NgIncludeBinding Url) → TemplateStore Url → TemplateStore Url
  unfolding drop_key
  remove_entries [] s = s
  remove_entries ((key, binding) ∷ entries) s = remove_entries entries (record s {
    ng_include_by_filename = drop_key binding.resolved_filename key s.ng_include_by_filename;
    ng_include_by_path =
        drop_key (normalize_template_path binding.template_path) key s.ng_include_by_path;
    ng_include_bindings = DashMap.remove key s.ng_include_bindings;
  })

module _ {Url : Type 0} ⦃e : Eq Url⦄ where
  unfoldable pub clear_ng_include_bindings_for_parent : Url → TemplateStore Url → TemplateStore Url
  unfolding remove_entries
  clear_ng_include_bindings_for_parent parent_uri s =
      remove_entries (retain (λ c. c.1.parent_uri == parent_uri) s.ng_include_bindings) s

  unfoldable pub clear_document : (Url → Str) → Url → TemplateStore Url → TemplateStore Url
  unfolding clear_ng_include_bindings_for_parent
  clear_document as_str uri s =
      let cleared = clear_ng_include_bindings_for_parent uri s in
      record cleared { ng_view_bindings = DashMap.remove (as_str uri) cleared.ng_view_bindings }

module _ {Url : Type 0} where
  -- The bindings that are left once some keys are removed.
  get-remove_entries :
      (entries : List (Str × NgIncludeBinding Url)) (s : TemplateStore Url) (k : Str)
      → DashMap.get k (remove_entries entries s).ng_include_bindings
        ≡ (if any (λ c. c.0 == k) entries then none else DashMap.get k s.ng_include_bindings)
  unfolding remove_entries
  get-remove_entries [] s k = refl
  get-remove_entries ((key, binding) ∷ entries) s k =
      let t = record s {
        ng_include_by_filename = drop_key binding.resolved_filename key s.ng_include_by_filename;
        ng_include_by_path =
            drop_key (normalize_template_path binding.template_path) key s.ng_include_by_path;
        ng_include_bindings = DashMap.remove key s.ng_include_bindings;
      } in
      ground (
        arith,
        get-remove_entries entries t k,
        get-remove key k s.ng_include_bindings,
        list_beq_iff key k,
      )

module _ {V : Type 0} where
  -- In a map with distinct keys, a test on entries keeps a key exactly when its value passes.
  any-retain_absent :
      (test : V → Bool) (m : DashMap Str V) (k : Str)
      → DashMap.get k m ≡ none
      → any (λ c. c.0 == k) (retain (λ c. test c.1) m) ≡ false
  unfolding DashMap.get
  any-retain_absent test [] k h = refl
  any-retain_absent test ((j, v) ∷ m) k h = ground (arith, any-retain_absent test m k)

  any-retain_present :
      (test : V → Bool) (m : DashMap Str V) (k : Str) (v : V)
      → Distinct m
      → DashMap.get k m ≡ some v
      → any (λ c. c.0 == k) (retain (λ c. test c.1) m) ≡ test v
  unfolding DashMap.get
  any-retain_present test [] k v d h = absurd (cc)
  any-retain_present test ((j, w) ∷ m) k v d h =
      ground
        (arith, list_beq_iff j k, any-retain_present test m k v d.1, any-retain_absent test m k)

module _ {Url : Type 0} ⦃e : Eq Url⦄ where
  -- Clearing a document removes exactly the ng-include bindings whose parent it is, in a store
  -- whose bindings have distinct keys; every other binding reads as before.
  pub clear_document-includes :
      (as_str : Url → Str) (uri : Url) (s : TemplateStore Url) (k : Str)
      → Distinct s.ng_include_bindings
      → DashMap.get k (clear_document as_str uri s).ng_include_bindings
        ≡ elim (DashMap.get k s.ng_include_bindings) as (λ _. Option (NgIncludeBinding Url)) [
          | none ↦ none
          | some b ↦ if b.parent_uri == uri then none else some b
        ]
  unfolding clear_document clear_ng_include_bindings_for_parent
  clear_document-includes as_str uri s k d =
      let gone = retain (λ c. c.1.parent_uri == uri) s.ng_include_bindings in
      get-remove_entries gone s k ∙ elim (Option-cases (DashMap.get k s.ng_include_bindings)) [
        | inl miss ↦ rw (miss) (ground arith)
        | inr (b, hit) ↦
            rw (hit, any-retain_present (λ c. c.parent_uri == uri) s.ng_include_bindings k b d hit)
              refl
      ]
