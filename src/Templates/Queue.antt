-- ===== src/Templates/Queue.antt =====
-- src/index/template_store.rs: what an addition of an `ng-include` puts into the queue, and the keys
-- that it is stored under.
use angularjs_lsp.Prelude.{
  arith, ◌++◌, ==_sound, NoRepeat, set_insert-NoRepeat, ◌≡◌, ◌↔◌, ◌⊎◌, inl, inr, sym, true, false,
  List, [], ◌∷◌, Eq, nat_eq, list_eq, In, set_insert, In-set_insert, In-set_insert_self,
  set_insert-In, Bool-cases,
}
use angularjs_lsp.Text.{
  Str, has_char, ends_with, ends_with-split, ends_with-append, after_last-append,
}
use angularjs_lsp.Templates.State.{
  TemplateStore, extract_template_path_from_key, make_ng_include_key,
}
use angularjs_lsp.Templates.Includes.{is_child, queue_children, queue_child_for_reanalysis}
use angularjs_lsp.Templates.Matching.{matches_path}

module _ {Url : Type 0} where
  -- The template path is read back from the key of an ng-include, whatever the parent document, if
  -- the path has no "#".
  pub extract-make_ng_include_key :
      (as_str : Url → Str) (parent_uri : Url) (template_path : Str)
      → has_char b'#' template_path ≡ false
      → extract_template_path_from_key (make_ng_include_key as_str parent_uri template_path)
        ≡ template_path
  unfolding extract_template_path_from_key make_ng_include_key
  extract-make_ng_include_key as_str parent_uri template_path h =
      after_last-append b'#' (as_str parent_uri) template_path h

-- The path is a directory, or nothing, and then "/" and the template's path.
abbrev pub EndsIn : Str → Str → Type 0
EndsIn path template_path = (dir : Str) × (path ≡ dir ++ b'/' ∷ template_path)

matches_path_iff : (path t : Str) → (matches_path path t ≡ true) ↔ EndsIn path t
unfolding matches_path
matches_path_iff path t = (
  λ h. elim (Bool-cases (ends_with path (b'/' ∷ t))) [
    | inl ends ↦ ends_with-split path (b'/' ∷ t) ends
    | inr other ↦ ([], ==_sound path (b'/' ∷ t) (ground arith))
  ],
  λ (dir, e). rw e (let ends = ends_with-append dir (b'/' ∷ t) in ground arith),
)

module _ {Url : Type 0} ⦃e : Eq Url⦄ (path : Url → Str) where
  queue_children-In :
      (file p : Str) (uris pending : List Url) (u : Url)
      → In u (queue_children path file p uris pending)
      → In u pending ⊎ (In u uris × (is_child path file p u ≡ true))
  unfolding queue_children
  queue_children-In file p [] pending u i = inl i
  queue_children-In file p (v ∷ uris) pending u i = elim (Bool-cases (is_child path file p v)) [
    | inl child ↦ elim (queue_children-In file p uris (set_insert v pending) u (rw (child) at i)) [
      | inl j ↦ elim (set_insert-In v u pending j) [
        | inl same ↦ inr (inl same, rw (same) child)
        | inr old ↦ inl old
      ]
      | inr later ↦ inr (inr later.0, later.1)
    ]
    | inr other ↦ elim (queue_children-In file p uris pending u (rw (other) at i)) [
      | inl old ↦ inl old
      | inr later ↦ inr (inr later.0, later.1)
    ]
  ]

  In-queue_children_old :
      (file p : Str) (uris pending : List Url) (u : Url)
      → In u pending
      → In u (queue_children path file p uris pending)
  unfolding queue_children
  In-queue_children_old file p [] pending u i = i
  In-queue_children_old file p (v ∷ uris) pending u i = elim (Bool-cases (is_child path file p v)) [
    | inl child ↦
        rw (child)
          (In-queue_children_old file p uris (set_insert v pending) u (In-set_insert v u pending i))
    | inr other ↦ rw (other) (In-queue_children_old file p uris pending u i)
  ]

  In-queue_children :
      (file p : Str) (uris pending : List Url) (u : Url)
      → In u uris
      → is_child path file p u ≡ true
      → In u (queue_children path file p uris pending)
  unfolding queue_children
  In-queue_children file p [] pending u i h = absurd i
  In-queue_children file p (v ∷ uris) pending u (inl same) h =
      rw (sym same, h)
        (In-queue_children_old file p uris (set_insert u pending) u (In-set_insert_self u pending))
  In-queue_children file p (v ∷ uris) pending u (inr i) h =
      elim (Bool-cases (is_child path file p v)) [
        | inl child ↦ rw (child) (In-queue_children file p uris (set_insert v pending) u i h)
        | inr other ↦ rw (other) (In-queue_children file p uris pending u i h)
      ]

  is_child_iff :
      (file p : Str) (u : Url)
      → (is_child path file p u ≡ true) ↔ (EndsIn (path u) file ⊎ EndsIn (path u) p)
  is_child_iff file p u = (
    λ h. elim (Bool-cases (matches_path (path u) file)) [
      | inl by_name ↦ inl ((matches_path_iff (path u) file).0 by_name)
      | inr other ↦ inr ((matches_path_iff (path u) p).0 (ground arith))
    ],
    λ h. elim h [
      | inl by_name ↦ let m = (matches_path_iff (path u) file).1 by_name in ground arith
      | inr by_path ↦ let m = (matches_path_iff (path u) p).1 by_path in ground arith
    ],
  )

  queue_children-NoRepeat :
      (file p : Str) (uris pending : List Url)
      → NoRepeat pending
      → NoRepeat (queue_children path file p uris pending)
  unfolding queue_children
  queue_children-NoRepeat file p [] pending h = h
  queue_children-NoRepeat file p (v ∷ uris) pending h = elim (Bool-cases (is_child path file p v)) [
    | inl child ↦ rw child (
        queue_children-NoRepeat file p uris (set_insert v pending)
          (set_insert-NoRepeat v pending h))
    | inr other ↦ rw other (queue_children-NoRepeat file p uris pending h)
  ]

  -- If no document is queued twice, then an ng-include queues beside those that were queued
  -- exactly the analysed documents whose path is any directory, "/" and the resolved file name, or
  -- any directory, "/" and the normalized template path, and still none twice.
  pub queue_child_for_reanalysis_iff :
      (resolved_filename normalized_path : Str) (s : TemplateStore Url)
      → NoRepeat s.pending_reanalysis
      → let queued =
          (queue_child_for_reanalysis path resolved_filename normalized_path
            s).pending_reanalysis in
        NoRepeat queued
        × ((u : Url)
            → In u queued ↔ (
                In u s.pending_reanalysis
                ⊎ (In u s.analyzed_html_files
                    × (EndsIn (path u) resolved_filename ⊎ EndsIn (path u) normalized_path))))
  unfolding queue_child_for_reanalysis
  queue_child_for_reanalysis_iff file p s once = (
    queue_children-NoRepeat file p s.analyzed_html_files s.pending_reanalysis once,
    λ u. (
      λ i. elim (queue_children-In file p s.analyzed_html_files s.pending_reanalysis u i) [
        | inl old ↦ inl old
        | inr new ↦ inr (new.0, (is_child_iff file p u).0 (new.1))
      ],
      λ h. elim h [
        | inl old ↦ In-queue_children_old file p s.analyzed_html_files s.pending_reanalysis u old
        | inr new ↦
            In-queue_children file p s.analyzed_html_files s.pending_reanalysis u new.0
              ((is_child_iff file p u).1 (new.1))
      ],
    ),
  )
