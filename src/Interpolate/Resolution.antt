-- ===== src/Interpolate/Resolution.antt =====
-- How the interpolation symbols are resolved: each of the two from the first document that sets it.
use mathlib.Core.Option
use angularjs_lsp.Prelude.{
  ◌≡◌, refl, sym, ap, ◌∙◌, Bool, true, false, ◌&&◌, Option, none, some, List, [], ◌∷◌, map, arith,
  Eq, ◌==◌, nat_eq, list_eq, if◌then◌else◌, is_some, sort_by, Bool-cases, inl, inr,
}
use angularjs_lsp.DashMap
use angularjs_lsp.DashMap.{DashMap, get-insert, get-remove, Distinct}
use angularjs_lsp.Text.{Str}
use angularjs_lsp.Interpolate.{
  InterpolateStore, Symbols, DetectedEntry, take_first, default_start, default_end, scan, resolved,
  iter_js_detected_for_cache, restore_from_cache, new,
}

-- The first symbol that is set.
abbrev pub first_set : List (Option Str) → Option Str
first_set [] = none
first_set (none ∷ os) = first_set os
first_set (some x ∷ os) = some x

take_first_lem :
    (o x : Option Str) (os : List (Option Str))
    → first_set (take_first o x ∷ os) ≡ first_set (o ∷ x ∷ os)
take_first_lem none none os = refl
take_first_lem none (some x) os = refl
take_first_lem (some o) x os = refl

first_set_of_set :
    (o : Option Str) (os : List (Option Str)) → is_some o ≡ true → first_set (o ∷ os) ≡ o
first_set_of_set none os h = absurd (cc)
first_set_of_set (some o) os h = refl

pair_path : {A B : Type 0} {a a' : A} {b b' : B} → a ≡ a' → b ≡ b' → ◌≡◌ {A = A × B} (a, b) (a', b')
pair_path p q = λ i. (p i, q i)

module _ {Url : Type 0} where
  scan_lem :
      (entries : List (DetectedEntry Url)) (start end_ : Option Str)
      → scan entries (start, end_) ≡ (
        first_set (start ∷ map (λ c. c.1.0) entries),
        first_set (end_ ∷ map (λ c. c.1.1) entries),
      )
  unfolding scan
  scan_lem [] none none = refl
  scan_lem [] none (some b) = refl
  scan_lem [] (some a) none = refl
  scan_lem [] (some a) (some b) = refl
  scan_lem (c ∷ cs) start end_ =
      let start' = take_first start c.1.0 in
      let end' = take_first end_ c.1.1 in
      let starts = map (λ d. d.1.0) cs in
      let ends = map (λ d. d.1.1) cs in
      let spec = pair_path (take_first_lem start c.1.0 starts) (take_first_lem end_ c.1.1 ends) in
      elim (Bool-cases (is_some start' && is_some end')) [
        | inl both ↦
            rw (both, scan)
              (pair_path (sym (first_set_of_set start' starts (ground arith)))
                  (sym (first_set_of_set end' ends (ground arith)))
                ∙ spec)
        | inr more ↦ rw (more, scan) (scan_lem cs start' end' ∙ spec)
      ]

  -- Each of the two interpolation symbols is that of the first document, in the order of the
  -- documents, that sets it, and the default where none does; the loop that stops early loses
  -- neither.
  pub resolved-first :
      (before : Url → Url → Bool) (s : InterpolateStore Url)
      → resolved before s ≡ (
        Option.get_or
            (first_set (map (λ c. c.1.0) (sort_by (λ a b. before a.0 b.0) s.js_detected)))
            default_start,
        Option.get_or
            (first_set (map (λ c. c.1.1) (sort_by (λ a b. before a.0 b.0) s.js_detected)))
            default_end,
      )
  unfolding resolved
  resolved-first before s =
      let spec = scan_lem (sort_by (λ a b. before a.0 b.0) s.js_detected) none none in
      pair_path (ap (λ f. Option.get_or f.0 default_start) spec)
        (ap (λ f. Option.get_or f.1 default_end) spec)

module _ {Url : Type 0} ⦃e : Eq Url⦄ where
  -- the loop that writes the entries of a cache back
  abbrev pub restore_all :
      List (Url × Option Str × Option Str) → InterpolateStore Url → InterpolateStore Url
  restore_all [] s = s
  restore_all ((uri, start, end_) ∷ cs) s = restore_all cs (restore_from_cache uri start end_ s)

  -- What a document sets, with an entry that sets nothing as none.
  abbrev pub symbols_of : InterpolateStore Url → Url → Symbols
  symbols_of s u = DashMap.get_or u (none, none) s.js_detected

  restore_from_cache_lem :
      (uri u : Url) (start end_ : Option Str) (s : InterpolateStore Url)
      → DashMap.get uri s.js_detected ≡ none
      → symbols_of (restore_from_cache uri start end_ s) u
        ≡ (if uri == u then (start, end_) else symbols_of s u)
  unfolding restore_from_cache
  restore_from_cache_lem uri u none none s h = ground (arith, e.beq_iff uri u)
  restore_from_cache_lem uri u (some a) end_ s h = DashMap.get_or-insert uri u _ _ s.js_detected
  restore_from_cache_lem uri u none (some b) s h = DashMap.get_or-insert uri u _ _ s.js_detected

  restore_from_cache-other :
      (uri u : Url) (start end_ : Option Str) (s : InterpolateStore Url)
      → (uri == u) ≡ false
      → DashMap.get u (restore_from_cache uri start end_ s).js_detected
        ≡ DashMap.get u s.js_detected
  unfolding restore_from_cache
  restore_from_cache-other uri u none none s h = refl
  restore_from_cache-other uri u (some a) end_ s h = DashMap.get-insert_ne uri u _ s.js_detected h
  restore_from_cache-other uri u none (some b) s h = DashMap.get-insert_ne uri u _ s.js_detected h

  restore_all_lem :
      (m : DashMap Url Symbols) (t : InterpolateStore Url) (u : Url)
      → Distinct m
      → ((k : Url) → is_some (DashMap.get k m) ≡ true → DashMap.get k t.js_detected ≡ none)
      → symbols_of (restore_all (map (λ c. (c.0, c.1.0, c.1.1)) m) t) u
        ≡ Option.get_or (DashMap.get u m) (symbols_of t u)
  unfolding DashMap.get
  restore_all_lem [] t u d absent = refl
  restore_all_lem ((k, (start, end_)) ∷ m) t u d absent =
      let t' = restore_from_cache k start end_ t in
      restore_all_lem m t' u d.1 (λ j there. elim (Bool-cases (k == j)) [
        | inl same ↦ absurd (ground (arith, e.beq_iff k j))
        | inr other ↦ restore_from_cache-other k j start end_ t other ∙ absent j (rw (other) there)
      ])
      ∙ ap (Option.get_or (DashMap.get u m))
          (restore_from_cache_lem k u start end_ t (absent k (ground (arith, e.beq_iff k k))))
      ∙ ground (arith, e.beq_iff k u)

  -- A store of interpolation symbols with distinct documents that is written to a cache and read
  -- back into a new one sets the same symbols for every document.
  pub restore_all-iter :
      (s : InterpolateStore Url) (u : Url)
      → Distinct s.js_detected
      → symbols_of (restore_all (iter_js_detected_for_cache s) new) u ≡ symbols_of s u
  unfolding iter_js_detected_for_cache new DashMap.get
  restore_all-iter s u d = restore_all_lem s.js_detected new u d (λ k there. refl)
