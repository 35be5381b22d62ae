-- ===== src/Config/PathMatcher.antt =====
-- src/config/path_matcher.rs: which files are analysed. `glob`, `build` and `is_match` are those of
-- the glob library, `show` its error messages.
use angularjs_lsp.Prelude.{
  String, ◌≡◌, ◌≢◌, refl, sym, ◌∙◌, ap, ◌⊎◌, inl, inr, Bool, true, false, not, ◌&&◌, ◌||◌, Option,
  none, some, List, [], ◌∷◌, ◌++◌, arith, if◌then◌else◌, any, is_empty, In,
}
use mathlib.Core.Path.{subst}
use angularjs_lsp.Text.{Str, codes}

pub record PathMatcher (GlobSet : Type 0) : Type 0 where
  pub include : Option GlobSet
  pub exclude : GlobSet

abbrev pub with_cause : String → Str → Str → Str
with_cause what pattern cause = codes what ++ (pattern ++ (codes "': " ++ cause))

module _ {Glob Error : Type 0} (show : Error → Str) where
  -- the two loops that compile the patterns; the first error ends the function
  unfoldable pub compile : String → (Str → Error ⊎ Glob) → List Str → Str ⊎ List Glob
  compile what glob [] = inr []
  compile what glob (pattern ∷ patterns) = elim (glob pattern) [
    | inl e ↦ inl (with_cause what pattern (show e))
    | inr g ↦ elim (compile what glob patterns) [ inl e ↦ inl e | inr gs ↦ inr (g ∷ gs) ]
  ]

module _ {Glob GlobSet Error : Type 0} (show : Error → Str) where
  unfoldable pub build_set :
      String
      → String
      → (Str → Error ⊎ Glob)
      → (List Glob → Error ⊎ GlobSet)
      → List Str
      → Str ⊎ GlobSet
  unfolding compile
  build_set invalid failed glob build patterns = elim (compile show invalid glob patterns) [
    | inl e ↦ inl e
    | inr globs ↦ elim (build globs) [ inl e ↦ inl (codes failed ++ show e) | inr set ↦ inr set ]
  ]

  unfoldable pub new :
      (Str → Error ⊎ Glob)
      → (List Glob → Error ⊎ GlobSet)
      → List Str
      → List Str
      → Str ⊎ PathMatcher GlobSet
  unfolding build_set
  new glob build include exclude =
      let include_set : Str ⊎ Option GlobSet =
        if is_empty include
        then inr none
        else elim (build_set "Invalid include pattern '" "Failed to build include set: " glob build
            include) [ inl e ↦ inl e | inr set ↦ inr (some set) ] in
      elim include_set [
        | inl e ↦ inl e
        | inr set ↦
            elim (build_set "Invalid exclude pattern '" "Failed to build exclude set: " glob build
              exclude) [
                | inl e ↦ inl e
                | inr exclude_set ↦ inr (record { include = set; exclude = exclude_set })
              ]
      ]

module _ {GlobSet : Type 0} (is_match : GlobSet → Str → Bool) where
  unfoldable pub should_include : PathMatcher GlobSet → Str → Bool
  should_include m relative_path =
      if is_match m.exclude relative_path
      then false
      else elim m.include [ some set ↦ is_match set relative_path | none ↦ true ]

  unfoldable pub should_traverse_dir : PathMatcher GlobSet → Str → Bool
  should_traverse_dir m relative_path = not (is_match m.exclude relative_path)

-- What the library promises: `matches` tells what one glob matches, and a set that is built of globs
-- matches what one of them matches.
⊎-cases : {A B : Type 0} (o : A ⊎ B) → ((a : A) × (o ≡ inl a)) ⊎ ((b : B) × (o ≡ inr b))
⊎-cases (inl a) = inl (a, refl)
⊎-cases (inr b) = inr (b, refl)

module _ {Glob GlobSet Error : Type 0} (show : Error → Str) (glob : Str → Error ⊎ Glob)
    (build : List Glob → Error ⊎ GlobSet) (is_match : GlobSet → Str → Bool)
    (matches : Glob → Str → Bool) where
  abbrev pub SetsMatch : Type 0
  SetsMatch =
      (gs : List Glob) (set : GlobSet)
      → build gs ≡ inr set
      → (p : Str) → is_match set p ≡ any (λ g. matches g p) gs

  -- The patterns compile to these globs.
  abbrev pub Globs : List Str → List Glob → Type 0
  Globs [] [] = Unit
  Globs (p ∷ ps) (g ∷ gs) = (glob p ≡ inr g) × Globs ps gs
  Globs _ _ = ⊥

  abbrev pub pattern_matches : Str → Str → Bool
  pattern_matches p pattern = elim (glob pattern) [ inl e ↦ false | inr g ↦ matches g p ]

  -- A set is built of the globs of the patterns.
  abbrev pub Builds : List Str → Type 0
  Builds ps = (gs : List Glob) × (set : GlobSet) × Globs ps gs × (build gs ≡ inr set)

  -- The message is that of a pattern that does not compile, or of a set that is not built.
  abbrev pub Fails : String → String → List Str → Str → Type 0
  Fails invalid failed ps message =
      ((p : Str) × (e : Error) × In p ps
        × (glob p ≡ inl e)
        × (message ≡ with_cause invalid p (show e)))
      ⊎ ((gs : List Glob) × (e : Error) × Globs ps gs
          × (build gs ≡ inl e)
          × (message ≡ codes failed ++ show e))

  compiled :
      (what : String) (ps : List Str) (gs : List Glob)
      → compile show what glob ps ≡ inr gs
      → Globs ps gs × ((p : Str) → any (λ g. matches g p) gs ≡ any (pattern_matches p) ps)
  unfolding compile
  compiled what [] [] h = (tt, λ p. refl)
  compiled what [] (g ∷ gs) h = absurd (ground arith)
  compiled what (x ∷ ps) [] h = elim (⊎-cases (glob x)) [
    | inl (e, bad) ↦ absurd (ground arith)
    | inr (g, good) ↦ elim (⊎-cases (compile show what glob ps)) [
      | inl (m, failed) ↦ absurd (ground arith)
      | inr (gs, rest) ↦ absurd (ground arith)
    ]
  ]
  compiled what (x ∷ ps) (g ∷ gs) h = elim (⊎-cases (glob x)) [
    | inl (e, bad) ↦ absurd (ground arith)
    | inr (f, good) ↦ elim (⊎-cases (compile show what glob ps)) [
      | inl (m, failed) ↦ absurd (ground arith)
      | inr (fs, rest) ↦
          let first : f ≡ g = ground arith in
          let others : fs ≡ gs = ground arith in
          let (globs, same) = compiled what ps gs (rest ∙ ap inr others) in
          ((good ∙ ap inr first, globs), λ p. ground (arith, same p))
    ]
  ]

  uncompiled :
      (what : String) (ps : List Str) (message : Str)
      → compile show what glob ps ≡ inl message
      → (p : Str) × (e : Error) × In p ps
        × (glob p ≡ inl e)
        × (message ≡ with_cause what p (show e))
  unfolding compile
  uncompiled what [] message h = absurd (ground arith)
  uncompiled what (x ∷ ps) message h = elim (⊎-cases (glob x)) [
    | inl (e, bad) ↦ (x, e, inl refl, bad, ground arith)
    | inr (g, good) ↦ elim (⊎-cases (compile show what glob ps)) [
      | inl (m, failed) ↦
          let (p, e, i, bad, same) = uncompiled what ps m failed in (p, e, inr i, bad, ground arith)
      | inr (gs, rest) ↦ absurd (ground arith)
    ]
  ]

  set_built :
      (invalid failed : String) (ps : List Str) (set : GlobSet)
      → SetsMatch
      → build_set show invalid failed glob build ps ≡ inr set
      → Builds ps × ((p : Str) → is_match set p ≡ any (pattern_matches p) ps)
  unfolding build_set
  set_built invalid failed ps set sets h = elim (⊎-cases (compile show invalid glob ps)) [
    | inl (m, bad) ↦ absurd (ground arith)
    | inr (gs, good) ↦ elim (⊎-cases (build gs)) [
      | inl (e, bad) ↦ absurd (ground arith)
      | inr (set', built) ↦
          let same : set' ≡ set = ground arith in
          let (globs, all) = compiled invalid ps gs good in
          ((gs, set, globs, built ∙ ap inr same), λ p. sets gs set (built ∙ ap inr same) p ∙ all p)
    ]
  ]

  set_failed :
      (invalid failed : String) (ps : List Str) (message : Str)
      → build_set show invalid failed glob build ps ≡ inl message
      → Fails invalid failed ps message
  unfolding build_set
  set_failed invalid failed ps message h = elim (⊎-cases (compile show invalid glob ps)) [
    | inl (m, bad) ↦
        let (p, e, i, at, same) = uncompiled invalid ps m bad in inl (p, e, i, at, ground arith)
    | inr (gs, good) ↦ elim (⊎-cases (build gs)) [
      | inl (e, bad) ↦ inr (gs, e, (compiled invalid ps gs good).0, bad, ground arith)
      | inr (set, built) ↦ absurd (ground arith)
    ]
  ]

  -- A matcher is made of patterns that build, and tells which paths are included; else the message
  -- is that of the patterns to include, where there are any, or of the excluded ones.
  abbrev pub Describes : List Str → List Str → Str ⊎ PathMatcher GlobSet → Type 0
  Describes include exclude (inr m) =
      ((include ≡ []) ⊎ Builds include)
      × Builds exclude
      × ((p : Str)
          → should_include is_match m p ≡ (
              not (any (pattern_matches p) exclude)
              && (is_empty include || any (pattern_matches p) include)))
  Describes include exclude (inl message) =
      ((include ≢ [])
        × Fails "Invalid include pattern '" "Failed to build include set: " include message)
      ⊎ (((include ≡ []) ⊎ Builds include)
          × Fails "Invalid exclude pattern '" "Failed to build exclude set: " exclude message)

  -- If a set that is built matches exactly the paths that one of its globs matches, then either a
  -- matcher is made, of patterns that compile and sets that build, and a path is included exactly
  -- when it matches no excluded pattern and, where patterns to include are given, one of them; or
  -- the message is that of a pattern that does not compile or of a set that is not built, of the
  -- patterns to include where there are any, and of the excluded ones where those to include
  -- build.
  pub new-Describes :
      (include exclude : List Str)
      → SetsMatch
      → Describes include exclude (new show glob build include exclude)
  unfolding new should_include
  new-Describes [] exclude sets =
      elim (⊎-cases (
        build_set show "Invalid exclude pattern '" "Failed to build exclude set: " glob build
          exclude)) [
            | inl (m, bad) ↦
                let failed : new show glob build [] exclude ≡ inl m = ground arith in
                subst (Describes [] exclude) (sym failed) (
                  inr (
                    inl refl,
                    set_failed "Invalid exclude pattern '" "Failed to build exclude set: " exclude m
                        bad,
                  ))
            | inr (ex, good) ↦
                let (builds, all) =
                  set_built "Invalid exclude pattern '" "Failed to build exclude set: " exclude ex
                    sets good in
                let made : new show glob build [] exclude
                    ≡ inr (record { include = none; exclude = ex }) =
                  ground arith in
                subst (Describes [] exclude) (sym made)
                  ((inl refl, builds, λ p. ground (arith, all p)))
          ]
  new-Describes (x ∷ xs) exclude sets =
      elim (⊎-cases (
        build_set show "Invalid include pattern '" "Failed to build include set: " glob build
          (x ∷ xs))) [
            | inl (m, bad) ↦
                let failed : new show glob build (x ∷ xs) exclude ≡ inl m = ground arith in
                subst (Describes (x ∷ xs) exclude) (sym failed) (
                  inl (
                    cc,
                    set_failed "Invalid include pattern '" "Failed to build include set: " (x ∷ xs)
                        m bad,
                  ))
            | inr (inc, good) ↦
                let (included, some_of) =
                  set_built "Invalid include pattern '" "Failed to build include set: " (x ∷ xs) inc
                    sets good in
                elim (⊎-cases (
                  build_set show "Invalid exclude pattern '" "Failed to build exclude set: " glob
                    build exclude)) [
                      | inl (m, bad) ↦
                          let failed : new show glob build (x ∷ xs) exclude ≡ inl m =
                            ground arith in
                          subst (Describes (x ∷ xs) exclude) (sym failed) (
                            inr (
                              inr included,
                              set_failed "Invalid exclude pattern '" "Failed to build exclude set: "
                                  exclude m bad,
                            ))
                      | inr (ex, fine) ↦
                          let (builds, all) =
                            set_built "Invalid exclude pattern '" "Failed to build exclude set: "
                              exclude ex sets fine in
                          let made : new show glob build (x ∷ xs) exclude
                              ≡ inr (record { include = some inc; exclude = ex }) =
                            ground arith in
                          subst (Describes (x ∷ xs) exclude) (sym made)
                            ((inr included, builds, λ p. ground (arith, all p, some_of p)))
                    ]
          ]
