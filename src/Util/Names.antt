-- ===== src/Util/Names.antt =====
-- A name that is written in kebab-case and read back is the same name.
use angularjs_lsp.Prelude.{ℕ, ◌≡◌, ◌≢◌, refl, Bool, true, false, [], ◌∷◌, arith}
use angularjs_lsp.Text.{Str}
use angularjs_lsp.Util.{camel_from, camel_to_kebab, kebab_from, kebab_to_camel}

module _ (is_uppercase : ℕ → Bool) (to_lowercase to_uppercase : ℕ → ℕ) where
  -- A dash is no letter of the name, and each capital of it comes back from its small letter.
  abbrev pub IsReversible : Str → Type 0
  IsReversible [] = Unit
  IsReversible (c ∷ s) =
      (c ≢ b'-')
      × (is_uppercase c ≡ true → (to_uppercase (to_lowercase c) ≡ c) × (to_lowercase c ≢ b'-'))
      × IsReversible s

  -- The name does not begin with a capital.
  abbrev pub StartsSmall : Str → Type 0
  StartsSmall [] = Unit
  StartsSmall (c ∷ s) = is_uppercase c ≡ false

  kebab_from-camel_from :
      (s : Str)
      → IsReversible s
      → kebab_from to_uppercase false (camel_from is_uppercase to_lowercase false s) ≡ s
  unfolding kebab_from camel_from
  kebab_from-camel_from [] h = refl
  kebab_from-camel_from (c ∷ s) h = ground (arith, h.1, kebab_from-camel_from s h.2)

  -- A name that does not begin with a capital, has no dash, and whose capitals come back from
  -- their small letters, is read back from its kebab-case as it was.
  pub kebab_to_camel-camel_to_kebab :
      (s : Str)
      → IsReversible s
      → StartsSmall s
      → kebab_to_camel to_uppercase (camel_to_kebab is_uppercase to_lowercase s) ≡ s
  unfolding kebab_to_camel camel_to_kebab
  kebab_to_camel-camel_to_kebab [] h k = refl
  kebab_to_camel-camel_to_kebab (c ∷ s) h k = ground (arith, kebab_from-camel_from s h.2)
