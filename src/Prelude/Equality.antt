-- ===== src/Prelude/Equality.antt =====
-- Equality as an interface: Rust's `PartialEq` where it is derived, which decides equality.
use mathlib.Core.Path.{◌≡◌, refl}
use mathlib.Core.Logic.{◌↔◌, ◌≢◌}
use mathlib.Core.Bool.{Bool, true, false, ◌&&◌}
use mathlib.Core.List.{List, [], ◌∷◌}
use mathlib.Core.Option.{Option, none, some}
use Prim.Native.Nat.{ℕ}
use native.Mathlib.Omega.{arith}
use angularjs_lsp.Prelude.Tests.{nat_beq, nat_beq_iff}

infix 50 ◌==◌
pub record Eq {κ} (T : Type κ) : Type κ where
  pub beq : T → T → Bool
  pub beq_iff : (x y : T) → (beq x y ≡ true) ↔ (x ≡ y)

abbrev pub ◌==◌ {κ} : {T : Type κ} ⦃eq : Eq T⦄ → T → T → Bool
◌==◌ ⦃eq⦄ = eq.beq

module _ {ℓ} {A : Type ℓ} ⦃e : Eq A⦄ where
  pub ==_refl : (a : A) → (a == a) ≡ true
  ==_refl a = (e.beq_iff a a).1 refl

  pub ==_sound : (a b : A) → (a == b) ≡ true → a ≡ b
  ==_sound a b = (e.beq_iff a b).0

  pub ==_ne : (a b : A) → a ≢ b → (a == b) ≡ false
  ==_ne a b h = ground (arith, e.beq_iff a b)

  unfoldable pub list_beq : List A → List A → Bool
  list_beq [] [] = true
  list_beq (x ∷ xs) (y ∷ ys) = (x == y) && list_beq xs ys
  list_beq [] (y ∷ ys) = false
  list_beq (x ∷ xs) [] = false

  pub list_beq_iff : (xs ys : List A) → (list_beq xs ys ≡ true) ↔ (xs ≡ ys)
  unfolding list_beq
  list_beq_iff [] [] = ground arith
  list_beq_iff (x ∷ xs) (y ∷ ys) = ground (arith, e.beq_iff x y, list_beq_iff xs ys)
  list_beq_iff [] (y ∷ ys) = ground arith
  list_beq_iff (x ∷ xs) [] = ground arith

  unfoldable pub option_beq : Option A → Option A → Bool
  option_beq none none = true
  option_beq (some a) (some b) = a == b
  option_beq none (some b) = false
  option_beq (some a) none = false

  pub option_beq_iff : (x y : Option A) → (option_beq x y ≡ true) ↔ (x ≡ y)
  unfolding option_beq
  option_beq_iff none none = ground arith
  option_beq_iff (some a) (some b) = ground (arith, e.beq_iff a b)
  option_beq_iff none (some b) = ground arith
  option_beq_iff (some a) none = ground arith

instance abbrev pub list_eq {ℓ} : {A : Type ℓ} ⦃e : Eq A⦄ → Eq (List A)
list_eq = record { beq = list_beq; beq_iff = list_beq_iff }

instance abbrev pub nat_eq : Eq ℕ
nat_eq = record { beq = nat_beq; beq_iff = nat_beq_iff }
