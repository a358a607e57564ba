-- ===== src/Prelude/Equality.antt =====
-- Boolean equality as an interface, with its instances for numbers and lists.
use Prim.Native.Nat.{ℕ}
use mathlib.Core.Path.{◌≡◌, refl}
use mathlib.Core.Logic.{◌↔◌}
use mathlib.Core.Bool.{Bool, true, false, ◌&&◌}
use mathlib.Core.List.{List, [], ◌∷◌}
use native.Mathlib.Omega.{arith}
use rmw_fastrtps.Prelude.Tests.{eqb, eqb_iff}

pub record HasTest {ℓ} (A : Type ℓ) : Type ℓ where
  pub test : A → A → Bool
  pub test_iff : (a b : A) → (test a b ≡ true) ↔ (a ≡ b)

infix 50 ◌==◌
abbrev pub ◌==◌ {ℓ} : {A : Type ℓ} ⦃e : HasTest A⦄ → A → A → Bool
◌==◌ ⦃e⦄ = e.test

pub eq_iff {ℓ} : {A : Type ℓ} ⦃e : HasTest A⦄ (a b : A) → ((a == b) ≡ true) ↔ (a ≡ b)
eq_iff ⦃e⦄ = e.test_iff

pub eq_refl {ℓ} : {A : Type ℓ} ⦃e : HasTest A⦄ (a : A) → (a == a) ≡ true
eq_refl a = (eq_iff a a).1 refl

instance abbrev pub nat_eq : HasTest ℕ
nat_eq = record { test = eqb; test_iff = eqb_iff }

module _ {ℓ} {A : Type ℓ} ⦃e : HasTest A⦄ where
  abbrev pub same_list : List A → List A → Bool
  same_list [] [] = true
  same_list (x ∷ xs) (y ∷ ys) = (x == y) && same_list xs ys
  same_list _ _ = false

  pub same_list_iff : (xs ys : List A) → (same_list xs ys ≡ true) ↔ (xs ≡ ys)
  same_list_iff [] [] = ground arith
  same_list_iff [] (y ∷ ys) = ground arith
  same_list_iff (x ∷ xs) [] = ground arith
  same_list_iff (x ∷ xs) (y ∷ ys) = ground (arith, eq_iff x y, same_list_iff xs ys)

instance abbrev pub list_eq {ℓ} : {A : Type ℓ} ⦃e : HasTest A⦄ → HasTest (List A)
list_eq = record { test = same_list; test_iff = same_list_iff }
