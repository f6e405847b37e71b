-- ===== src/Common/Equality.antt =====
-- Python's `==` on the types that the program compares, as an interface with its instances.
use Prim.Native.Nat.{ℕ}
use Prim.Native.String.{String}
use mathlib.Core.Path.{◌≡◌, refl}
use mathlib.Core.Logic.{◌↔◌}
use mathlib.Core.Bool.{Bool, true, false, ◌&&◌}
use mathlib.Core.List.{List, [], ◌∷◌}
use native.Mathlib.Omega.{arith}
use text.Mathlib.Text.{◌==◌ as text_eqb}
use text.Mathlib.TextEquality.{eq_iff}
use open_feishu.Common.Tests.{nat_beq, nat_beq_iff}

-- A test for equality, and that it is one.
pub record Eq {ℓ} (T : Type ℓ) : Type ℓ where
  pub eqb : T → T → Bool
  pub eqb_iff : (x y : T) → (eqb x y ≡ true) ↔ (x ≡ y)

-- The test of `List ℕ`, entry by entry.
unfoldable pub nats_eqb : List ℕ → List ℕ → Bool
nats_eqb [] [] = true
nats_eqb (x ∷ xs) (y ∷ ys) = nat_beq x y && nats_eqb xs ys
nats_eqb _ _ = false

pub nats_eqb_iff : (xs ys : List ℕ) → (nats_eqb xs ys ≡ true) ↔ (xs ≡ ys)
unfolding nats_eqb
nats_eqb_iff [] [] = (λ h. refl, λ h. refl)
nats_eqb_iff [] (y ∷ ys) = (λ h. cc, λ h. cc)
nats_eqb_iff (x ∷ xs) [] = (λ h. cc, λ h. cc)
nats_eqb_iff (x ∷ xs) (y ∷ ys) = ground (arith, nats_eqb_iff xs ys)

-- Python's integers.
pub data ℤ : Type 0 where
  pos : ℕ → ℤ
  negsuc : ℕ → ℤ

abbrev int_eqb : ℤ → ℤ → Bool
int_eqb (pos a) (pos b) = nat_beq a b
int_eqb (negsuc a) (negsuc b) = nat_beq a b
int_eqb _ _ = false

pub int_eqb_iff : (x y : ℤ) → (int_eqb x y ≡ true) ↔ (x ≡ y)
int_eqb_iff (pos a) (pos b) = ground (arith, nat_beq_iff a b)
int_eqb_iff (negsuc a) (negsuc b) = ground (arith, nat_beq_iff a b)
int_eqb_iff (pos a) (negsuc b) = (λ h. cc, λ h. cc)
int_eqb_iff (negsuc a) (pos b) = (λ h. cc, λ h. cc)

-- Texts as code points, keys and names, and numbers.
instance abbrev pub nats_eq : Eq (List ℕ)
nats_eq = record { eqb = nats_eqb; eqb_iff = nats_eqb_iff }

instance abbrev pub string_eq : Eq String
string_eq = record { eqb = text_eqb; eqb_iff = eq_iff }

instance abbrev pub nat_eq : Eq ℕ
nat_eq = record { eqb = nat_beq; eqb_iff = nat_beq_iff }

infix 50 ◌==◌
abbrev pub ◌==◌ {ℓ} : {T : Type ℓ} ⦃eq : Eq T⦄ → T → T → Bool
◌==◌ ⦃eq⦄ x y = eq.eqb x y

instance abbrev pub int_eq : Eq ℤ
int_eq = record { eqb = int_eqb; eqb_iff = int_eqb_iff }
