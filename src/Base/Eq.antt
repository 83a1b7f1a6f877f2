-- ===== src/Base/Eq.antt =====
-- Equality tests as an interface: the key types of the program's maps have an instance each.
use Prim.Native.Nat.{ℕ}
use Prim.Native.String.{String}
use text.Mathlib.Text.{◌==◌ as str_eq}
use text.Mathlib.TextEquality.{eq_iff}
use mathlib.Core.Path.{◌≡◌, refl, ap}
use mathlib.Core.Logic.{◌↔◌, ◌≢◌}
use mathlib.Core.Bool.{Bool, true, false}
use native.Mathlib.Omega.{arith}
use rediqueue.Base.Tests.{nat_beq}

-- A test that decides whether two keys are the same.
pub record Equality {ℓ} (A : Type ℓ) : Type ℓ where
  pub beq : A → A → Bool
  pub beq_iff : (x y : A) → (beq x y ≡ true) ↔ (x ≡ y)

module _ {ℓ} {A : Type ℓ} ⦃eq : Equality A⦄ where
  infix 50 ◌==◌
  abbrev pub ◌==◌ : A → A → Bool
  a == b = eq.beq a b

  pub beq_refl : (a : A) → (a == a) ≡ true
  beq_refl a = (eq.beq_iff a a).1 refl

instance abbrev pub string_eq : Equality String
string_eq = record { beq = str_eq; beq_iff = eq_iff }

pub nat_beq_iff : (a b : ℕ) → (nat_beq a b ≡ true) ↔ (a ≡ b)
nat_beq_iff a b = ground arith

instance abbrev pub nat_eq : Equality ℕ
nat_eq = record { beq = nat_beq; beq_iff = nat_beq_iff }

pub differ {ℓ} : {A : Type ℓ} ⦃e : Equality A⦄ → (a b : A) → (a == b) ≡ false → a ≢ b
differ a b apart same = ground (arith, beq_refl b, ap (λ c. c == b) same, apart)
