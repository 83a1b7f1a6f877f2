-- ===== src/Base/Int.antt =====
-- Go's `int`: integers over the native numbers, and the wrap-around of 64-bit arithmetic.
use Prim.Native.Nat.{ℕ, suc, ◌+◌, ◌-◌, ◌%◌, ◌^◌, ◌≤◌}
use mathlib.Core.Path.{◌≡◌}
use mathlib.Core.Logic.{◌↔◌}
use mathlib.Core.Bool.{Bool, true, false}
use native.Mathlib.Omega.{arith}
use rediqueue.Base.Tests.{ltb, leb, nat_beq, if◌then◌else◌}
use rediqueue.Base.Eq.{Equality}

-- `negsuc n` is -(n + 1).
pub data ℤ : Type 0 where
  pos : ℕ → ℤ
  negsuc : ℕ → ℤ

abbrev pub pos_part : ℤ → ℕ
pos_part (pos n) = n
pos_part (negsuc n) = 0

abbrev pub neg_part : ℤ → ℕ
neg_part (pos n) = 0
neg_part (negsuc n) = suc n

abbrev pub sub_ℕ : ℕ → ℕ → ℤ
sub_ℕ a b = if leb b a then pos (a - b) else negsuc (b - a - 1)

abbrev pub ltb_ℤ : ℤ → ℤ → Bool
ltb_ℤ a b = ltb (pos_part a + neg_part b) (pos_part b + neg_part a)

infix 50 ◌≤ℤ◌
abbrev pub ◌≤ℤ◌ : ℤ → ℤ → Type 0
a ≤ℤ b = pos_part a + neg_part b ≤ pos_part b + neg_part a

abbrev pub int_beq : ℤ → ℤ → Bool
int_beq (pos a) (pos b) = nat_beq a b
int_beq (negsuc a) (negsuc b) = nat_beq a b
int_beq (pos a) (negsuc b) = false
int_beq (negsuc a) (pos b) = false

pub int_beq_iff : (a b : ℤ) → (int_beq a b ≡ true) ↔ (a ≡ b)
int_beq_iff a b = ground arith

instance abbrev pub int_eq : Equality ℤ
int_eq = record { beq = int_beq; beq_iff = int_beq_iff }

-- The integer that a 64-bit word stands for in two's complement.
abbrev pub of_word : ℕ → ℤ
of_word w = if ltb w (2 ^ 63) then pos w else negsuc (2 ^ 64 - 1 - w)

-- The wrap-around of a result to `int`.
abbrev pub wrap : ℤ → ℤ
wrap (pos n) = of_word (n % 2 ^ 64)
wrap (negsuc n) = of_word (2 ^ 64 - 1 - n % 2 ^ 64)

-- a + b and -a on `int`.
unfoldable pub add_int : ℤ → ℤ → ℤ
add_int a b = wrap (sub_ℕ (pos_part a + pos_part b) (neg_part a + neg_part b))

unfoldable pub neg_int : ℤ → ℤ
neg_int a = wrap (sub_ℕ (neg_part a) (pos_part a))

abbrev pub max_int : ℕ
max_int = 2 ^ 63 - 1

-- The values of `int`.
abbrev pub IsInt : ℤ → Type 0
IsInt a = (pos_part a ≤ 2 ^ 63 - 1) × (neg_part a ≤ 2 ^ 63)

pub add_int_parts :
    (a b : ℤ)
    → pos_part a + pos_part b ≤ max_int + (neg_part a + neg_part b)
    → neg_part a + neg_part b ≤ 2 ^ 63 + (pos_part a + pos_part b)
    → pos_part (add_int a b) + neg_part a + neg_part b
      ≡ neg_part (add_int a b) + pos_part a + pos_part b
unfolding add_int
add_int_parts a b h k = ground arith

-- The only value whose negation is not its opposite is the least one.
pub neg_int_parts :
    (a : ℤ)
    → neg_part a ≤ max_int
    → pos_part a ≤ max_int
    → (pos_part (neg_int a) ≡ neg_part a) × (neg_part (neg_int a) ≡ pos_part a)
unfolding neg_int
neg_int_parts a h k = ground arith
