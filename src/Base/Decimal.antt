-- ===== src/Base/Decimal.antt =====
-- The verb %d of package fmt, and what strconv.Atoi makes of it.
use Prim.Native.Nat.{ℕ, zero, suc, ◌+◌, ◌*◌, ◌/◌, ◌%◌, ◌≤◌, ◌<◌}
use Prim.Native.Char.{Char, code}
use Prim.Native.String.{String, [], ◌∷◌}
use mathlib.Core.Path.{◌≡◌, refl, ap, ◌∙◌}
use mathlib.Core.Logic.{inl, inr}
use mathlib.Core.Bool.{Bool, true, false}
use mathlib.Core.Option.{some}
use native.Mathlib.Omega.{arith}
use rediqueue.Base.Tests.{ltb, nat_beq, if◌then◌else◌, Bool-cases}
use rediqueue.Base.Int.{ℤ, pos, negsuc, IsInt}
use rediqueue.Base.Text.{digits, magnitude, signed, atoi}

abbrev char_of : String → ℕ → Char
char_of [] n = "0"
char_of (c ∷ s) zero = c
char_of (c ∷ s) (suc n) = char_of s n

abbrev pub digit : ℕ → Char
digit = char_of "0123456789"

-- Each round writes the last digit in front of those behind it; more rounds than `n` are enough.
unfoldable pub print_digits : ℕ → ℕ → String → String
print_digits zero n out = out
print_digits (suc f) n out =
    let rest = print_digits f (n / 10) (digit (n % 10) ∷ out) in
    if ltb n 10 then digit (n % 10) ∷ out else rest

unfoldable pub decimal : ℕ → String
unfolding print_digits
decimal n = print_digits (suc n) n ""

unfoldable pub print_int : ℤ → String
unfolding decimal
print_int (pos n) = decimal n
print_int (negsuc n) = "-" ∷ decimal (suc n)

code-digit : (d : ℕ) → d < 10 → code (digit d) ≡ 48 + d
code-digit zero h = refl
code-digit (suc zero) h = refl
code-digit (suc (suc zero)) h = refl
code-digit (suc (suc (suc zero))) h = refl
code-digit (suc (suc (suc (suc zero)))) h = refl
code-digit (suc (suc (suc (suc (suc zero))))) h = refl
code-digit (suc (suc (suc (suc (suc (suc zero)))))) h = refl
code-digit (suc (suc (suc (suc (suc (suc (suc zero))))))) h = refl
code-digit (suc (suc (suc (suc (suc (suc (suc (suc zero)))))))) h = refl
code-digit (suc (suc (suc (suc (suc (suc (suc (suc (suc zero))))))))) h = refl
code-digit (suc (suc (suc (suc (suc (suc (suc (suc (suc (suc d)))))))))) h = absurd (omega arith)

digits-digit : (m n : ℕ) (s : String) → digits m (digit (n % 10) ∷ s) ≡ digits (m * 10 + n % 10) s
unfolding digits
digits-digit m n s = ground (arith, code-digit (n % 10) (omega arith))

digits-print_digits :
    (f n : ℕ) (out : String) → n < f → digits 0 (print_digits f n out) ≡ digits n out
unfolding print_digits
digits-print_digits zero n out h = absurd (omega arith)
digits-print_digits (suc f) n out h = elim (Bool-cases (ltb n 10)) [
  | inl last ↦ rw last (digits-digit 0 n out ∙ ap (λ m. digits m out) (ground (arith, last)))
  | inr more ↦ rw more (
      digits-print_digits f (n / 10) (digit (n % 10) ∷ out) (ground (arith, more, h))
      ∙ digits-digit (n / 10) n out
      ∙ ap (λ m. digits m out) (omega arith))
]

-- Decimal digits only.
abbrev pub AreDigits : String → Type 0
AreDigits [] = Unit
AreDigits (c ∷ s) = (48 ≤ code c) × (code c ≤ 57) × AreDigits s

digit-bounds : (n : ℕ) → (48 ≤ code (digit (n % 10))) × (code (digit (n % 10)) ≤ 57)
digit-bounds n = let e = code-digit (n % 10) (omega arith) in (omega (arith, e), omega (arith, e))

print_digits-AreDigits : (f n : ℕ) (out : String) → AreDigits out → AreDigits (print_digits f n out)
unfolding print_digits
print_digits-AreDigits zero n out h = h
print_digits-AreDigits (suc f) n out h =
    let b = digit-bounds n in
    elim (Bool-cases (ltb n 10)) [
      | inl last ↦ rw last (b.0, b.1, h)
      | inr more ↦ rw more (print_digits-AreDigits f (n / 10) (digit (n % 10) ∷ out) (b.0, b.1, h))
    ]

-- A text of digits alone is read without a sign.
atoi-AreDigits : (s : String) → AreDigits s → atoi s ≡ signed false (magnitude s)
unfolding atoi
atoi-AreDigits [] h = refl
atoi-AreDigits (c ∷ s) (lo, hi, h) = ground (arith, lo, hi)

abbrev filled : String → Bool
filled [] = false
filled (c ∷ s) = true

filled_behind : (f n : ℕ) (out : String) → filled out ≡ true → filled (print_digits f n out) ≡ true
unfolding print_digits
filled_behind zero n out h = h
filled_behind (suc f) n out h = elim (Bool-cases (ltb n 10)) [
  | inl last ↦ rw last refl
  | inr more ↦ rw more (filled_behind f (n / 10) (digit (n % 10) ∷ out) refl)
]

filled_print : (f n : ℕ) (out : String) → filled (print_digits (suc f) n out) ≡ true
unfolding print_digits
filled_print f n out = elim (Bool-cases (ltb n 10)) [
  | inl last ↦ rw last refl
  | inr more ↦ rw more (filled_behind f (n / 10) (digit (n % 10) ∷ out) refl)
]

magnitude-filled : (s : String) → filled s ≡ true → magnitude s ≡ digits 0 s
unfolding magnitude
magnitude-filled [] h = cc
magnitude-filled (c ∷ s) h = refl

magnitude-decimal : (n : ℕ) → magnitude (decimal n) ≡ some n
unfolding decimal digits
magnitude-decimal n =
    magnitude-filled (print_digits (suc n) n "") (filled_print n n "")
    ∙ digits-print_digits (suc n) n "" (omega arith)

pub decimal-AreDigits : (n : ℕ) → AreDigits (decimal n)
unfolding decimal
decimal-AreDigits n = print_digits-AreDigits (suc n) n "" tt

-- Every `int` is read back from its decimal print.
pub atoi-print_int : (i : ℤ) → IsInt i → atoi (print_int i) ≡ some i
unfolding print_int atoi
atoi-print_int (pos n) (hp, hn) =
    atoi-AreDigits (decimal n) (decimal-AreDigits n)
    ∙ ap (signed false) (magnitude-decimal n)
    ∙ ground (arith, hp)
atoi-print_int (negsuc n) (hp, hn) =
    ap (signed true) (magnitude-decimal (suc n)) ∙ ground (arith, hn)

-- A print ends no line.
pub code-AreDigits : (c : Char) (s : String) → AreDigits (c ∷ s) → nat_beq (code c) 10 ≡ false
code-AreDigits c s (lo, hi, h) = ground (arith, lo)
