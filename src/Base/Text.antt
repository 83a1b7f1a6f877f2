-- ===== src/Base/Text.antt =====
-- The functions of Go's `strings` and `strconv` that the commands call, on texts whose characters
-- stand for bytes.
use Prim.Native.Nat.{ℕ, ◌+◌, ◌-◌, ◌*◌, ◌^◌}
use Prim.Native.Char.{Char, code}
use Prim.Native.String.{String, [], ◌∷◌}
use mathlib.Core.Bool.{Bool, true, false, ◌&&◌}
use mathlib.Core.Option.{Option, none, some}
use rediqueue.Base.Tests.{leb, nat_beq, if◌then◌else◌}
use rediqueue.Base.Int.{ℤ, pos, negsuc}

-- strconv.Atoi: an optional sign, decimal digits, and the range of `int`.
unfoldable pub digits : ℕ → String → Option ℕ
digits n [] = some n
digits n (c ∷ s) =
    let d = code c in if leb 48 d && leb d 57 then digits (n * 10 + (d - 48)) s else none

unfoldable pub magnitude : String → Option ℕ
unfolding digits
magnitude [] = none
magnitude (c ∷ s) = digits 0 (c ∷ s)

abbrev pub in_range : Bool → ℕ → Option ℤ
in_range false n = if leb n (2 ^ 63 - 1) then some (pos n) else none
in_range true n =
    if leb n (2 ^ 63) then some (if nat_beq n 0 then pos 0 else negsuc (n - 1)) else none

abbrev pub signed : Bool → Option ℕ → Option ℤ
signed negative none = none
signed negative (some n) = in_range negative n

unfoldable pub atoi : String → Option ℤ
unfolding magnitude
atoi [] = none
atoi (c ∷ s) =
    if nat_beq (code c) 45
    then signed true (magnitude s)
    else if nat_beq (code c) 43
    then signed false (magnitude s)
    else signed false (magnitude (c ∷ s))

-- The character that stands in the second text where the first has `c`; else `c`.
abbrev translate : String → String → Char → Char
translate (f ∷ from) (t ∷ to) c = if nat_beq (code f) (code c) then t else translate from to c
translate _ _ c = c

-- strings.ToLower and strings.ToUpper; what is not an ASCII letter stays as it is.
unfoldable pub to_lower : String → String
to_lower [] = []
to_lower (c ∷ s) =
    translate "ABCDEFGHIJKLMNOPQRSTUVWXYZ" "abcdefghijklmnopqrstuvwxyz" c ∷ to_lower s

unfoldable pub to_upper : String → String
to_upper [] = []
to_upper (c ∷ s) =
    translate "abcdefghijklmnopqrstuvwxyz" "ABCDEFGHIJKLMNOPQRSTUVWXYZ" c ∷ to_upper s
