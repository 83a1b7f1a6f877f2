-- ===== src/Tests/Texts.antt =====
-- Texts, patterns and offsets.
use rediqueue.Base.{◌≡◌, ◌≤◌, ◌<◌, refl, String, List, [], ◌∷◌, none, some, arith, true, false, ◌↔◌}
use rediqueue.Base.Int.{pos, negsuc, max_int, pos_part, ◌≤ℤ◌}
use rediqueue.Base.Text.{atoi, to_lower, to_upper}
use rediqueue.Keys.{pattern_re}
use rediqueue.Range.{redis_range}
use rediqueue.Range.Bounds.{redis_range-bounds, redis_range_iff, redis_range-overflow, From, UpTo}

atoi_tests :
    (atoi "-12" ≡ some (negsuc 11))
    × (atoi "+7" ≡ some (pos 7))
    × (atoi "-" ≡ none)
    × (atoi "9223372036854775808" ≡ none)
unfolding atoi
atoi_tests = (refl, refl, refl, refl)

case_tests : (to_upper "lPush-1" ≡ "LPUSH-1") × (to_lower "BeFore" ≡ "before")
unfolding to_upper to_lower
case_tests = (refl, refl)

pattern_tests :
    (pattern_re "a*[b\\]c]?\\*" ≡ some "^\\Qa\\E.*\\Q\\E[b\\]c]\\Q\\E.\\Q*\\E$")
    × (pattern_re "a[]" ≡ none)
    × (pattern_re "a\\" ≡ none)
unfolding pattern_re
pattern_tests = (refl, refl, refl)

redis_range-bounds_example :
    let r = redis_range (pos 3) (negsuc 8) (pos 9) true in
    (pos 0 ≤ℤ r.0) × (r.0 ≤ℤ r.1) × (r.1 ≤ℤ pos 3)
redis_range-bounds_example =
    redis_range-bounds 3 (negsuc 8) (pos 9) true (omega arith) (ground arith) (ground arith)

redis_range_iff_example :
    let r = redis_range (pos 5) (negsuc 2) (pos 9) false in
    ((pos_part r.0 ≤ 3) × (3 < pos_part r.1)) ↔ (From 5 (negsuc 2) 3 × UpTo 5 (pos 9) 3)
redis_range_iff_example =
    redis_range_iff 5 3 (negsuc 2) (pos 9) (omega arith) (ground arith) (ground arith)
      (λ e. ground arith) (omega arith)

redis_range-overflow_example : redis_range (pos 3) (negsuc 1) (pos max_int) false ≡ (pos 0, pos 0)
redis_range-overflow_example = redis_range-overflow 3 (negsuc 1) false (omega arith) (ground arith)

abbrev abc : List String
abc = "a" ∷ "b" ∷ "c" ∷ []
