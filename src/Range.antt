-- ===== src/Range.antt =====
-- `redisRange` of redis.go: Go offsets for an inclusive range in the manner of Redis.
pub mod Bounds
pub mod Select
use rediqueue.Base.{Bool, ◌&&◌, if◌then◌else◌}
use rediqueue.Base.Int.{ℤ, pos, negsuc, ltb_ℤ, add_int}

-- start, with the end of the list as its limit
unfoldable pub range_start : ℤ → ℤ → ℤ
unfolding add_int
range_start l start =
    let shifted = if ltb_ℤ start (pos 0) then add_int l start else start in
    let clipped = if ltb_ℤ start (pos 0) && ltb_ℤ shifted (pos 0) then pos 0 else shifted in
    if ltb_ℤ l clipped then l else clipped

unfoldable pub range_end : ℤ → ℤ → Bool → ℤ
unfolding add_int
range_end l end string_symantics =
    let shifted = if ltb_ℤ end (pos 0) then add_int l end else end in
    let clipped =
      if ltb_ℤ end (pos 0) && ltb_ℤ shifted (pos 0)
      then (if string_symantics then pos 0 else negsuc 0)
      else shifted in
    let after = add_int clipped (pos 1) in if ltb_ℤ l after then l else after

unfoldable pub redis_range : ℤ → ℤ → ℤ → Bool → ℤ × ℤ
unfolding range_start range_end
redis_range l start end string_symantics =
    let rs = range_start l start in
    let re = range_end l end string_symantics in if ltb_ℤ re rs then (pos 0, pos 0) else (rs, re)
