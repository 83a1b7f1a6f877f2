-- ===== src/Range/Bounds.antt =====
-- What `redisRange` returns: offsets that can slice the list, and the elements that they stand for.
use rediqueue.Base.{
  ℕ, ◌+◌, ◌-◌, ◌≤◌, ◌<◌, ◌^◌, ◌≡◌, ◌↔◌, Bool, false, arith, suc, ◌≢◌, if◌then◌else◌,
}
use rediqueue.Base.Int.{ℤ, pos, negsuc, pos_part, ◌≤ℤ◌, IsInt, max_int, ltb_ℤ}
use rediqueue.Range.{redis_range, range_start, range_end}

range_start-bounds :
    (n : ℕ) (start : ℤ)
    → n ≤ max_int
    → IsInt start
    → (pos 0 ≤ℤ range_start (pos n) start) × (range_start (pos n) start ≤ℤ pos n)
unfolding range_start
range_start-bounds n (pos a) hn hs = ground arith
range_start-bounds n (negsuc a) hn hs = ground arith

range_end-bounds :
    (n : ℕ) (end : ℤ) (s : Bool) → n ≤ max_int → IsInt end → (range_end (pos n) end s ≤ℤ pos n)
unfolding range_end
range_end-bounds n (pos a) s hn hs = ground arith
range_end-bounds n (negsuc a) s hn hs = ground arith

clip :
    (n : ℕ) (rs re : ℤ)
    → pos 0 ≤ℤ rs
    → rs ≤ℤ pos n
    → re ≤ℤ pos n
    → let r : ℤ × ℤ = if ltb_ℤ re rs then (pos 0, pos 0) else (rs, re) in
      (pos 0 ≤ℤ r.0) × (r.0 ≤ℤ r.1) × (r.1 ≤ℤ pos n)
clip n (pos a) (pos b) h k l = ground arith
clip n (pos a) (negsuc b) h k l = ground arith
clip n (negsuc a) re h k l = absurd (omega arith)

-- For every `int` at both ends, with `stringSymantics` or without, and a length that is an `int`, the offsets slice a list of that
-- length: 0 ≤ start ≤ end ≤ length.
pub redis_range-bounds :
    (n : ℕ) (start end : ℤ) (s : Bool)
    → n ≤ max_int
    → IsInt start
    → IsInt end
    → let r = redis_range (pos n) start end s in (pos 0 ≤ℤ r.0) × (r.0 ≤ℤ r.1) × (r.1 ≤ℤ pos n)
unfolding redis_range
redis_range-bounds n start end s hn hs he =
    let b = range_start-bounds n start hn hs in
    clip n (range_start (pos n) start) (range_end (pos n) end s) b.0 b.1
      (range_end-bounds n end s hn he)

-- The index `i` is not before `start`, counted from the end where that is negative.
abbrev pub From : ℕ → ℤ → ℕ → Type 0
From n (pos a) i = a ≤ i
From n (negsuc a) i = n ≤ i + suc a

-- The index `i` is not behind `end`, counted from the end where that is negative.
abbrev pub UpTo : ℕ → ℤ → ℕ → Type 0
UpTo n (pos b) i = i ≤ b
UpTo n (negsuc b) i = i + suc b ≤ n

range_start-From :
    (n i : ℕ) (start : ℤ)
    → n ≤ max_int
    → IsInt start
    → i < n
    → (pos_part (range_start (pos n) start) ≤ i) ↔ From n start i
unfolding range_start
range_start-From n i (pos a) hn hs hi = ground arith
range_start-From n i (negsuc a) hn hs hi = ground arith

range_end-UpTo :
    (n i : ℕ) (end : ℤ)
    → n ≤ max_int
    → IsInt end
    → end ≢ pos max_int
    → i < n
    → (i < pos_part (range_end (pos n) end false)) ↔ UpTo n end i
unfolding range_end
range_end-UpTo n i (pos a) hn hs ne hi = ground arith
range_end-UpTo n i (negsuc a) hn hs ne hi = ground arith

clip_iff :
    (n i : ℕ) (rs re : ℤ)
    → pos 0 ≤ℤ rs
    → let r : ℤ × ℤ = if ltb_ℤ re rs then (pos 0, pos 0) else (rs, re) in
      ((pos_part r.0 ≤ i) × (i < pos_part r.1)) ↔ ((pos_part rs ≤ i) × (i < pos_part re))
clip_iff n i (pos a) (pos b) h = ground arith
clip_iff n i (pos a) (negsuc b) h = ground arith
clip_iff n i (negsuc a) re h = absurd (omega arith)

-- For a length and ends that are an `int`, an index of the list lies between the offsets exactly when it is in the
-- inclusive range, negative ends counted from the end of the list, unless `end` is the greatest `int`.
pub redis_range_iff :
    (n i : ℕ) (start end : ℤ)
    → n ≤ max_int
    → IsInt start
    → IsInt end
    → end ≢ pos max_int
    → i < n
    → let r = redis_range (pos n) start end false in
      ((pos_part r.0 ≤ i) × (i < pos_part r.1)) ↔ (From n start i × UpTo n end i)
unfolding redis_range
redis_range_iff n i start end hn hs he ne hi =
    let b = range_start-bounds n start hn hs in
    let c = clip_iff n i (range_start (pos n) start) (range_end (pos n) end false) b.0 in
    let f = range_start-From n i start hn hs hi in
    let u = range_end-UpTo n i end hn he ne hi in
    (λ h. (f.0 (c.0 h).0, u.0 (c.0 h).1), λ h. c.1 (f.1 h.0, u.1 h.1))

range_end-overflow :
    (n : ℕ) (s : Bool) → n ≤ max_int → range_end (pos n) (pos max_int) s ≡ negsuc (2 ^ 63 - 1)
unfolding range_end
range_end-overflow n s hn = ground arith

-- At the greatest `int` the inclusive end wraps around: the range is empty, whatever the list holds.
pub redis_range-overflow :
    (n : ℕ) (start : ℤ) (s : Bool)
    → n ≤ max_int
    → IsInt start
    → redis_range (pos n) start (pos max_int) s ≡ (pos 0, pos 0)
unfolding redis_range
redis_range-overflow n start s hn hs =
    rw (range_end-overflow n s hn, redis_range) (ground (arith, range_start-bounds n start))
