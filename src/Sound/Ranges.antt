-- ===== src/Sound/Ranges.antt =====
-- The offsets of `redisRange` cut any list, also one that is longer than the greatest `int`.
use rediqueue.Base.{
  ℕ, ◌≡◌, ap, ◌∙◌, ◌≤◌, ◌-◌, String, List, some, length, length-take, length-drop, take, drop,
  arith, false, ◌&&◌, if◌then◌else◌,
}
use rediqueue.Base.Int.{ℤ, pos, negsuc, pos_part, max_int, ltb_ℤ, ◌≤ℤ◌, add_int, neg_int}
use rediqueue.Range.{range_start, range_end, redis_range}
use rediqueue.Cmd.Lists.{slice}
use rediqueue.Cmd.Slices.{slice_lem, size_lem, nonneg, nonneg_trans}

add_int-IsInt : (a b : ℤ) → pos_part (add_int a b) ≤ max_int
unfolding add_int
add_int-IsInt a b = ground arith

range_start-within :
    (n : ℕ) (start : ℤ)
    → (pos 0 ≤ℤ range_start (pos n) start) × (range_start (pos n) start ≤ℤ pos n)
unfolding range_start
range_start-within n start = clipped-within n start (add_int (pos n) start)
  where
    clipped-within :
        (n : ℕ) (start shifted : ℤ)
        → let clipped =
            if ltb_ℤ start (pos 0) && ltb_ℤ (if ltb_ℤ start (pos 0) then shifted else start) (pos 0)
            then pos 0
            else (if ltb_ℤ start (pos 0) then shifted else start) in
          let r = if ltb_ℤ (pos n) clipped then pos n else clipped in (pos 0 ≤ℤ r) × (r ≤ℤ pos n)
    clipped-within n (pos a) shifted = ground arith
    clipped-within n (negsuc a) (pos b) = ground arith
    clipped-within n (negsuc a) (negsuc b) = ground arith

range_end-within :
    (n : ℕ) (end : ℤ)
    → (range_end (pos n) end false ≤ℤ pos n) × (pos_part (range_end (pos n) end false) ≤ max_int)
unfolding range_end
range_end-within n end =
    let shifted = if ltb_ℤ end (pos 0) then add_int (pos n) end else end in
    let clipped = if ltb_ℤ end (pos 0) && ltb_ℤ shifted (pos 0) then negsuc 0 else shifted in
    after-within n (add_int clipped (pos 1)) (add_int-IsInt clipped (pos 1))
  where
    after-within :
        (n : ℕ) (after : ℤ)
        → pos_part after ≤ max_int
        → let r = if ltb_ℤ (pos n) after then pos n else after in
          (r ≤ℤ pos n) × (pos_part r ≤ max_int)
    after-within n (pos a) h = ground arith
    after-within n (negsuc a) h = ground arith

-- The offsets are in bounds, and the end is an `int`, whatever the length is.
redis_range-within :
    (n : ℕ) (start end : ℤ)
    → let r = redis_range (pos n) start end false in
      (pos 0 ≤ℤ r.0) × (r.0 ≤ℤ r.1) × (r.1 ≤ℤ pos n) × (pos_part r.1 ≤ max_int)
unfolding redis_range
redis_range-within n start end =
    let s = range_start-within n start in
    let e = range_end-within n end in ordered n _ _ s.0 s.1 e.0 e.1
  where
    ordered :
        (n : ℕ) (rs re : ℤ)
        → pos 0 ≤ℤ rs
        → rs ≤ℤ pos n
        → re ≤ℤ pos n
        → pos_part re ≤ max_int
        → let r : ℤ × ℤ = if ltb_ℤ re rs then (pos 0, pos 0) else (rs, re) in
          (pos 0 ≤ℤ r.0) × (r.0 ≤ℤ r.1) × (r.1 ≤ℤ pos n) × (pos_part r.1 ≤ max_int)
    ordered n (pos a) (pos b) p q u v = ground arith
    ordered n (pos a) (negsuc b) p q u v = ground arith
    ordered n (negsuc a) re p q u v = omega (arith, p)

-- What is cut out of a list, and the number that LRANGE writes for it.
abbrev pub cut : List String → ℤ → ℤ → List String
cut l start end =
    let r = redis_range (pos (length l)) start end false in
    take (pos_part r.1 - pos_part r.0) (drop (pos_part r.0) l)

module _ (l : List String) (start end : ℤ) where
  pub slice-cut :
      slice l
        (redis_range (pos (length l)) start end false).0
        (redis_range (pos (length l)) start end false).1
      ≡ some (cut l start end)
  slice-cut =
      let r = redis_range (pos (length l)) start end false in
      let b = redis_range-within (length l) start end in slice_lem l r.0 r.1 b.0 b.1 b.2

  pub size-cut :
      add_int
        (redis_range (pos (length l)) start end false).1
        (neg_int (redis_range (pos (length l)) start end false).0)
      ≡ pos (length (cut l start end))
  size-cut =
      let r = redis_range (pos (length l)) start end false in
      let b = redis_range-within (length l) start end in
      size_lem (pos_part r.1) r.0 r.1 b.3 b.0 b.1 (omega arith)
      ∙ ap pos (
          omega (
            arith,
            nonneg r.0 b.0,
            nonneg r.1 (nonneg_trans r.0 r.1 b.0 b.1),
            b.1,
            b.2,
            length-take (pos_part r.1 - pos_part r.0) (drop (pos_part r.0) l),
            length-drop (pos_part r.0) l,
          ))
