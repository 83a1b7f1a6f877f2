-- ===== src/Cmd/Slices.antt =====
-- LRANGE and LTRIM keep what they promise.
use rediqueue.Base.{
  ℕ, ◌-◌, ◌≡◌, ◌≢◌, refl, ap, ◌∙◌, String, List, [], ◌∷◌, map, Option, none, some, length, take,
  drop, string_eq, Returns-bind, arith, ◌≤◌, false, length-take, length-drop,
}
use rediqueue.Base.Int.{ℤ, pos, negsuc, IsInt, max_int, pos_part, neg_part, ◌≤ℤ◌, add_int, neg_int}
use rediqueue.Reply.{bulk, array, ok}
use rediqueue.Range.{redis_range}
use rediqueue.Range.Bounds.{redis_range-bounds}
use rediqueue.Range.Select.{ranged, take-redis_range}
use rediqueue.Db.{RedisDb}
use rediqueue.Db.Keyspace.{Value, list, set, Keyspace, Represents, tag_of, list_part}
use rediqueue.Db.Refine.{put_list, elements, store_bump_or_del-Represents}
use rediqueue.Cmd.Lists.{lrange, ltrim, slice}
use rediqueue.Cmd.ListSpec.{Promise, Keeps, refused}
use rediqueue.Cmd.Pop.{is_other-at}

-- LRANGE writes the number of the elements and then the elements.
abbrev pub lrange_at : Keyspace → ℤ → ℤ → Option Value → Promise
lrange_at ks start end none = (ks, array (pos 0) ∷ [])
lrange_at ks start end (some (list l)) =
    (ks, array (pos (length (ranged start end l))) ∷ map bulk (ranged start end l))
lrange_at ks start end (some (set s)) = refused ks

-- LTRIM keeps the elements, and deletes the key if there are none.
abbrev pub ltrim_at : Keyspace → String → ℤ → ℤ → Option Value → Promise
ltrim_at ks key start end none = (ks, ok ∷ [])
ltrim_at ks key start end (some (list l)) = (put_list ks key (ranged start end l), ok ∷ [])
ltrim_at ks key start end (some (set s)) = refused ks

-- Offsets in bounds slice.
pub slice_lem :
    (l : List String) (rs re : ℤ)
    → pos 0 ≤ℤ rs
    → rs ≤ℤ re
    → re ≤ℤ pos (length l)
    → slice l rs re ≡ some (take (pos_part re - pos_part rs) (drop (pos_part rs) l))
unfolding slice
slice_lem l (pos a) (pos b) h k m = ground arith
slice_lem l (pos a) (negsuc b) h k m = absurd (omega arith)
slice_lem l (negsuc a) re h k m = absurd (omega arith)

pub size_lem :
    (n : ℕ) (rs re : ℤ)
    → n ≤ max_int
    → pos 0 ≤ℤ rs
    → rs ≤ℤ re
    → re ≤ℤ pos n
    → add_int re (neg_int rs) ≡ pos (pos_part re - pos_part rs)
unfolding add_int neg_int
size_lem n (pos a) (pos b) hn h k m = ground arith
size_lem n (pos a) (negsuc b) hn h k m = absurd (omega arith)
size_lem n (negsuc a) re hn h k m = absurd (omega arith)

pub nonneg : (a : ℤ) → pos 0 ≤ℤ a → neg_part a ≡ 0
nonneg (pos a) h = refl
nonneg (negsuc a) h = absurd (omega arith)

pub nonneg_trans : (a b : ℤ) → pos 0 ≤ℤ a → a ≤ℤ b → pos 0 ≤ℤ b
nonneg_trans a b h k = omega arith

-- Both at once for the offsets of `redisRange`.
module _ (l : List String) (start end : ℤ) (hl : length l ≤ max_int) (hs : IsInt start)
    (he : IsInt end) (ne : end ≢ pos max_int) where
  sliced :
      slice l
        (redis_range (pos (length l)) start end false).0
        (redis_range (pos (length l)) start end false).1
      ≡ some (ranged start end l)
  sliced =
      let r = redis_range (pos (length l)) start end false in
      let b = redis_range-bounds (length l) start end false hl hs he in
      slice_lem l r.0 r.1 b.0 b.1 b.2
      ∙ ap (λ (els : List String). some els) (take-redis_range l start end hl hs he ne)

  counted :
      add_int
        (redis_range (pos (length l)) start end false).1
        (neg_int (redis_range (pos (length l)) start end false).0)
      ≡ pos (length (ranged start end l))
  counted =
      let r = redis_range (pos (length l)) start end false in
      let b = redis_range-bounds (length l) start end false hl hs he in
      size_lem (length l) r.0 r.1 hl b.0 b.1 b.2
      ∙ ap pos (
          omega (
            arith,
            nonneg r.0 b.0,
            nonneg r.1 (nonneg_trans r.0 r.1 b.0 b.1),
            ap length (take-redis_range l start end hl hs he ne),
            length-take (pos_part r.1 - pos_part r.0) (drop (pos_part r.0) l),
            length-drop (pos_part r.0) l,
          ))

module _ (db : RedisDb) (ks : Keyspace) (key : String) (r : Represents db ks) (start end : ℤ)
    (hs : IsInt start) (he : IsInt end) (ne : end ≢ pos max_int) where
  ltrim-at :
      (o : Option Value)
      → ks key ≡ o
      → length (elements o) ≤ max_int
      → Keeps (ltrim key start end db) (ltrim_at ks key start end o)
  unfolding ltrim
  ltrim-at none e hl = rw (r.tags key ∙ ap tag_of e, ltrim) (r, refl)
  ltrim-at (some (set s)) e hl = rw (r.tags key ∙ ap tag_of e, ltrim) (r, refl)
  ltrim-at (some (list l)) e hl =
      rw
        (
          r.tags key ∙ ap tag_of e,
          ltrim,
          r.lists key ∙ ap list_part e,
          sliced l start end hl hs he ne,
        )
        (Returns-bind (λ db'. Represents db' (put_list ks key (ranged start end l))) _ _ _
          (store_bump_or_del-Represents db ks key r e (ranged start end l)) (λ db' q. (q, refl)))

  -- On a database that the view represents, LTRIM keeps the elements whose indices lie in the inclusive range, with
  -- negative ends counted from the end of the list, and deletes the key when none are left; at a set it replies
  -- WRONGTYPE. The ends and the length are an `int`, and `end` is not the greatest one.
  pub ltrim-Keeps :
      length (elements (ks key)) ≤ max_int
      → Keeps (ltrim key start end db) (ltrim_at ks key start end (ks key))
  ltrim-Keeps = ltrim-at (ks key) refl

  lrange-at :
      (o : Option Value)
      → ks key ≡ o
      → length (elements o) ≤ max_int
      → Keeps (lrange key start end db) (lrange_at ks start end o)
  unfolding lrange
  lrange-at none e hl =
      rw (is_other-at db ks key none r e, lrange, r.lists key ∙ ap list_part e) (r, refl)
  lrange-at (some (set s)) e hl = rw (is_other-at db ks key _ r e, lrange) (r, refl)
  lrange-at (some (list [])) e hl =
      rw (is_other-at db ks key _ r e, lrange, r.lists key ∙ ap list_part e) (r, refl)
  lrange-at (some (list (x ∷ l))) e hl =
      rw
        (
          is_other-at db ks key _ r e,
          lrange,
          r.lists key ∙ ap list_part e,
          sliced (x ∷ l) start end hl hs he ne,
          counted (x ∷ l) start end hl hs he ne,
        )
        (r, refl)

  -- On a database that the view represents, LRANGE replies with the number of the elements whose indices lie in the
  -- inclusive range and then with those elements in their order, and changes nothing; at a set it replies WRONGTYPE.
  -- The ends and the length are an `int`, and `end` is not the greatest one.
  pub lrange-Keeps :
      length (elements (ks key)) ≤ max_int
      → Keeps (lrange key start end db) (lrange_at ks start end (ks key))
  lrange-Keeps = lrange-at (ks key) refl
