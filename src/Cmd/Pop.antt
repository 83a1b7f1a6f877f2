-- ===== src/Cmd/Pop.antt =====
-- The pops of cmd_list.go, and what they return of what was pushed.
use rediqueue.Base.{
  ◌≡◌, ◌≢◌, refl, sym, ap, subst, ◌∙◌, String, List, [], ◌∷◌, ◌++◌, Option, none, some, string_eq,
  Returns-bind, arith, Bool, true, false,
}
use mathlib.Core.List.{reverse-append, reverse-reverse}
use rediqueue.Reply.{bulk}
use rediqueue.Db.{RedisDb, exists, t}
use rediqueue.Db.Keyspace.{Value, list, set, Keyspace, Represents, tag_of, set_part}
use rediqueue.Db.Refine.{put_list, list_lpush-Represents}
use rediqueue.Db.RefineSets.{list_lpop-Represents, list_pop-Represents, unsnoc-some}
use rediqueue.Cmd.Lists.{LeftRight, left, right, xpop, rpoplpush, is_other}
use rediqueue.Cmd.ListSpec.{Keeps, popped, rotated, xpop_at, popped_at, end_of, of_reversed}

pub end_of-last : (l : List String) (x : String) → end_of right (l ++ x ∷ []) ≡ some (x, l)
end_of-last l x =
    ap of_reversed (reverse-append l (x ∷ [])) ∙ ap (λ m. some (x, m)) (reverse-reverse l)

pub put_list-set_part :
    (ks : Keyspace) (k j : String) (l : List String)
    → set_part (ks j) ≡ none
    → set_part (put_list ks k l j) ≡ none
put_list-set_part ks k j [] e = ground arith
put_list-set_part ks k j (x ∷ l) e = ground arith

module _ (db : RedisDb) (ks : Keyspace) (key : String) (r : Represents db ks) where
  -- LPOP takes the first element, and deletes the key with the last one.
  pub lpop-Keeps :
      (x : String) (l : List String)
      → ks key ≡ some (list (x ∷ l))
      → Keeps (xpop left key db) (popped ks key x l)
  unfolding xpop
  lpop-Keeps x l e =
      rw (r.tags key ∙ ap tag_of e, xpop)
        (Returns-bind (λ p. (p.1 ≡ x) × Represents p.0 (put_list ks key l)) _ _ _
          (list_lpop-Represents db ks key r x l e) (λ p q. (q.1, ap (λ el. bulk el ∷ []) q.0)))

  -- RPOP takes the last element, and deletes the key with it if it is the only one.
  pub rpop-Keeps :
      (l : List String) (x : String)
      → ks key ≡ some (list (l ++ x ∷ []))
      → Keeps (xpop right key db) (popped ks key x l)
  unfolding xpop
  rpop-Keeps l x e =
      rw (r.tags key ∙ ap tag_of e, xpop)
        (Returns-bind (λ p. (p.1 ≡ x) × Represents p.0 (put_list ks key l)) _ _ _
          (list_pop-Represents db ks key r l x e) (λ p q. (q.1, ap (λ el. bulk el ∷ []) q.0)))

  xpop-at :
      (lr : LeftRight) (o : Option Value)
      → ks key ≡ o
      → o ≢ some (list [])
      → Keeps (xpop lr key db) (xpop_at lr ks key o)
  unfolding xpop
  xpop-at lr none e ne = rw (r.tags key ∙ ap tag_of e, xpop) (r, refl)
  xpop-at lr (some (set s)) e ne = rw (r.tags key ∙ ap tag_of e, xpop) (r, refl)
  xpop-at left (some (list [])) e ne = absurd (ne refl)
  xpop-at right (some (list [])) e ne = absurd (ne refl)
  xpop-at left (some (list (x ∷ l))) e ne = lpop-Keeps x l e
  xpop-at right (some (list (y ∷ m))) e ne =
      let (l, x, q) = unsnoc-some (y ∷ m) (λ p. cc) in
      subst (λ p. Keeps (xpop right key db) (popped_at ks key p))
        (sym (ap (end_of right) q ∙ end_of-last l x))
        (rpop-Keeps l x (e ∙ ap (λ (z : List String). some (list z)) q))

  -- On a database that the view represents, and where the key holds no empty list, LPOP and RPOP reply with the
  -- element at their end of the list and keep the others, in their order; the key goes with its last element. At
  -- a missing key they reply nil, and at a set WRONGTYPE; then nothing changes. They do not panic.
  pub xpop-Keeps :
      (lr : LeftRight)
      → ks key ≢ some (list [])
      → Keeps (xpop lr key db) (xpop_at lr ks key (ks key))
  xpop-Keeps lr = xpop-at lr (ks key) refl

abbrev is_set : Option Value → Bool
is_set (some (set s)) = true
is_set _ = false

pub is_other-at :
    (db : RedisDb) (ks : Keyspace) (key : String) (o : Option Value)
    → Represents db ks
    → ks key ≡ o
    → is_other db key ≡ is_set o
unfolding exists t
is_other-at db ks key none r e = rw (r.tags key ∙ ap tag_of e)
is_other-at db ks key (some (list l)) r e = rw (r.tags key ∙ ap tag_of e)
is_other-at db ks key (some (set s)) r e = rw (r.tags key ∙ ap tag_of e)

not_set : (o : Option Value) → set_part o ≡ none → is_set o ≡ false
not_set none e = refl
not_set (some (list l)) e = refl
not_set (some (set s)) e = cc

module _ (db : RedisDb) (ks : Keyspace) (src dst : String) (r : Represents db ks) where
  -- On a database that the view represents, where `src` holds a list with a last element and `dst` holds no set,
  -- RPOPLPUSH moves that element to the head of the list at `dst`, which may be the same key or a missing one, and
  -- replies with it; `src` goes with its last element.
  pub rpoplpush-Keeps :
      (l : List String) (x : String)
      → ks src ≡ some (list (l ++ x ∷ []))
      → set_part (ks dst) ≡ none
      → Keeps (rpoplpush src dst db) (rotated ks src dst l x)
  unfolding rpoplpush
  rpoplpush-Keeps l x e f =
      rw
        (
          r.tags src ∙ ap tag_of e,
          is_other-at db ks dst (ks dst) r refl ∙ not_set (ks dst) f,
          rpoplpush,
        )
        (Returns-bind (λ p. (p.1 ≡ x) × Represents p.0 (put_list ks src l)) _ _ _
          (list_pop-Represents db ks src r l x e)
          (λ p q. (
            rw (← q.0)
                (list_lpush-Represents p.0 (put_list ks src l) dst q.1 p.1
                  (put_list-set_part ks src dst l f)).0,
            ap (λ el. bulk el ∷ []) q.0,
          )))
