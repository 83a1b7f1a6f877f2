-- ===== src/Cmd/Waits.antt =====
-- One try of BLPOP and BRPOP keeps what is promised over the abstract view.
use rediqueue.Base.{
  ◌≡◌, ◌≢◌, refl, sym, ap, subst, ◌∙◌, String, Bool, true, false, List, [], ◌∷◌, ◌++◌, Option, none,
  some, get_or, string_eq, Returns, ◌>>=◌, All,
}
use rediqueue.Base.Int.{pos}
use rediqueue.Reply.{Frame, error, array, bulk, msg_wrong_type}
use rediqueue.Db.{RedisDb, exists, t}
use rediqueue.Db.Keyspace.{Value, list, set, Keyspace, Represents, tag_of, list_part}
use rediqueue.Db.Refine.{put_list}
use rediqueue.Db.RefineSets.{list_lpop-Represents, list_pop-Represents, unsnoc-some}
use rediqueue.Cmd.Lists.{LeftRight, left, right, pop_side}
use rediqueue.Cmd.Blocking.{Attempt, bxpop}
use rediqueue.Cmd.ListSpec.{end_of}
use rediqueue.Cmd.Pop.{end_of-last}

-- The view after a try, what it writes, and whether it is done.
abbrev pub Answer : Type 0
Answer = Keyspace × List Frame × Bool

abbrev pub KeepsTry : Attempt → Answer → Type 0
KeepsTry a p = Returns a (λ r. Represents r.0 p.0 × (r.1 ≡ p.1) × (r.2 ≡ p.2))

-- The key and the element are written, and the others are kept.
abbrev pub given_at : Keyspace → String → Option (String × List String) → Answer
given_at ks key none = (ks, [], false)
given_at ks key (some (x, l)) = (put_list ks key l, array (pos 2) ∷ bulk key ∷ bulk x ∷ [], true)

abbrev pub first_at : LeftRight → Keyspace → String → Option Value → Answer → Answer
first_at lr ks key none next = next
first_at lr ks key (some (list l)) next = given_at ks key (end_of lr l)
first_at lr ks key (some (set s)) next = (ks, error msg_wrong_type ∷ [], true)

-- The first key that is there decides.
abbrev pub bxpop_at : LeftRight → Keyspace → List String → Answer
bxpop_at lr ks [] = (ks, [], false)
bxpop_at lr ks (key ∷ keys) = first_at lr ks key (ks key) (bxpop_at lr ks keys)

given-KeepsTry :
    (o : Option (RedisDb × String)) (ks : Keyspace) (key x : String) (l : List String)
    → Returns o (λ p. (p.1 ≡ x) × Represents p.0 (put_list ks key l))
    → KeepsTry
        (do (db', v) ← o; some (db', array (pos 2) ∷ bulk key ∷ bulk v ∷ [], true))
        (given_at ks key (some (x, l)))
given-KeepsTry none ks key x l r = absurd r
given-KeepsTry (some (db', v)) ks key x l (e, r) =
    (r, ap (λ y. array (pos 2) ∷ bulk key ∷ bulk y ∷ []) e, refl)

module _ (lr : LeftRight) (db : RedisDb) (ks : Keyspace) (r : Represents db ks) where
  popped-KeepsTry :
      (side : LeftRight) (key x : String) (l : List String)
      → ks key ≡ some (list (x ∷ l))
      → KeepsTry
          (do
            (db', v) ← pop_side side db key
            some (db', array (pos 2) ∷ bulk key ∷ bulk v ∷ [], true))
          (given_at ks key (end_of side (x ∷ l)))
  unfolding pop_side
  popped-KeepsTry left key x l e =
      given-KeepsTry _ ks key x l (list_lpop-Represents db ks key r x l e)
  popped-KeepsTry right key x l e =
      let (front, y, q) = unsnoc-some (x ∷ l) (λ p. cc) in
      subst
        (λ p.
          KeepsTry
            (do
              (db', v) ← pop_side right db key
              some (db', array (pos 2) ∷ bulk key ∷ bulk v ∷ [], true))
            (given_at ks key p))
        (sym (ap (end_of right) q ∙ end_of-last front y))
        (given-KeepsTry _ ks key y front
          (list_pop-Represents db ks key r front y (e ∙ ap (λ (z : List String). some (list z)) q)))

  bxpop-at :
      (key : String) (keys : List String) (o : Option Value)
      → ks key ≡ o
      → o ≢ some (list [])
      → KeepsTry (bxpop lr keys db) (bxpop_at lr ks keys)
      → KeepsTry (bxpop lr (key ∷ keys) db) (first_at lr ks key o (bxpop_at lr ks keys))
  unfolding bxpop exists t
  bxpop-at key keys none e full next = rw (r.tags key ∙ ap tag_of e, bxpop) next
  bxpop-at key keys (some (set s)) e full next =
      rw (r.tags key ∙ ap tag_of e, bxpop) (r, refl, refl)
  bxpop-at key keys (some (list [])) e full next = absurd (full refl)
  bxpop-at key keys (some (list (x ∷ l))) e full next =
      rw (r.tags key ∙ ap tag_of e, bxpop, ap (λ o. get_or o []) (r.lists key ∙ ap list_part e))
        (popped-KeepsTry lr key x l e)

  -- On a database that the view represents, and where no key holds an empty list, one try of BLPOP or BRPOP passes over
  -- the keys that are missing. The first key that is there decides: of a list the element at that end is taken and
  -- written behind the key, of a set the reply is WRONGTYPE. Where every key is missing the try is not done, and has
  -- changed and written nothing.
  pub bxpop-Keeps :
      (keys : List String)
      → ((k : String) → ks k ≢ some (list []))
      → KeepsTry (bxpop lr keys db) (bxpop_at lr ks keys)
  unfolding bxpop
  bxpop-Keeps [] full = (r, refl, refl)
  bxpop-Keeps (key ∷ keys) full = bxpop-at key keys (ks key) refl (full key) (bxpop-Keeps keys full)

-- Behind keys that hold nothing.
pub bxpop_at-behind :
    (lr : LeftRight) (ks : Keyspace) (before : List String) (key : String) (after : List String)
    (l : List String)
    → All (λ k. ks k ≡ none) before
    → ks key ≡ some (list l)
    → (p : Answer) → given_at ks key (end_of lr l) ≡ p
    → bxpop_at lr ks (before ++ (key ∷ after)) ≡ p
bxpop_at-behind lr ks [] key after l none' e p q =
    ap (λ o. first_at lr ks key o (bxpop_at lr ks after)) e ∙ q
bxpop_at-behind lr ks (k ∷ before) key after l (gone, none') e p q =
    ap (λ o. first_at lr ks k o (bxpop_at lr ks (before ++ (key ∷ after)))) gone
    ∙ bxpop_at-behind lr ks before key after l none' e p q
