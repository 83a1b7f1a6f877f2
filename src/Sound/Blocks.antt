-- ===== src/Sound/Blocks.antt =====
-- One try of a blocking command keeps a valid database valid: done, it writes one reply; else it writes nothing.
use rediqueue.Base.{
  ◌≡◌, refl, ap, ◌∙◌, String, Bool, true, false, List, [], ◌∷◌, Option, none, some, get_or,
  string_eq, Returns, Returns-bind, Returns-map, if◌then◌else◌, ◌>>=◌,
}
use rediqueue.Base.Int.{pos}
use rediqueue.Reply.{Frame, array, bulk}
use rediqueue.Db.{RedisDb, exists, t}
use rediqueue.Db.Keyspace.{Value, list, set, Keyspace, Represents, tag_of, list_part, set_part}
use rediqueue.Db.Refine.{put_list, list_lpush-Represents}
use rediqueue.Db.RefineSets.{list_lpop-Represents, list_pop-Represents, unsnoc-some}
use rediqueue.Db.Lists.{list_pop, list_lpush}
use rediqueue.Cmd.Framing.{owed, IsReply}
use rediqueue.Cmd.Lists.{LeftRight, left, right, pop_side}
use rediqueue.Cmd.Blocking.{Attempt, not_done, bxpop, brpoplpush}
use rediqueue.Cmd.Pop.{put_list-set_part, is_other-at}
use rediqueue.Sound.{Full, Valid, Full-put, Full-put_list}

-- What a try has written.
abbrev pub Tried : List Frame → Bool → Type 0
Tried fs true = IsReply fs
Tried fs false = fs ≡ []

unfoldable pub SoundTry : Attempt → Type 0
unfolding Valid
SoundTry a = Returns a (λ r. Valid r.0 × Tried r.1 r.2)

-- A pop at either end of a list with an element.
pop_side-Valid :
    (lr : LeftRight) (db : RedisDb) (ks : Keyspace) (key x : String) (l : List String)
    → Represents db ks
    → Full ks
    → ks key ≡ some (list (x ∷ l))
    → Returns (pop_side lr db key) (λ p. Valid p.0)
unfolding pop_side Valid
pop_side-Valid left db ks key x l r full e =
    Returns-map _ (λ p. Valid p.0) _ (λ p q. (put_list ks key l, q.1, Full-put_list ks key l full))
      (list_lpop-Represents db ks key r x l e)
pop_side-Valid right db ks key x l r full e =
    let (front, y, q) = unsnoc-some (x ∷ l) (λ p. cc) in
    Returns-map _ (λ p. Valid p.0) _
      (λ p q. (put_list ks key front, q.1, Full-put_list ks key front full))
      (list_pop-Represents db ks key r front y (e ∙ ap (λ (m : List String). some (list m)) q))

done-SoundTry :
    (db : RedisDb) (f : Frame) → IsReply (f ∷ []) → Valid db → SoundTry (some (db, f ∷ [], true))
unfolding SoundTry
done-SoundTry db f one v = (v, one)

not_done-SoundTry : (db : RedisDb) → Valid db → SoundTry (not_done db)
unfolding SoundTry
not_done-SoundTry db v = (v, refl)

either-SoundTry :
    (b : Bool) (x y : Attempt) → SoundTry x → SoundTry y → SoundTry (if b then x else y)
either-SoundTry true x y p q = p
either-SoundTry false x y p q = q

-- The reply of BLPOP and BRPOP.
given-SoundTry :
    (key : String) (o : Option (RedisDb × String))
    → Returns o (λ p. Valid p.0)
    → SoundTry (do (db', v) ← o; some (db', array (pos 2) ∷ bulk key ∷ bulk v ∷ [], true))
unfolding SoundTry owed
given-SoundTry key none r = absurd r
given-SoundTry key (some (db', v)) r = (r, refl)

module _ (lr : LeftRight) (db : RedisDb) (ks : Keyspace) (r : Represents db ks)
    (full : Full ks) where
  bxpop-at :
      (key : String) (keys : List String) (o : Option Value)
      → ks key ≡ o
      → SoundTry (bxpop lr keys db)
      → SoundTry (bxpop lr (key ∷ keys) db)
  unfolding bxpop exists t owed Valid
  bxpop-at key keys none e next = rw (r.tags key ∙ ap tag_of e, bxpop) next
  bxpop-at key keys (some (set s)) e next =
      rw (r.tags key ∙ ap tag_of e, bxpop) (done-SoundTry db _ refl (ks, r, full))
  bxpop-at key keys (some (list [])) e next = absurd (full key e)
  bxpop-at key keys (some (list (x ∷ l))) e next =
      rw (r.tags key ∙ ap tag_of e, bxpop, ap (λ o. get_or o []) (r.lists key ∙ ap list_part e))
        (given-SoundTry key (pop_side lr db key) (pop_side-Valid lr db ks key x l r full e))

  bxpop-each : (keys : List String) → SoundTry (bxpop lr keys db)
  unfolding bxpop Valid
  bxpop-each [] = not_done-SoundTry db (ks, r, full)
  bxpop-each (key ∷ keys) = bxpop-at key keys (ks key) refl (bxpop-each keys)

pub bxpop-SoundTry :
    (lr : LeftRight) (keys : List String) (db : RedisDb) → Valid db → SoundTry (bxpop lr keys db)
unfolding Valid
bxpop-SoundTry lr keys db (ks, r, full) = bxpop-each lr db ks r full keys

module _ (db : RedisDb) (ks : Keyspace) (src dst : String) (r : Represents db ks)
    (full : Full ks) where
  turned-SoundTry :
      (x : String) (l : List String)
      → ks src ≡ some (list (x ∷ l))
      → set_part (ks dst) ≡ none
      → SoundTry (do
        (db', elem) ← list_pop db src
        some ((list_lpush db' dst elem).0, bulk elem ∷ [], true))
  unfolding SoundTry Valid owed
  turned-SoundTry x l e f =
      let (front, y, q) = unsnoc-some (x ∷ l) (λ p. cc) in
      Returns-bind {B = RedisDb × List Frame × Bool}
        (λ p. (p.1 ≡ y) × Represents p.0 (put_list ks src front))
        (λ res. Valid res.0 × Tried res.1 res.2) _ _
        (list_pop-Represents db ks src r front y (e ∙ ap (λ (m : List String). some (list m)) q))
        (λ p w. (
          (
            _,
            (list_lpush-Represents p.0 (put_list ks src front) dst w.1 p.1
                (put_list-set_part ks src dst front f)).0,
            Full-put (put_list ks src front) dst p.1 _ (Full-put_list ks src front full),
          ),
          refl,
        ))

  brpoplpush-at : (o p : Option Value) → ks src ≡ o → ks dst ≡ p → SoundTry (brpoplpush src dst db)
  unfolding brpoplpush exists t owed Valid
  brpoplpush-at none p e f =
      rw (r.tags src ∙ ap tag_of e, brpoplpush) (not_done-SoundTry db (ks, r, full))
  brpoplpush-at (some (set s)) p e f =
      rw (r.tags src ∙ ap tag_of e, brpoplpush) (done-SoundTry db _ refl (ks, r, full))
  brpoplpush-at (some (list [])) p e f = absurd (full src e)
  brpoplpush-at (some (list (x ∷ l))) (some (set s)) e f =
      rw (r.tags src ∙ ap tag_of e, is_other-at db ks dst _ r f, brpoplpush)
        (done-SoundTry db _ refl (ks, r, full))
  brpoplpush-at (some (list (x ∷ l))) none e f =
      rw (r.tags src ∙ ap tag_of e, is_other-at db ks dst _ r f, brpoplpush)
        (either-SoundTry _ _ _ (not_done-SoundTry db (ks, r, full))
          (turned-SoundTry x l e (ap set_part f)))
  brpoplpush-at (some (list (x ∷ l))) (some (list m)) e f =
      rw (r.tags src ∙ ap tag_of e, is_other-at db ks dst _ r f, brpoplpush)
        (either-SoundTry _ _ _ (not_done-SoundTry db (ks, r, full))
          (turned-SoundTry x l e (ap set_part f)))

pub brpoplpush-SoundTry :
    (src dst : String) (db : RedisDb) → Valid db → SoundTry (brpoplpush src dst db)
unfolding Valid
brpoplpush-SoundTry src dst db (ks, r, full) =
    brpoplpush-at db ks src dst r full (ks src) (ks dst) refl refl
