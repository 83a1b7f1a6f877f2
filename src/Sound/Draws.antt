-- ===== src/Sound/Draws.antt =====
-- The callbacks of cmd_set.go that draw members, and SSCAN, keep a valid database valid and write one reply each.
use rediqueue.Base.{
  ℕ, zero, suc, ◌+◌, ◌≡◌, refl, ap, ◌∙◌, String, Bool, true, false, List, [], ◌∷◌, map, Option,
  none, some, length, arith, string_eq, Returns, Returns-bind, ◌==◌, ◌>>=◌, not, take, min,
  length-take,
}
use rediqueue.Base.Int.{ℤ, pos, pos_part, int_eq, ltb_ℤ}
use rediqueue.Reply.{array, bulk, null}
use rediqueue.Db.{RedisDb, exists, t}
use rediqueue.Db.Sets.{set_members, is_foreign}
use rediqueue.Cmd.Framing.{owed, owed-bulks}
use rediqueue.Cmd.Sets.{
  Draws, later, pick, spop_rounds, spop_reply, spop, shuffle, srandmember, sscan,
}
use rediqueue.Sound.{
  Valid, Sound, reply-Sound, write_all-Sound, write_scan-Sound, bind-Sound, if-Sound,
}
use rediqueue.Sound.Keys.{Matches, filtered-Returns, drawn}
use rediqueue.Sound.Sets.{set_rem-Valid}

picked : (m : String) (ms : List String) (d : ℕ) → (x : String) × (pick (m ∷ ms) d ≡ some x)
unfolding pick
picked m ms d = drawn (m ∷ ms) (length ms) d refl

spop_rounds-at :
    (n : ℕ) (draws : Draws) (key : String) (db : RedisDb) (l : List String)
    → set_members db key ≡ l
    → ((draws' : Draws) (db' : RedisDb)
        → Valid db'
        → Returns (spop_rounds n draws' key db') (λ p. Valid p.0))
    → Valid db
    → Returns (spop_rounds (suc n) draws key db) (λ p. Valid p.0)
unfolding spop_rounds
spop_rounds-at n draws key db [] e next v = rw (e, spop_rounds) v
spop_rounds-at n draws key db (m ∷ ms) e next v =
    let (x, drew) = picked m ms (draws 0) in
    rw (e, spop_rounds, drew)
      (Returns-bind {B = RedisDb × List String} (λ p. Valid p.0) (λ p. Valid p.0) _ _
        (set_rem-Valid db key (x ∷ []) v)
        (λ p w.
          Returns-bind {B = RedisDb × List String} (λ q. Valid q.0) (λ q. Valid q.0) _ _
            (next (later 1 draws) p.0 w) (λ q u. u)))

spop_rounds-Valid :
    (n : ℕ) (draws : Draws) (key : String) (db : RedisDb)
    → Valid db
    → Returns (spop_rounds n draws key db) (λ p. Valid p.0)
unfolding spop_rounds
spop_rounds-Valid zero draws key db v = v
spop_rounds-Valid (suc n) draws key db v =
    spop_rounds-at n draws key db _ refl (λ draws' db'. spop_rounds-Valid n draws' key db') v

spop_reply-Sound :
    (with_count : Bool) (db : RedisDb) (deleted : List String)
    → Valid db
    → Sound (spop_reply with_count db deleted)
unfolding spop_reply owed
spop_reply-Sound false db [] v = reply-Sound db null refl v
spop_reply-Sound false db (d ∷ deleted) v = reply-Sound db (bulk d) refl v
spop_reply-Sound true db deleted v = write_all-Sound db deleted v

popped-Sound :
    (with_count : Bool) (o : Option (RedisDb × List String))
    → Returns o (λ p. Valid p.0)
    → Sound (do (db', deleted) ← o; spop_reply with_count db' deleted)
popped-Sound with_count none r = absurd r
popped-Sound with_count (some (db', deleted)) r = spop_reply-Sound with_count db' deleted r

-- SPOP, of any count, also where a set is empty.
pub spop-Sound :
    (draws : Draws) (key : String) (count : ℤ) (with_count : Bool) (db : RedisDb)
    → Valid db
    → Sound (spop draws key count with_count db)
unfolding spop owed
spop-Sound draws key count with_count db v =
    if-Sound (not (exists db key)) _ _
      (λ e.
        if-Sound with_count _ _ (λ many. reply-Sound db _ refl v) (λ one. reply-Sound db _ refl v))
      (λ e.
        if-Sound (not (t db key == "set")) _ _ (λ e. reply-Sound db _ refl v)
          (λ e. popped-Sound with_count _ (spop_rounds-Valid (pos_part count) draws key db v)))

taken-Sound :
    (db : RedisDb) (n : ℕ) (m : List String)
    → Valid db
    → Sound (some (db, array (pos (min n (length m))) ∷ map bulk (take (min n (length m)) m)))
unfolding Sound owed
taken-Sound db n m v =
    let k = min n (length m) in
    (
      v,
      ap (λ i. owed (i + 0) (map bulk (take k m))) (omega (arith, length-take k m))
          ∙ owed-bulks 0 (take k m),
    )

-- SRANDMEMBER with a count that is not negative.
pub srandmember-Sound :
    (draws : Draws) (key : String) (n : ℕ) (db : RedisDb)
    → Valid db
    → Sound (srandmember draws key (pos n) true db)
unfolding srandmember owed
srandmember-Sound draws key n db v =
    if-Sound (not (exists db key)) _ _ (λ e. reply-Sound db _ refl v)
      (λ e.
        if-Sound (not (t db key == "set")) _ _ (λ e. reply-Sound db _ refl v)
          (λ e.
            if-Sound (ltb_ℤ (pos n) (pos 0)) _ _ (λ neg. ground (arith, neg))
              (λ nonneg. taken-Sound db n (shuffle draws (set_members db key)) v)))

pub sscan-Sound :
    (compile : String → Option (String → Bool)) (key : String) (cursor : ℤ) (match : Option String)
    (db : RedisDb)
    → Matches compile match
    → Valid db
    → Sound (sscan compile key cursor match db)
unfolding sscan owed
sscan-Sound compile key cursor match db c v =
    if-Sound (not (cursor == pos 0)) _ _ (λ e. write_scan-Sound db [] v)
      (λ e.
        if-Sound (is_foreign db key) _ _ (λ e. reply-Sound db _ refl v)
          (λ e.
            bind-Sound _ _ (filtered-Returns compile match (set_members db key) c)
              (λ els. write_scan-Sound db els v)))
