-- ===== src/Sound/Lists.antt =====
-- The callbacks of cmd_list.go keep a valid database valid and write one reply each.
use rediqueue.Base.{
  ℕ, suc, ◌+◌, ◌≡◌, ◌≢◌, refl, ap, String, List, [], ◌∷◌, Option, none, some, length, length-append,
  length-reverse, arith, string_eq,
}
use mathlib.Core.List.{reverse}
use rediqueue.Reply.{Frame}
use rediqueue.Db.{RedisDb}
use rediqueue.Db.Keyspace.{Value, list, set, Keyspace, Represents}
use rediqueue.Cmd.Framing.{owed, IsReply}
use rediqueue.Cmd.Lists.{LeftRight, left, right, Result, reply, llen, xpush, xpushx, xpop}
use rediqueue.Cmd.ListSpec.{
  Promise, Keeps, llen_at, xpush_at, xpushx_at, xpop_at, popped_at, pushed, end_of,
}
use rediqueue.Cmd.Push.{llen-Keeps, xpush-Keeps, xpushx-Keeps}
use rediqueue.Cmd.Pop.{xpop-Keeps}
use rediqueue.Sound.{Full, Sound, Keeps-Sound, Full-put_list, Full-put_some}

-- A promise that leaves no empty list and writes one reply.
abbrev pub Fine : Promise → Type 0
Fine p = Full p.0 × IsReply p.1

pub Fine-Sound : (res : Result) (p : Promise) → Keeps res p → Fine p → Sound res
Fine-Sound res p k f = Keeps-Sound res p k f.0 f.1

-- A list with an element is not empty.
pub longer : (n : ℕ) (l : List String) → length l ≡ suc n → l ≢ []
longer n l e none' = omega (arith, e, ap length none')

pub pushed-some : (lr : LeftRight) (v : String) (args l : List String) → pushed lr (v ∷ args) l ≢ []
pushed-some left v args l =
    longer (length args + length l) _
      (omega (arith, length-append (reverse (v ∷ args)) l, length-reverse (v ∷ args)))
pushed-some right v args l =
    longer (length l + length args) _ (omega (arith, length-append l (v ∷ args)))

module _ (db : RedisDb) (ks : Keyspace) (key : String) (r : Represents db ks) (full : Full ks) where
  pub llen-Sound : Sound (llen key db)
  unfolding owed
  llen-Sound = Fine-Sound _ _ (llen-Keeps db ks key r) (fine (ks key))
    where
      fine : (o : Option Value) → Fine (llen_at ks o)
      fine none = (full, refl)
      fine (some (list l)) = (full, refl)
      fine (some (set s)) = (full, refl)

  xpush-Fine :
      (lr : LeftRight) (v : String) (args : List String) (o : Option Value)
      → Fine (xpush_at lr ks key (v ∷ args) o)
  unfolding owed
  xpush-Fine lr v args none =
      (Full-put_some ks key (pushed lr (v ∷ args) []) (pushed-some lr v args []) full, refl)
  xpush-Fine lr v args (some (list l)) =
      (Full-put_some ks key (pushed lr (v ∷ args) l) (pushed-some lr v args l) full, refl)
  xpush-Fine lr v args (some (set s)) = (full, refl)

  pub xpush-Sound :
      (lr : LeftRight) (v : String) (args : List String) → Sound (xpush lr key (v ∷ args) db)
  xpush-Sound lr v args =
      Fine-Sound _ _ (xpush-Keeps lr db ks key v args r) (xpush-Fine lr v args (ks key))

  pub xpushx-Sound :
      (lr : LeftRight) (v : String) (args : List String) → Sound (xpushx lr key (v ∷ args) db)
  unfolding owed
  xpushx-Sound lr v args = Fine-Sound _ _ (xpushx-Keeps lr db ks key v args r) (fine (ks key))
    where
      fine : (o : Option Value) → Fine (xpushx_at lr ks key (v ∷ args) o)
      fine none = (full, refl)
      fine (some o) = xpush-Fine lr v args (some o)

  popped-Fine : (o : Option (String × List String)) → Fine (popped_at ks key o)
  unfolding owed
  popped-Fine none = (full, refl)
  popped-Fine (some (x, l)) = (Full-put_list ks key l full, refl)

  pub xpop-Sound : (lr : LeftRight) → Sound (xpop lr key db)
  unfolding owed
  xpop-Sound lr = Fine-Sound _ _ (xpop-Keeps db ks key r lr (full key)) (fine (ks key))
    where
      fine : (o : Option Value) → Fine (xpop_at lr ks key o)
      fine none = (full, refl)
      fine (some (list l)) = popped-Fine (end_of lr l)
      fine (some (set s)) = (full, refl)

  -- A reply of one frame that changes nothing.
  pub same-Sound : (f : Frame) → IsReply (f ∷ []) → Sound (reply db f)
  same-Sound f one = Keeps-Sound _ (ks, f ∷ []) (r, refl) full one
