-- ===== src/Sound/Run.antt =====
-- The callbacks on the state of the server: they keep every database valid, write one reply each and leave the queue of
-- the transaction.
use rediqueue.Base.{
  ◌≡◌, refl, ap, ◌∙◌, String, Bool, true, false, List, [], ◌∷◌, ◌++◌, Option, none, some, get_or,
  string_eq, Returns, Returns-bind, ◌==◌, if◌then◌else◌, ◌>>=◌, Bool-cases, inl, inr,
}
use rediqueue.Base.Int.{ℤ, pos, int_eq}
use mathlib.Core.List.{append-nil}
use rediqueue.Base.Text.{atoi}
use rediqueue.Base.Dict.{Dict, lookup, lookup-insert}
use rediqueue.Reply.{Frame, error, null, int, ok, msg_invalid_int}
use rediqueue.Db.{RedisDb, new_redis_db}
use rediqueue.Cmd.Framing.{IsReply, owed}
use rediqueue.Cmd.Lists.{Result}
use rediqueue.Cmd.Keys.{move_key}
use rediqueue.Cmd.Sets.{Draws}
use rediqueue.Session.{
  BlockCmd, TxCmd, on_selected, attempt, spop_args, move_to, flush_all, unwatch_ok, World,
  RediQueue, ConnCtx, db_of, put_db, get_ctx, write, set_dirty,
}
use rediqueue.Session.Run.{Env, run_cb, run_spop, spop_count, run_move, on_db, try_block, flush_dbs}
use rediqueue.Sound.{Valid, Sound}
use rediqueue.Sound.Keys.{flush-Valid}
use rediqueue.Sound.Draws.{spop-Sound}
use rediqueue.Sound.Move.{move-Valid}
use rediqueue.Sound.Blocks.{Tried, SoundTry}
use rediqueue.Sound.Callbacks.{Ordered, FitDb, run_db-Sound, run_block-SoundTry}

-- Every database is valid.
unfoldable pub Healthy : RediQueue → Type 0
unfolding Valid db_of
Healthy m = (i : ℤ) → Valid (db_of m i)

-- What the connection has been written in addition is exactly one reply.
unfoldable pub Wrote : World → World → Type 0
Wrote w w' = (fs : List Frame) × (w'.peer.out ≡ w.peer.out ++ fs) × IsReply fs

-- A callback from `w` on has returned in `w'`.
unfoldable pub Ran : World → World → Type 0
unfolding Healthy Wrote
Ran w w' = Healthy w'.queue × ((get_ctx w').transaction ≡ (get_ctx w).transaction) × Wrote w w'

pub new-Valid : (i : ℤ) → Valid (new_redis_db i)
unfolding Valid lookup
new-Valid i =
    ((λ k. none), record { tags = λ k. refl; lists = λ k. refl; sets = λ k. refl }, (λ k e. cc))

pub put_db-Healthy :
    (m : RediQueue) (i : ℤ) (db : RedisDb) → Healthy m → Valid db → Healthy (put_db m i db)
unfolding Healthy put_db
put_db-Healthy m i db h v j =
    rw (lookup-insert m.dbs i j db)
      (elim (Bool-cases (i == j)) [ inl same ↦ rw same v | inr other ↦ rw other (h j) ])

on_db-Ran :
    (f : RedisDb → Result) (w : World)
    → ((db : RedisDb) → Valid db → Sound (f db))
    → Healthy w.queue
    → Returns (on_db f w) (Ran w)
unfolding on_db Ran Sound Healthy Wrote
on_db-Ran f w sound h =
    let i = (get_ctx w).selected_db in
    Returns-bind (λ r. Valid r.0 × IsReply r.1) (Ran w) _ _ (sound (db_of w.queue i) (h i))
      (λ r (v, one). (put_db-Healthy w.queue i r.0 h v, refl, (r.1, refl, one)))

dirty-Ran :
    (f : Frame) (w : World) (o : Option ConnCtx)
    → w.peer.ctx ≡ o
    → IsReply (f ∷ [])
    → Healthy w.queue
    → Ran w (write (f ∷ []) (set_dirty w))
unfolding set_dirty Ran Wrote
dirty-Ran f w none e one h = rw e (h, refl, (f ∷ [], refl, one))
dirty-Ran f w (some ctx) e one h = rw e (h, refl, (f ∷ [], refl, one))

spop_count-Ran :
    (d : Draws) (key : String) (count : Option ℤ) (args : List String) (w : World)
    → Healthy w.queue
    → Returns (spop_count d key count args w) (Ran w)
unfolding owed
spop_count-Ran d key none args w h = dirty-Ran (error msg_invalid_int) w _ refl refl h
spop_count-Ran d key (some count) [] w h = on_db-Ran _ w (spop-Sound d key count true) h
spop_count-Ran d key (some count) (a ∷ args) w h = dirty-Ran (error msg_invalid_int) w _ refl refl h

run_spop-Ran :
    (d : Draws) (key : String) (args : List String) (w : World)
    → Healthy w.queue
    → Returns (run_spop d key args w) (Ran w)
unfolding run_spop
run_spop-Ran d key [] w h = on_db-Ran _ w (spop-Sound d key (pos 1) false) h
run_spop-Ran d key (arg ∷ args) w h = spop_count-Ran d key (atoi arg) args w h

Ran-if :
    (w : World) (b : Bool) (x y : Option World)
    → Returns x (Ran w)
    → Returns y (Ran w)
    → Returns (if b then x else y) (Ran w)
Ran-if w true x y p q = p
Ran-if w false x y p q = q

-- One frame is written, and nothing else is done.
said-Ran : (f : Frame) (w : World) → IsReply (f ∷ []) → Healthy w.queue → Ran w (write (f ∷ []) w)
unfolding Ran Wrote
said-Ran f w one h = (h, refl, (f ∷ [], refl, one))

moved-Ran :
    (w : World) (i target : ℤ) (o : Option (RedisDb × RedisDb × Bool))
    → Healthy w.queue
    → Returns o (λ p. Valid p.0 × Valid p.1)
    → Returns
        (do
          (db, to, frames) ← (do
            (db', target', moved) ← o
            some (db', target', int (pos (if moved then 1 else 0)) ∷ []))
          some (write frames (record w { queue = put_db (put_db w.queue i db) target to })))
        (Ran w)
unfolding Ran Wrote owed
moved-Ran w i target none h r = absurd r
moved-Ran w i target (some (db, to, moved)) h (v, u) = (
  put_db-Healthy (put_db w.queue i db) target to (put_db-Healthy w.queue i db h v) u,
  refl,
  (_, refl, refl),
)

run_move-Ran :
    (key : String) (target : ℤ) (w : World)
    → Healthy w.queue
    → Returns (run_move key target w) (Ran w)
unfolding run_move move_key owed Healthy
run_move-Ran key target w h =
    let i = (get_ctx w).selected_db in
    Ran-if w (i == target) _ _ (said-Ran _ w refl h) (
      moved-Ran w i target _ h
        (move-Valid (db_of w.queue i) (db_of w.queue target) key (h i) (h target)))

flush_dbs-Valid :
    (dbs : Dict ℤ RedisDb) (i : ℤ) → Valid (get_or (lookup (flush_dbs dbs) i) (new_redis_db i))
unfolding flush_dbs lookup
flush_dbs-Valid [] i = new-Valid i
flush_dbs-Valid ((j, db) ∷ dbs) i = elim (Bool-cases (j == i)) [
  | inl same ↦ rw same (flush-Valid db)
  | inr other ↦ rw other (flush_dbs-Valid dbs i)
]

-- A try of a blocking command, whether it is done or not.
unfoldable pub Attempted : World → World × Bool → Type 0
unfolding Healthy
Attempted w (w', finished) =
    Healthy w'.queue
    × ((get_ctx w').transaction ≡ (get_ctx w).transaction)
    × ((fs : List Frame) × (w'.peer.out ≡ w.peer.out ++ fs) × Tried fs finished)

pub try_block-Attempted :
    (cmd : BlockCmd) (w : World) → Healthy w.queue → Returns (try_block cmd w) (Attempted w)
unfolding try_block Attempted SoundTry Healthy
try_block-Attempted cmd w h =
    let i = (get_ctx w).selected_db in
    Returns-bind {B = World × Bool} (λ r. Valid r.0 × Tried r.1 r.2) (Attempted w) _ _
      (run_block-SoundTry cmd (db_of w.queue i) (h i))
      (λ r (v, tried). (put_db-Healthy w.queue i r.0 h v, refl, (r.1, refl, tried)))

-- What a callback needs, not to panic.
unfoldable pub Fit : Env → TxCmd → Type 0
unfolding FitDb
Fit e (on_selected cmd) = FitDb e cmd
Fit e _ = Unit

Attempted-Ran :
    (w : World) (o : Option (World × Bool))
    → Returns o (Attempted w)
    → Returns (do (w', finished) ← o; some (if finished then w' else write (null ∷ []) w')) (Ran w)
unfolding Ran Attempted Wrote owed
Attempted-Ran w none r = absurd r
Attempted-Ran w (some (w', true)) (h, same, (fs, e, one)) = (h, same, (fs, e, one))
Attempted-Ran w (some (w', false)) (h, same, (fs, e, none')) = (
  h,
  same,
  (
    null ∷ [],
    ap (λ out. out ++ null ∷ []) (e ∙ ap (λ gs. w.peer.out ++ gs) none' ∙ append-nil w.peer.out),
    refl,
  ),
)

flushed-Ran :
    (w : World)
    → Ran w (write (ok ∷ []) (record w { queue = record w.queue { dbs = flush_dbs w.queue.dbs } }))
unfolding Ran Wrote owed Healthy
flushed-Ran w = (flush_dbs-Valid w.queue.dbs, refl, (ok ∷ [], refl, refl))

-- A callback that is fit keeps every database valid, writes one reply, and does not panic.
pub run_cb-Ran :
    (e : Env) (d : Draws) (cb : TxCmd) (w : World)
    → Ordered e
    → Fit e cb
    → Healthy w.queue
    → Returns (run_cb e d cb w) (Ran w)
unfolding run_cb Fit owed
run_cb-Ran e d (on_selected cmd) w o fit h =
    on_db-Ran _ w (λ db v. run_db-Sound e d cmd db o fit v) h
run_cb-Ran e d (attempt cmd) w o fit h = Attempted-Ran w _ (try_block-Attempted cmd w h)
run_cb-Ran e d (spop_args key args) w o fit h = run_spop-Ran d key args w h
run_cb-Ran e d (move_to key target) w o fit h = run_move-Ran key target w h
run_cb-Ran e d flush_all w o fit h = flushed-Ran w
run_cb-Ran e d unwatch_ok w o fit h = said-Ran _ w refl h
