-- ===== src/Session/Run.antt =====
-- The callbacks run on the state of the server, and `withTx` and `blocking` of redis.go.
use rediqueue.Base.{
  ℕ, ◌*◌, String, Bool, true, false, List, [], ◌∷◌, Option, none, some, ◌==◌, if◌then◌else◌, ◌>>=◌,
}
use rediqueue.Base.Int.{ℤ, pos, int_eq, wrap}
use rediqueue.Base.Text.{atoi}
use rediqueue.Base.Dict.{Dict}
use rediqueue.Reply.{error, inline, null, ok, msg_invalid_int}
use rediqueue.Db.{RedisDb, flush}
use rediqueue.Cmd.Lists as L
use rediqueue.Cmd.Lists.{Result}
use rediqueue.Cmd.Keys as K
use rediqueue.Cmd.Sets as S
use rediqueue.Cmd.Sets.{Draws}
use rediqueue.Cmd.Blocking as B
use rediqueue.Cmd.Blocking.{Attempt}
use rediqueue.Session.{
  DbCmd, BlockCmd, TxCmd, on_selected, attempt, spop_args, move_to, flush_all, unwatch_ok, World,
  db_of, put_db, get_ctx, put_ctx, write, add_tx_cmd, in_tx, set_dirty,
}

-- What Go leaves open: the expressions of `regexp` and the order in which a map is gone through.
pub record Env : Type 0 where
  pub compile : String → Option (String → Bool)
  pub range : List String → List String

-- And the random numbers that the i-th callback of a command draws.
pub record Host : Type 0 where
  pub env : Env
  pub draws : ℕ → Draws

unfoldable pub run_db : Env → Draws → DbCmd → RedisDb → Result
run_db h d (DbCmd.lindex key offset) = L.lindex key offset
run_db h d (DbCmd.linsert key where' pivot value) = L.linsert key where' pivot value
run_db h d (DbCmd.llen key) = L.llen key
run_db h d (DbCmd.xpop lr key) = L.xpop lr key
run_db h d (DbCmd.xpush lr key args) = L.xpush lr key args
run_db h d (DbCmd.xpushx lr key args) = L.xpushx lr key args
run_db h d (DbCmd.lrange key start end) = L.lrange key start end
run_db h d (DbCmd.ltrim key start end) = L.ltrim key start end
run_db h d (DbCmd.lrem key count value) = L.lrem key count value
run_db h d (DbCmd.lset key index value) = L.lset key index value
run_db h d (DbCmd.rpoplpush src dst) = L.rpoplpush src dst
run_db h d (DbCmd.del_keys args) = K.del_keys args
run_db h d (DbCmd.exists_keys args) = K.exists_keys args
run_db h d (DbCmd.type_of key) = K.type_of key
run_db h d (DbCmd.keys_matching pattern') = K.keys_matching h.compile pattern'
run_db h d DbCmd.random_key = K.random_key (d 0) h.range
run_db h d DbCmd.dbsize = K.dbsize
run_db h d DbCmd.flush_db = K.flush_db
run_db h d (DbCmd.rename_key from to) = K.rename_key from to
run_db h d (DbCmd.rename_key_nx from to) = K.rename_key_nx from to
run_db h d (DbCmd.scan cursor match) = K.scan h.compile cursor match
run_db h d (DbCmd.sadd key elems) = S.sadd key elems
run_db h d (DbCmd.srem key fields) = S.srem key fields
run_db h d (DbCmd.scard key) = S.scard key
run_db h d (DbCmd.smembers key) = S.smembers key
run_db h d (DbCmd.sdiff keys) = S.sdiff h.range keys
run_db h d (DbCmd.sinter keys) = S.sinter h.range keys
run_db h d (DbCmd.sunion keys) = S.sunion h.range keys
run_db h d (DbCmd.sdiffstore dest keys) = S.sdiffstore dest keys
run_db h d (DbCmd.sinterstore dest keys) = S.sinterstore dest keys
run_db h d (DbCmd.sunionstore dest keys) = S.sunionstore dest keys
run_db h d (DbCmd.sismember key value) = S.sismember key value
run_db h d (DbCmd.smove src dst elem) = S.smove src dst elem
run_db h d (DbCmd.srandmember key count with_count) = S.srandmember d key count with_count
run_db h d (DbCmd.sscan key cursor match) = S.sscan h.compile key cursor match

unfoldable pub run_block : BlockCmd → RedisDb → Attempt
run_block (BlockCmd.bxpop lr keys) = B.bxpop lr keys
run_block (BlockCmd.brpoplpush src dst) = B.brpoplpush src dst

-- db := m.db(ctx.selectedDB), and what the callback does to it and writes.
unfoldable pub on_db : (RedisDb → Result) → World → Option World
unfolding db_of put_db
on_db f w = do
  let i = (get_ctx w).selected_db
  (db, frames) ← f (db_of w.queue i)
  some (write frames (record w { queue = put_db w.queue i db }))

-- One try of a blocking command, and whether it is done.
unfoldable pub try_block : BlockCmd → World → Option (World × Bool)
unfolding db_of put_db
try_block cmd w = do
  let i = (get_ctx w).selected_db
  (db, frames, finished) ← run_block cmd (db_of w.queue i)
  some (write frames (record w { queue = put_db w.queue i db }), finished)

-- The callback of SPOP behind strconv.Atoi, of which `none` is the error.
abbrev pub spop_count : Draws → String → Option ℤ → List String → World → Option World
spop_count d key none args w = some (write (error msg_invalid_int ∷ []) (set_dirty w))
spop_count d key (some count) [] w = on_db (S.spop d key count true) w
spop_count d key (some count) (a ∷ args) w = some (write (error msg_invalid_int ∷ []) (set_dirty w))

-- The callback of SPOP reads its arguments itself, and may mark the transaction dirty.
unfoldable pub run_spop : Draws → String → List String → World → Option World
unfolding on_db set_dirty
run_spop d key [] w = on_db (S.spop d key (pos 1) false) w
run_spop d key (arg ∷ args) w = spop_count d key (atoi arg) args w

-- The callback of MOVE.
unfoldable pub run_move : String → ℤ → World → Option World
unfolding db_of put_db
run_move key target w =
    let i = (get_ctx w).selected_db in
    if i == target
    then some (write (error "ERR source and destination objects are the same" ∷ []) w)
    else (do
      (db, to, frames) ← K.move_key key (db_of w.queue i) (db_of w.queue target)
      some (write frames (record w { queue = put_db (put_db w.queue i db) target to })))

-- flushAll
unfoldable pub flush_dbs : Dict ℤ RedisDb → Dict ℤ RedisDb
unfolding flush
flush_dbs [] = []
flush_dbs ((i, db) ∷ dbs) = (i, flush db) ∷ flush_dbs dbs

-- A callback under the lock; `none` is a panic.
unfoldable pub run_cb : Env → Draws → TxCmd → World → Option World
unfolding on_db try_block run_spop run_move flush_dbs
run_cb h d (on_selected cmd) w = on_db (run_db h d cmd) w
run_cb h d (attempt cmd) w = do
  (w', finished) ← try_block cmd w
  some (if finished then w' else write (null ∷ []) w')
run_cb h d (spop_args key args) w = run_spop d key args w
run_cb h d (move_to key target) w = run_move key target w
run_cb h d flush_all w =
    some (write (ok ∷ []) (record w { queue = record w.queue { dbs = flush_dbs w.queue.dbs } }))
run_cb h d unwatch_ok w = some (write (ok ∷ []) w)

-- How a handler ends: it has returned, with a call of `Broadcast` or without, or it waits in `blocking`
-- for a broadcast or for the timeout, a duration in nanoseconds (0 for none), or it has panicked.
pub data Outcome : Type 0 where
  returned : Bool → World → Outcome
  waiting : BlockCmd → ℤ → World → Outcome
  panic : Outcome

abbrev pub or_panic : Bool → Option World → Outcome
or_panic broadcast none = panic
or_panic broadcast (some w) = returned broadcast w

abbrev pub enqueue : TxCmd → World → World
enqueue cb w = write (inline "QUEUED" ∷ []) (put_ctx w (add_tx_cmd (get_ctx w) cb))

unfoldable pub with_tx : Host → TxCmd → World → Outcome
unfolding run_cb
with_tx h cb w =
    if in_tx (get_ctx w)
    then returned false (enqueue cb w)
    else or_panic true (run_cb h.env (h.draws 0) cb (put_ctx w (get_ctx w)))

-- After one try: a command that is done returns with no broadcast.
abbrev pub after_try : BlockCmd → ℤ → Option (World × Bool) → Outcome
after_try cmd timeout none = panic
after_try cmd timeout (some (w, true)) = returned false w
after_try cmd timeout (some (w, false)) = waiting cmd timeout w

unfoldable pub blocking : ℤ → BlockCmd → World → Outcome
unfolding try_block
blocking timeout cmd w =
    if in_tx (get_ctx w)
    then returned false (enqueue (attempt cmd) w)
    else after_try cmd timeout (try_block cmd (put_ctx w (get_ctx w)))

-- time.Duration(timeout) * time.Second, for a timeout that is not negative
abbrev pub seconds : ℕ → ℤ
seconds n = wrap (pos (n * 1000000000))
