-- ===== src/Session.antt =====
-- rediqueue.go and the type `Peer` of server/server.go: the state of the server and of a connection.
-- A callback of a transaction, a closure in the source, is a value of `TxCmd` that holds what the
-- closure captures.
pub mod Run
use rediqueue.Base.{
  ℕ, ◌+◌, ◌≡◌, ◌↔◌, refl, String, Bool, true, false, not, ◌&&◌, List, [], ◌∷◌, ◌++◌, Option, none,
  some, is_some, get_or, arith, eq_iff, ◌==◌, Equality, string_eq, if◌then◌else◌,
}
use rediqueue.Base.Int.{ℤ, pos, int_eq, int_beq, int_beq_iff}
use rediqueue.Base.Dict.{Dict, empty, lookup, insert}
use rediqueue.Reply.{Frame, error}
use rediqueue.Db.{RedisDb, new_redis_db, version}
use rediqueue.Cmd.Lists.{LeftRight}

-- The callbacks that work on the selected database alone.
pub data DbCmd : Type 0 where
  lindex : String → ℤ → DbCmd
  linsert : String → ℤ → String → String → DbCmd
  llen : String → DbCmd
  xpop : LeftRight → String → DbCmd
  xpush xpushx : LeftRight → String → List String → DbCmd
  lrange ltrim : String → ℤ → ℤ → DbCmd
  lrem lset : String → ℤ → String → DbCmd
  rpoplpush : String → String → DbCmd
  del_keys exists_keys : List String → DbCmd
  type_of keys_matching : String → DbCmd
  random_key dbsize flush_db : DbCmd
  rename_key rename_key_nx : String → String → DbCmd
  scan : ℤ → Option String → DbCmd
  sadd srem : String → List String → DbCmd
  scard smembers : String → DbCmd
  sdiff sinter sunion : List String → DbCmd
  sdiffstore sinterstore sunionstore : String → List String → DbCmd
  sismember : String → String → DbCmd
  smove : String → String → String → DbCmd
  srandmember : String → ℤ → Bool → DbCmd
  sscan : String → ℤ → Option String → DbCmd

-- The callbacks of the blocking commands.
pub data BlockCmd : Type 0 where
  bxpop : LeftRight → List String → BlockCmd
  brpoplpush : String → String → BlockCmd

-- type txCmd
pub data TxCmd : Type 0 where
  on_selected : DbCmd → TxCmd
  attempt : BlockCmd → TxCmd
  spop_args : String → List String → TxCmd
  move_to : String → ℤ → TxCmd
  flush_all unwatch_ok : TxCmd

-- type dbKey
pub record DbKey : Type 0 where
  pub db : ℤ
  pub key : String

abbrev pub key_beq : DbKey → DbKey → Bool
key_beq a b = int_beq a.db b.db && a.key == b.key

pub key_beq_iff : (a b : DbKey) → (key_beq a b ≡ true) ↔ (a ≡ b)
key_beq_iff a b = ground (arith, int_beq_iff a.db b.db, eq_iff a.key b.key)

instance abbrev pub key_eq : Equality DbKey
key_eq = record { beq = key_beq; beq_iff = key_beq_iff }

-- type connCtx; a nil `watch` is the empty map, as every use of it reads it.
pub record ConnCtx : Type 0 where
  pub selected_db : ℤ
  pub authenticated : Bool
  pub transaction : Option (List TxCmd)
  pub dirty_transaction : Bool
  pub watch : Dict DbKey ℕ

abbrev pub new_ctx : ConnCtx
new_ctx = record {
  selected_db = pos 0;
  authenticated = false;
  transaction = none;
  dirty_transaction = false;
  watch = empty;
}

-- type Peer: what was written and not yet sent, and `Ctx`, nil before its first use.
pub record Peer : Type 0 where
  pub out : List Frame
  pub closed : Bool
  pub ctx : Option ConnCtx

-- type RediQueue: the fields that the commands read.
pub record RediQueue : Type 0 where
  pub password : String
  pub dbs : Dict ℤ RedisDb
  pub selected_db : ℤ

-- A connection beside the server that it talks to; `info_cmds` is the counter of type Server.
pub record World : Type 0 where
  pub queue : RediQueue
  pub peer : Peer
  pub info_cmds : ℕ

-- m.db(i): the database, made if it is not there yet.
unfoldable pub db_of : RediQueue → ℤ → RedisDb
db_of m i = get_or (lookup m.dbs i) (new_redis_db i)

-- A write through the pointer that `m.db(i)` returns.
unfoldable pub put_db : RediQueue → ℤ → RedisDb → RediQueue
put_db m i db = record m { dbs = insert m.dbs i db }

-- getCtx(c)
abbrev pub get_ctx : World → ConnCtx
get_ctx w = get_or w.peer.ctx new_ctx

abbrev pub put_ctx : World → ConnCtx → World
put_ctx w ctx = record w { peer = record w.peer { ctx = some ctx } }

abbrev pub write : List Frame → World → World
write fs w = record w { peer = record w.peer { out = w.peer.out ++ fs } }

unfoldable pub handle_auth : World → Bool × World
handle_auth w =
    if w.queue.password == ""
    then (true, w)
    else if (get_ctx w).authenticated
    then (true, put_ctx w (get_ctx w))
    else (false, write (error "NOAUTH Authentication required." ∷ []) (put_ctx w (get_ctx w)))

abbrev pub start_tx : ConnCtx → ConnCtx
start_tx ctx = record ctx { transaction = some []; dirty_transaction = false }

-- unwatch(ctx)
abbrev pub unwatch : ConnCtx → ConnCtx
unwatch ctx = record ctx { watch = empty }

abbrev pub stop_tx : ConnCtx → ConnCtx
stop_tx ctx = unwatch (record ctx { transaction = none })

abbrev pub in_tx : ConnCtx → Bool
in_tx ctx = is_some ctx.transaction

abbrev pub add_tx_cmd : ConnCtx → TxCmd → ConnCtx
add_tx_cmd ctx cb = record ctx { transaction = some (get_or ctx.transaction [] ++ cb ∷ []) }

-- watch(db, ctx, key)
unfoldable pub watch_key : RedisDb → ConnCtx → String → ConnCtx
unfolding version
watch_key db ctx key = record ctx {
  watch = insert ctx.watch (record { db = db.id; key = key }) (version db key);
}

-- A connection without a context is left alone.
unfoldable pub set_dirty : World → World
set_dirty w = elim w.peer.ctx [
  | none ↦ w
  | some ctx ↦ put_ctx w (record ctx { dirty_transaction = true })
]

abbrev pub set_authenticated : World → World
set_authenticated w = put_ctx w (record (get_ctx w) { authenticated = true })
