-- ===== src/Sound/Callbacks.antt =====
-- The callbacks on the state of the server keep every database valid and write one reply each.
use rediqueue.Base.{◌≡◌, ◌≢◌, String, true, false, List, [], ◌∷◌, length, string_eq}
use rediqueue.Base.Int.{pos, negsuc, int_eq}
use rediqueue.Db.{RedisDb}
use rediqueue.Cmd.Sets.{Draws}
use rediqueue.Session.{DbCmd, BlockCmd}
use rediqueue.Session.Run.{Env, run_db, run_block}
use rediqueue.Sound.{Valid, Sound}
use rediqueue.Sound.Lists as L
use rediqueue.Sound.Elements as E
use rediqueue.Sound.Keys as K
use rediqueue.Sound.Keys.{Compiles, Matches, flush-Valid}
use rediqueue.Sound.Sets as S
use rediqueue.Sound.Stores as A
use rediqueue.Sound.Draws as D
use rediqueue.Sound.Blocks.{SoundTry, bxpop-SoundTry, brpoplpush-SoundTry}

-- The order in which a map is gone through has each of its keys.
abbrev pub Ordered : Env → Type 0
Ordered e = (l : List String) → length (e.range l) ≡ length l

-- What the callback needs, not to panic: for RENAME two keys, for KEYS, SCAN and SSCAN a pattern that compiles, and for
-- SRANDMEMBER a count that is not negative. The handlers make none without its keys or values.
unfoldable pub FitDb : Env → DbCmd → Type 0
unfolding Compiles
FitDb e (DbCmd.rename_key from to) = from ≢ to
FitDb e (DbCmd.keys_matching pattern') = Compiles e.compile pattern'
FitDb e (DbCmd.scan cursor match) = Matches e.compile match
FitDb e (DbCmd.sscan key cursor match) = Matches e.compile match
FitDb e (DbCmd.srandmember key (pos n) true) = Unit
FitDb e (DbCmd.srandmember key (pos n) false) = ⊥
FitDb e (DbCmd.srandmember key (negsuc n) with_count) = ⊥
FitDb e (DbCmd.xpush lr key []) = ⊥
FitDb e (DbCmd.xpushx lr key []) = ⊥
FitDb e (DbCmd.sdiff []) = ⊥
FitDb e (DbCmd.sinter []) = ⊥
FitDb e (DbCmd.sunion []) = ⊥
FitDb e (DbCmd.sdiffstore dest []) = ⊥
FitDb e (DbCmd.sinterstore dest []) = ⊥
FitDb e (DbCmd.sunionstore dest []) = ⊥
FitDb e _ = Unit

pub run_db-Sound :
    (e : Env) (d : Draws) (cmd : DbCmd) (db : RedisDb)
    → Ordered e
    → FitDb e cmd
    → Valid db
    → Sound (run_db e d cmd db)
unfolding run_db FitDb Valid
run_db-Sound e d (DbCmd.lindex key offset) db o fit (ks, r, full) =
    E.lindex-Sound db ks key r full offset
run_db-Sound e d (DbCmd.linsert key n pivot value) db o fit (ks, r, full) =
    E.linsert-Sound db ks key r full n pivot value
run_db-Sound e d (DbCmd.llen key) db o fit (ks, r, full) = L.llen-Sound db ks key r full
run_db-Sound e d (DbCmd.xpop lr key) db o fit (ks, r, full) = L.xpop-Sound db ks key r full lr
run_db-Sound e d (DbCmd.xpush lr key []) db o fit v = absurd fit
run_db-Sound e d (DbCmd.xpush lr key (a ∷ args)) db o fit (ks, r, full) =
    L.xpush-Sound db ks key r full lr a args
run_db-Sound e d (DbCmd.xpushx lr key []) db o fit v = absurd fit
run_db-Sound e d (DbCmd.xpushx lr key (a ∷ args)) db o fit (ks, r, full) =
    L.xpushx-Sound db ks key r full lr a args
run_db-Sound e d (DbCmd.lrange key start end) db o fit (ks, r, full) =
    E.lrange-Sound db ks key r full start end
run_db-Sound e d (DbCmd.ltrim key start end) db o fit (ks, r, full) =
    E.ltrim-Sound db ks key r full start end
run_db-Sound e d (DbCmd.lrem key count value) db o fit (ks, r, full) =
    E.lrem-Sound db ks key r full count value
run_db-Sound e d (DbCmd.lset key index value) db o fit (ks, r, full) =
    E.lset-Sound db ks key r full index value
run_db-Sound e d (DbCmd.rpoplpush src dst) db o fit (ks, r, full) =
    E.rpoplpush-Sound db ks src r full dst
run_db-Sound e d (DbCmd.del_keys args) db o fit v = K.del_keys-Sound args db v
run_db-Sound e d (DbCmd.exists_keys args) db o fit v = K.exists_keys-Sound args db v
run_db-Sound e d (DbCmd.type_of key) db o fit v = K.type_of-Sound key db v
run_db-Sound e d (DbCmd.keys_matching pattern') db o fit v =
    K.keys_matching-Sound e.compile pattern' db fit v
run_db-Sound e d DbCmd.random_key db o fit v = K.random_key-Sound (d 0) e.range db o v
run_db-Sound e d DbCmd.dbsize db o fit v = K.dbsize-Sound db v
run_db-Sound e d DbCmd.flush_db db o fit v = K.flush_db-Sound db v
run_db-Sound e d (DbCmd.rename_key from to) db o fit v = K.rename_key-Sound from to db fit v
run_db-Sound e d (DbCmd.rename_key_nx from to) db o fit v = K.rename_key_nx-Sound from to db v
run_db-Sound e d (DbCmd.scan cursor match) db o fit v = K.scan-Sound e.compile cursor match db fit v
run_db-Sound e d (DbCmd.sadd key elems) db o fit v = S.sadd-Sound key elems db v
run_db-Sound e d (DbCmd.srem key fields) db o fit v = S.srem-Sound key fields db v
run_db-Sound e d (DbCmd.scard key) db o fit v = S.scard-Sound key db v
run_db-Sound e d (DbCmd.smembers key) db o fit v = S.smembers-Sound key db v
run_db-Sound e d (DbCmd.sdiff []) db o fit v = absurd fit
run_db-Sound e d (DbCmd.sdiff (k ∷ keys)) db o fit v = A.sdiff-Sound e.range k keys db o v
run_db-Sound e d (DbCmd.sinter []) db o fit v = absurd fit
run_db-Sound e d (DbCmd.sinter (k ∷ keys)) db o fit v = A.sinter-Sound e.range k keys db o v
run_db-Sound e d (DbCmd.sunion []) db o fit v = absurd fit
run_db-Sound e d (DbCmd.sunion (k ∷ keys)) db o fit v = A.sunion-Sound e.range k keys db o v
run_db-Sound e d (DbCmd.sdiffstore dest []) db o fit v = absurd fit
run_db-Sound e d (DbCmd.sdiffstore dest (k ∷ keys)) db o fit v = A.sdiffstore-Sound dest k keys db v
run_db-Sound e d (DbCmd.sinterstore dest []) db o fit v = absurd fit
run_db-Sound e d (DbCmd.sinterstore dest (k ∷ keys)) db o fit v =
    A.sinterstore-Sound dest k keys db v
run_db-Sound e d (DbCmd.sunionstore dest []) db o fit v = absurd fit
run_db-Sound e d (DbCmd.sunionstore dest (k ∷ keys)) db o fit v =
    A.sunionstore-Sound dest k keys db v
run_db-Sound e d (DbCmd.sismember key value) db o fit v = S.sismember-Sound key value db v
run_db-Sound e d (DbCmd.smove src dst elem) db o fit v = S.smove-Sound src dst elem db v
run_db-Sound e d (DbCmd.srandmember key (pos n) true) db o fit v = D.srandmember-Sound d key n db v
run_db-Sound e d (DbCmd.srandmember key (pos n) false) db o fit v = absurd fit
run_db-Sound e d (DbCmd.srandmember key (negsuc n) b) db o fit v = absurd fit
run_db-Sound e d (DbCmd.sscan key cursor match) db o fit v =
    D.sscan-Sound e.compile key cursor match db fit v

pub run_block-SoundTry : (cmd : BlockCmd) (db : RedisDb) → Valid db → SoundTry (run_block cmd db)
unfolding run_block
run_block-SoundTry (BlockCmd.bxpop lr keys) db v = bxpop-SoundTry lr keys db v
run_block-SoundTry (BlockCmd.brpoplpush src dst) db v = brpoplpush-SoundTry src dst db v
