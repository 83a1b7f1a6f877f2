-- ===== src/Exec/Flush.antt =====
-- FLUSHALL and the keys that a connection watches.
use rediqueue.Base.{ℕ, ◌≡◌, refl, Bool-cases, inl, inr, String, [], ◌∷◌, get_or, ◌==◌}
use rediqueue.Base.Int.{ℤ, int_eq}
use rediqueue.Base.Dict.{Dict, lookup}
use rediqueue.Db.{RedisDb, new_redis_db, version, flush}
use rediqueue.Session.{RediQueue, DbKey, db_of}
use rediqueue.Session.Run.{flush_dbs}
use rediqueue.Handlers.Transactions.{watch_failed}

abbrev pub flushed : RediQueue → RediQueue
flushed m = record m { dbs = flush_dbs m.dbs }

version-lookup :
    (dbs : Dict ℤ RedisDb) (i : ℤ) (k : String)
    → version (get_or (lookup (flush_dbs dbs) i) (new_redis_db i)) k
      ≡ version (get_or (lookup dbs i) (new_redis_db i)) k
unfolding lookup flush_dbs version flush
version-lookup [] i k = refl
version-lookup ((j, db) ∷ dbs) i k = elim (Bool-cases (j == i)) [
  | inl same ↦ rw same refl
  | inr other ↦ rw other (version-lookup dbs i k)
]

version-flushed :
    (m : RediQueue) (i : ℤ) (k : String) → version (db_of (flushed m) i) k ≡ version (db_of m i) k
unfolding db_of
version-flushed m = version-lookup m.dbs

-- FLUSHALL has no effect on the check of EXEC: whatever keys are watched at whatever versions, the check answers after
-- it as before it.
pub watch_failed-flushed :
    (m : RediQueue) (watched : Dict DbKey ℕ)
    → watch_failed (flushed m) watched ≡ watch_failed m watched
unfolding watch_failed
watch_failed-flushed m [] = refl
watch_failed-flushed m ((key, v) ∷ watched) =
    rw (version-flushed m key.db key.key, watch_failed-flushed m watched) refl
