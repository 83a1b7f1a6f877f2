-- ===== src/Direct.antt =====
-- direct.go: the methods by which Go code in the same process reads and changes the databases.
pub mod Agree
pub mod Selected
use rediqueue.Base.{
  ℕ, String, Bool, true, false, not, List, Option, none, some, ◌&&◌, ◌==◌, string_eq, if◌then◌else◌,
  ◌>>=◌,
}
use rediqueue.Base.Int.{ℤ}
use rediqueue.Db.{RedisDb, exists, t, list_at, all_keys, flush, del}
use rediqueue.Db.Lists.{list_lpush, list_lpop, list_push, list_pop}
use rediqueue.Db.Sets.{set_add, set_members, set_is_member, set_rem}
use rediqueue.Session.{RediQueue, db_of, put_db}
use rediqueue.Session.Run.{flush_dbs}

-- What a method returns: a value, ErrKeyNotFound or ErrWrongType.
pub data Answer {ℓ} (A : Type ℓ) : Type ℓ where
  done : A → Answer A
  key_not_found wrong_type : Answer A

-- The database afterwards and the answer; `none` is a panic.
abbrev pub Method {ℓ} : Type ℓ → Type ℓ
Method A = RedisDb → Option (RedisDb × Answer A)

abbrev is_tag : RedisDb → String → String → Bool
is_tag db k tag = t db k == tag

abbrev pub direct_keys : RedisDb → List String
direct_keys db = all_keys db

abbrev pub direct_flush_db : RedisDb → RedisDb
direct_flush_db db = flush db

unfoldable pub direct_list : String → Method (List String)
direct_list k db =
    if not (exists db k)
    then some (db, key_not_found)
    else if not (is_tag db k "list")
    then some (db, wrong_type)
    else some (db, done (list_at db k))

unfoldable pub direct_lpush : String → String → Method ℕ
direct_lpush k v db =
    if exists db k && not (is_tag db k "list")
    then some (db, wrong_type)
    else (let (db', n) = list_lpush db k v in some (db', done n))

unfoldable pub direct_lpop : String → Method String
direct_lpop k db =
    if not (exists db k)
    then some (db, key_not_found)
    else if not (is_tag db k "list")
    then some (db, wrong_type)
    else (do (db', el) ← list_lpop db k; some (db', done el))

unfoldable pub direct_push : String → List String → Method ℕ
direct_push k vs db =
    if exists db k && not (is_tag db k "list")
    then some (db, wrong_type)
    else (let (db', n) = list_push db k vs in some (db', done n))

unfoldable pub direct_pop : String → Method String
direct_pop k db =
    if not (exists db k)
    then some (db, key_not_found)
    else if not (is_tag db k "list")
    then some (db, wrong_type)
    else (do (db', el) ← list_pop db k; some (db', done el))

unfoldable pub direct_set_add : String → List String → Method ℕ
direct_set_add k elems db =
    if exists db k && not (is_tag db k "set")
    then some (db, wrong_type)
    else (let (db', n) = set_add db k elems in some (db', done n))

unfoldable pub direct_members : String → Method (List String)
direct_members k db =
    if not (exists db k)
    then some (db, key_not_found)
    else if not (is_tag db k "set")
    then some (db, wrong_type)
    else some (db, done (set_members db k))

unfoldable pub direct_is_member : String → String → Method Bool
direct_is_member k v db =
    if not (exists db k)
    then some (db, key_not_found)
    else if not (is_tag db k "set")
    then some (db, wrong_type)
    else some (db, done (set_is_member db k v))

-- Whether there was a key.
unfoldable pub direct_del : String → RedisDb → Option (RedisDb × Bool)
direct_del k db =
    if not (exists db k) then some (db, false) else (do db' ← del db k; some (db', true))

abbrev pub direct_type : String → RedisDb → String
direct_type k db = t db k

abbrev pub direct_exists : String → RedisDb → Bool
direct_exists k db = exists db k

unfoldable pub direct_srem : String → List String → Method ℕ
direct_srem k fields db =
    if not (exists db k)
    then some (db, key_not_found)
    else if not (is_tag db k "set")
    then some (db, wrong_type)
    else (do (db', n) ← set_rem db k fields; some (db', done n))

-- The methods of RediQueue: the same on the selected database, `m.DB(m.selectedDB)`.
unfoldable pub on_direct {ℓ} :
    {A : Type ℓ} → (RedisDb → Option (RedisDb × A)) → RediQueue → Option (RediQueue × A)
on_direct f m = do (db, a) ← f (db_of m m.selected_db); some (put_db m m.selected_db db, a)

abbrev pub direct_select : ℤ → RediQueue → RediQueue
direct_select i m = record m { selected_db = i }

unfoldable pub direct_flush_all : RediQueue → RediQueue
direct_flush_all m = record m { dbs = flush_dbs m.dbs }
