-- ===== src/Db.antt =====
-- db.go and the type `RedisDB` of rediqueue.go: the state of one database, and the operations on
-- keys. The children hold the list and the set operations, and the proofs.
pub mod Lists
pub mod Sets
pub mod Keyspace
pub mod Refine
pub mod RefineSets
pub mod Members
pub mod Algebra
pub mod Moves
use rediqueue.Base.{
  ℕ, ◌+◌, ◌%◌, ◌^◌, ◌≡◌, refl, String, Bool, List, Option, none, some, get_or, is_some, arith, ◌==◌,
  string_eq, if◌then◌else◌, ◌>>=◌, true, false, [], sort_strings,
}
use rediqueue.Base.Int.{ℤ}
use rediqueue.Base.Dict
use rediqueue.Base.Dict.{Dict, empty, lookup, insert, delete}

-- type setKey map[string]struct{}
abbrev pub SetKey : Type 0
SetKey = Dict String (Unit {0})

-- The field `master`, a pointer to the lock of the server, has no part in the state.
pub record RedisDb : Type 0 where
  pub id : ℤ
  pub keys : Dict String String
  pub list_keys : Dict String (List String)
  pub set_keys : Dict String SetKey
  pub key_version : Dict String ℕ

abbrev pub new_redis_db : ℤ → RedisDb
new_redis_db id = record {
  id = id;
  keys = empty;
  list_keys = empty;
  set_keys = empty;
  key_version = empty;
}

unfoldable pub exists : RedisDb → String → Bool
exists db k = is_some (lookup db.keys k)

-- The type of a key, or "".
unfoldable pub t : RedisDb → String → String
t db k = get_or (lookup db.keys k) ""

-- `db.keyVersion[k]`, 0 where there is no entry.
unfoldable pub version : RedisDb → String → ℕ
version db k = get_or (lookup db.key_version k) 0

-- db.keyVersion[k]++ on a 64-bit `uint`
unfoldable pub bump : RedisDb → String → RedisDb
bump db k = record db {
  key_version = insert db.key_version k ((get_or (lookup db.key_version k) 0 + 1) % 2 ^ 64);
}

-- `db.listKeys[k]` and `db.setKeys[k]`, nil where there is no entry.
abbrev pub list_at : RedisDb → String → List String
list_at db k = get_or (lookup db.list_keys k) []

abbrev pub set_at : RedisDb → String → SetKey
set_at db k = get_or (lookup db.set_keys k) empty

unfoldable pub flush : RedisDb → RedisDb
flush db = record db { keys = empty; list_keys = empty; set_keys = empty }

-- The `switch` of `del`; `none` is the panic.
unfoldable pub del_value : RedisDb → String → String → Option RedisDb
del_value db k tag =
    if tag == "list"
    then some (record db { list_keys = delete db.list_keys k })
    else if tag == "set"
    then some (record db { set_keys = delete db.set_keys k })
    else none

unfoldable pub del : RedisDb → String → Option RedisDb
unfolding exists t bump del_value
del db k =
    if exists db k
    then del_value (bump (record db { keys = delete db.keys k }) k) k (t db k)
    else some db

-- The `switch` of `move`, with the entry of `to.keys` written.
unfoldable pub move_value : RedisDb → String → RedisDb → String → Option RedisDb
move_value db key to tag =
    if tag == "list"
    then some (record to { list_keys = insert to.list_keys key (list_at db key) })
    else if tag == "set"
    then some (record to { set_keys = insert to.set_keys key (set_at db key) })
    else none

unfoldable pub move : RedisDb → String → RedisDb → Option (RedisDb × RedisDb × Bool)
unfolding exists t bump del move_value
move db key to =
    if exists to key
    then some (db, to, false)
    else if exists db key
    then (do
      let tag = t db key
      to' ← move_value db key (record to { keys = insert to.keys key tag }) tag
      db' ← del db key
      some (db', bump to' key, true))
    else some (db, to, false)

-- The `switch` of `rename`.
unfoldable pub rename_value : RedisDb → String → String → String → Option RedisDb
rename_value db from to tag =
    if tag == "list"
    then some (record db { list_keys = insert db.list_keys to (list_at db from) })
    else if tag == "set"
    then some (record db { set_keys = insert db.set_keys to (set_at db from) })
    else none

unfoldable pub rename : RedisDb → String → String → Option RedisDb
unfolding t bump del rename_value
rename db from to = do
  cleared ← del db to
  moved ← rename_value cleared from to (t cleared from)
  del (bump (record moved { keys = insert moved.keys to (t moved from) }) to) from

-- The keys, sorted.
unfoldable pub all_keys : RedisDb → List String
unfolding sort_strings
all_keys db = sort_strings (Dict.keys db.keys)
