-- ===== src/Db/Lists.antt =====
-- The list operations of db.go. `none` is the panic of an index out of range.
use rediqueue.Base.{
  ℕ, String, List, [], ◌∷◌, ◌++◌, Option, none, some, is_some, length, if◌then◌else◌, ◌>>=◌,
  string_eq,
}
use rediqueue.Base.Dict.{lookup, insert}
use rediqueue.Db.{RedisDb, list_at, bump, del}

-- `if !ok { db.keys[k] = "list" }`
unfoldable pub tag_list : RedisDb → String → RedisDb
tag_list db k =
    if is_some (lookup db.list_keys k) then db else record db { keys = insert db.keys k "list" }

abbrev pub store_list : RedisDb → String → List String → RedisDb
store_list db k l = record db { list_keys = insert db.list_keys k l }

-- 'left push', aka unshift. Returns the new length.
unfoldable pub list_lpush : RedisDb → String → String → RedisDb × ℕ
unfolding tag_list bump
list_lpush db k v = let l = v ∷ list_at db k in (bump (store_list (tag_list db k) k l) k, length l)

-- Returns the new length.
unfoldable pub list_push : RedisDb → String → List String → RedisDb × ℕ
unfolding tag_list bump
list_push db k vs =
    let l = list_at db k ++ vs in (bump (store_list (tag_list db k) k l) k, length l)

-- `if len(l) == 0 { db.del(k) } else { db.listKeys[k] = l }`
unfoldable pub store_or_del : RedisDb → String → List String → Option RedisDb
unfolding del
store_or_del db k [] = del db k
store_or_del db k (x ∷ l) = some (store_list db k (x ∷ l))

-- The `else` branch also counts the version up.
unfoldable pub store_bump_or_del : RedisDb → String → List String → Option RedisDb
unfolding del bump
store_bump_or_del db k [] = del db k
store_bump_or_del db k (x ∷ l) = some (bump (store_list db k (x ∷ l)) k)

unfoldable pub lpop_from : RedisDb → String → List String → Option (RedisDb × String)
unfolding store_or_del bump
lpop_from db k [] = none
lpop_from db k (el ∷ l) = do db' ← store_or_del db k l; some (bump db' k, el)

-- 'left pop', aka shift.
unfoldable pub list_lpop : RedisDb → String → Option (RedisDb × String)
unfolding lpop_from
list_lpop db k = lpop_from db k (list_at db k)

-- l[:len(l)-1] and l[len(l)-1]
unfoldable pub unsnoc : List String → Option (List String × String)
unsnoc [] = none
unsnoc (x ∷ l) = elim (unsnoc l) [ none ↦ some ([], x) | some (front, el) ↦ some (x ∷ front, el) ]

unfoldable pub list_pop : RedisDb → String → Option (RedisDb × String)
unfolding unsnoc store_bump_or_del
list_pop db k = do (l, el) ← unsnoc (list_at db k); db' ← store_bump_or_del db k l; some (db', el)
