-- ===== src/Db/Sets.antt =====
-- The set operations of db.go.
use rediqueue.Base.{
  ℕ, ◌+◌, String, Bool, not, List, [], ◌∷◌, Option, none, some, is_some, ◌==◌, ◌&&◌, if◌then◌else◌,
  ◌>>=◌, string_eq, sort_strings,
}
use rediqueue.Base.Dict
use rediqueue.Base.Dict.{lookup, insert, delete, empty}
use rediqueue.Db.{RedisDb, SetKey, set_at, bump, del, exists, t}

-- _, ok := s[e]
unfoldable pub member : SetKey → String → Bool
member s e = is_some (lookup s e)

-- s[e] = struct{}{}
abbrev pub add : SetKey → String → SetKey
add s e = insert s e tt

-- Replaces a whole set.
unfoldable pub set_set : RedisDb → String → SetKey → RedisDb
unfolding bump
set_set db k set =
    bump (record db { keys = insert db.keys k "set"; set_keys = insert db.set_keys k set }) k

-- The loop of `setAdd`: the set, and the number of new members.
unfoldable pub add_all : SetKey → List String → SetKey × ℕ
unfolding member
add_all s [] = (s, 0)
add_all s (e ∷ elems) =
    let (s', added) = add_all (add s e) elems in (s', (if member s e then 0 else 1) + added)

-- `if !ok { db.keys[k] = "set" }`
unfoldable pub tag_set : RedisDb → String → RedisDb
tag_set db k =
    if is_some (lookup db.set_keys k) then db else record db { keys = insert db.keys k "set" }

-- Adds members to a set. Returns the number of new ones.
unfoldable pub set_add : RedisDb → String → List String → RedisDb × ℕ
unfolding tag_set add_all bump
set_add db k elems =
    let (s, added) = add_all (set_at db k) elems in
    let db' = tag_set db k in (bump (record db' { set_keys = insert db'.set_keys k s }) k, added)

-- The loop of `setRem`: the set, and the number of members deleted.
unfoldable pub remove_all : SetKey → List String → SetKey × ℕ
unfolding member
remove_all s [] = (s, 0)
remove_all s (f ∷ fields) =
    let (s', removed) = remove_all (if member s f then delete s f else s) fields in
    (s', (if member s f then 1 else 0) + removed)

-- `if len(s) == 0 { db.del(k) } else { db.setKeys[k] = s }`
unfoldable pub store_set_or_del : RedisDb → String → SetKey → Option RedisDb
unfolding del
store_set_or_del db k [] = del (record db { set_keys = insert db.set_keys k [] }) k
store_set_or_del db k (e ∷ s) = some (record db { set_keys = insert db.set_keys k (e ∷ s) })

-- Removes members from a set. Returns the number deleted; `none` is a panic of `del`.
unfoldable pub set_rem : RedisDb → String → List String → Option (RedisDb × ℕ)
unfolding remove_all store_set_or_del bump
set_rem db k fields = elim (lookup db.set_keys k) [
  | none ↦ some (db, 0)
  | some s ↦ (do
    let (s', removed) = remove_all s fields
    db' ← store_set_or_del db k s'
    some (bump db' k, removed))
]

-- All members of a set, sorted.
unfoldable pub set_members : RedisDb → String → List String
unfolding sort_strings
set_members db k = sort_strings (Dict.keys (set_at db k))

-- Is a SET value present?
unfoldable pub set_is_member : RedisDb → String → String → Bool
unfolding member
set_is_member db k v = member (set_at db k) v

abbrev pub is_foreign : RedisDb → String → Bool
is_foreign db k = exists db k && not (t db k == "set")

-- A copy of the set at a key, as the loops over `db.setKeys[key]` fill it.
unfoldable pub copy_from : SetKey → List String → SetKey
copy_from s [] = s
copy_from s (e ∷ es) = copy_from (add s e) es

unfoldable pub delete_from : SetKey → List String → SetKey
delete_from s [] = s
delete_from s (e ∷ es) = delete_from (delete s e) es

-- The members of the first set that `other` has too; the others are deleted in the loop over them.
unfoldable pub keep_in : SetKey → List String → SetKey → SetKey
unfolding member
keep_in s [] other = s
keep_in s (e ∷ es) other = keep_in (if member other e then s else delete s e) es other

-- The loops over the other keys. `none` is `ErrWrongType`.
unfoldable pub diff_keys : RedisDb → SetKey → List String → Option SetKey
unfolding exists t delete_from
diff_keys db s [] = some s
diff_keys db s (sk ∷ keys) =
    let rest =
      diff_keys db (if exists db sk then delete_from s (Dict.keys (set_at db sk)) else s) keys in
    if is_foreign db sk then none else rest

unfoldable pub inter_keys : RedisDb → SetKey → List String → SetKey
unfolding exists t keep_in
inter_keys db s [] = s
inter_keys db s (sk ∷ keys) =
    inter_keys db
      (if exists db sk && t db sk == "set" then keep_in s (Dict.keys s) (set_at db sk) else s) keys

unfoldable pub union_keys : RedisDb → SetKey → List String → Option SetKey
unfolding exists t copy_from
union_keys db s [] = some s
union_keys db s (sk ∷ keys) =
    let rest =
      union_keys db (if exists db sk then copy_from s (Dict.keys (set_at db sk)) else s) keys in
    if is_foreign db sk then none else rest

-- What `setDiff`, `setInter` and `setUnion` return: a set, ErrWrongType, or the panic of `keys[0]`.
pub data SetResult : Type 0 where
  set_ok : SetKey → SetResult
  wrong_type no_keys : SetResult

abbrev pub to_result : Option SetKey → SetResult
to_result none = wrong_type
to_result (some s) = set_ok s

-- The logic behind SDIFF*, SINTER* and SUNION*.
unfoldable pub set_diff : RedisDb → List String → SetResult
unfolding exists t copy_from diff_keys
set_diff db [] = no_keys
set_diff db (key ∷ keys) =
    if is_foreign db key
    then wrong_type
    else to_result (diff_keys db (copy_from empty (Dict.keys (set_at db key))) keys)

unfoldable pub set_inter : RedisDb → List String → SetResult
unfolding exists t copy_from inter_keys
set_inter db [] = no_keys
set_inter db (key ∷ keys) =
    if is_foreign db key
    then wrong_type
    else set_ok (inter_keys db (copy_from empty (Dict.keys (set_at db key))) keys)

unfoldable pub set_union : RedisDb → List String → SetResult
unfolding exists t copy_from union_keys
set_union db [] = no_keys
set_union db (key ∷ keys) =
    if is_foreign db key
    then wrong_type
    else to_result (union_keys db (copy_from empty (Dict.keys (set_at db key))) keys)
