-- ===== src/Cmd/Lists.antt =====
-- The callbacks of cmd_list.go: what a list command does to the selected database under the lock.
-- A callback returns the database and the calls of `Write…`; `none` is a panic.
use rediqueue.Base.{
  ℕ, suc, ◌-◌, String, Bool, false, not, ◌&&◌, ◌||◌, List, [], ◌∷◌, ◌++◌, map, Option, none, some,
  length, get_elem?, set, take, drop, reverse_slice, ◌==◌, string_eq, nat_eq, if◌then◌else◌, ◌>>=◌,
}
use rediqueue.Base.Int.{ℤ, pos, negsuc, pos_part, ltb_ℤ, add_int, neg_int}
use rediqueue.Base.Dict.{lookup}
use rediqueue.Reply.{
  Frame, error, bulk, null, array, int, ok, msg_wrong_type, msg_key_not_found, msg_out_of_range,
}
use rediqueue.Range.{redis_range}
use rediqueue.Db.{RedisDb, exists, t, bump, list_at}
use rediqueue.Db.Lists.{list_lpush, list_push, list_lpop, list_pop, store_list, store_bump_or_del}

-- type leftright
pub data LeftRight : Type 0 where
  left right : LeftRight

abbrev pub Result : Type 0
Result = Option (RedisDb × List Frame)

abbrev pub reply : RedisDb → Frame → Result
reply db f = some (db, f ∷ [])

-- `db.exists(key) && db.t(key) != "list"`
abbrev pub is_other : RedisDb → String → Bool
is_other db key = exists db key && not (t db key == "list")

-- `switch lr` of the pops and of the pushes
unfoldable pub pop_side : LeftRight → RedisDb → String → Option (RedisDb × String)
unfolding list_lpop list_pop
pop_side left db key = list_lpop db key
pop_side right db key = list_pop db key

unfoldable pub push_side : LeftRight → RedisDb → String → String → RedisDb × ℕ
unfolding list_lpush list_push
push_side left db key value = list_lpush db key value
push_side right db key value = list_push db key (value ∷ [])

-- The loop `for _, value := range args`, with the last length.
unfoldable pub push_each : LeftRight → RedisDb → String → List String → ℕ → RedisDb × ℕ
unfolding push_side
push_each lr db key [] new_len = (db, new_len)
push_each lr db key (value ∷ args) new_len =
    let (db', n) = push_side lr db key value in push_each lr db' key args n

-- The index that LINDEX and LSET make of their argument, for a list of `n` elements: a negative one
-- counts from the end, and `none` is the case `offset < 0 || offset > len(l)-1`.
unfoldable pub list_index : ℕ → ℤ → Option ℕ
unfolding add_int
list_index n offset =
    let offset' = if ltb_ℤ offset (pos 0) then add_int (pos n) offset else offset in
    if ltb_ℤ offset' (pos 0) || not (ltb_ℤ offset' (pos n)) then none else some (pos_part offset')

-- c.WriteBulk(l[offset]), or nil
unfoldable pub write_index : RedisDb → List String → Option ℕ → Result
write_index db l none = reply db null
write_index db l (some i) = do el ← get_elem? l i; reply db (bulk el)

unfoldable pub lindex : String → ℤ → RedisDb → Result
unfolding list_index write_index
lindex key offset db = elim (lookup db.keys key) [
  | none ↦ reply db null
  | some tag ↦
      if not (tag == "list")
      then reply db (error msg_wrong_type)
      else write_index db (list_at db key) (list_index (length (list_at db key)) offset)
]

-- The index of the first element that is the pivot.
unfoldable pub find_index : String → List String → Option ℕ
find_index pivot [] = none
find_index pivot (el ∷ l) =
    if not (el == pivot) then (do i ← find_index pivot l; some (suc i)) else some 0

-- `where` is -1 for BEFORE and +1 for AFTER.
unfoldable pub insert_at : ℤ → ℕ → String → List String → List String
insert_at where' i value l =
    if ltb_ℤ where' (pos 0)
    then take i l ++ (value ∷ drop i l)
    else if i == length l - 1
    then l ++ value ∷ []
    else take (suc i) l ++ (value ∷ drop (suc i) l)

unfoldable pub linsert : String → ℤ → String → String → RedisDb → Result
linsert key where' pivot value db = elim (lookup db.keys key) [
  | none ↦ reply db (int (pos 0))
  | some tag ↦
      if not (tag == "list")
      then reply db (error msg_wrong_type)
      else elim (find_index pivot (list_at db key)) [
        | none ↦ reply db (int (negsuc 0))
        | some i ↦
            let l = insert_at where' i value (list_at db key) in
            reply (bump (store_list db key l) key) (int (pos (length l)))
      ]
]

unfoldable pub llen : String → RedisDb → Result
llen key db = elim (lookup db.keys key) [
  | none ↦ reply db (int (pos 0))
  | some tag ↦
      if not (tag == "list")
      then reply db (error msg_wrong_type)
      else reply db (int (pos (length (list_at db key))))
]

unfoldable pub xpop : LeftRight → String → RedisDb → Result
unfolding exists t pop_side
xpop lr key db =
    if not (exists db key)
    then reply db null
    else if not (t db key == "list")
    then reply db (error msg_wrong_type)
    else (do (db', elem) ← pop_side lr db key; reply db' (bulk elem))

unfoldable pub xpush : LeftRight → String → List String → RedisDb → Result
unfolding exists t push_each
xpush lr key args db =
    if is_other db key
    then reply db (error msg_wrong_type)
    else (let (db', new_len) = push_each lr db key args 0 in reply db' (int (pos new_len)))

unfoldable pub xpushx : LeftRight → String → List String → RedisDb → Result
unfolding exists t push_each
xpushx lr key args db =
    if not (exists db key)
    then reply db (int (pos 0))
    else if not (t db key == "list")
    then reply db (error msg_wrong_type)
    else (let (db', new_len) = push_each lr db key args 0 in reply db' (int (pos new_len)))

-- l[rs:re]; `none` is the panic of a slice out of bounds.
unfoldable pub slice : List String → ℤ → ℤ → Option (List String)
slice l rs re =
    if ltb_ℤ rs (pos 0) || ltb_ℤ re rs || ltb_ℤ (pos (length l)) re
    then none
    else some (take (pos_part re - pos_part rs) (drop (pos_part rs) l))

unfoldable pub lrange : String → ℤ → ℤ → RedisDb → Result
unfolding redis_range slice add_int neg_int exists t
lrange key start end db =
    if is_other db key then reply db (error msg_wrong_type) else elim (list_at db key) [
      | [] ↦ reply db (array (pos 0))
      | x ∷ xs ↦
          let l = x ∷ xs in
          let (rs, re) = redis_range (pos (length l)) start end false in
          (do els ← slice l rs re; some (db, array (add_int re (neg_int rs)) ∷ map bulk els))
    ]

-- The loop over the list, with what is left to delete: the elements kept, and the number deleted.
unfoldable pub lrem_loop : String → ℤ → List String → List String × ℕ
unfolding add_int
lrem_loop value to_delete [] = ([], 0)
lrem_loop value to_delete (el ∷ l) =
    let hit = el == value && ltb_ℤ (pos 0) to_delete in
    let (new_l, deleted) =
      lrem_loop value (if hit then add_int to_delete (negsuc 0) else to_delete) l in
    if hit then (new_l, suc deleted) else (el ∷ new_l, deleted)

unfoldable pub to_delete_of : ℤ → ℕ → ℤ
unfolding neg_int
to_delete_of count len =
    if ltb_ℤ count (pos 0) then neg_int count else if ltb_ℤ (pos 0) count then count else pos len

-- What LREM makes of a list, and the number of elements deleted.
unfoldable pub lrem_list : ℤ → String → List String → List String × ℕ
lrem_list count value l =
    let l' = if ltb_ℤ count (pos 0) then reverse_slice l else l in
    let (kept, deleted) = lrem_loop value (to_delete_of count (length l')) l' in
    (if ltb_ℤ count (pos 0) then reverse_slice kept else kept, deleted)

unfoldable pub lrem : String → ℤ → String → RedisDb → Result
unfolding exists t store_bump_or_del
lrem key count value db =
    if not (exists db key)
    then reply db (int (pos 0))
    else if not (t db key == "list")
    then reply db (error msg_wrong_type)
    else (do
      let (new_l, deleted) = lrem_list count value (list_at db key)
      db' ← store_bump_or_del db key new_l
      reply db' (int (pos deleted)))

-- l[index] = value
unfoldable pub set_index : RedisDb → String → String → Option ℕ → Result
unfolding bump
set_index db key value none = reply db (error msg_out_of_range)
set_index db key value (some i) =
    reply (bump (store_list db key (set (list_at db key) i value)) key) ok

unfoldable pub lset : String → ℤ → String → RedisDb → Result
unfolding exists t list_index set_index
lset key index value db =
    if not (exists db key)
    then reply db (error msg_key_not_found)
    else if not (t db key == "list")
    then reply db (error msg_wrong_type)
    else set_index db key value (list_index (length (list_at db key)) index)

unfoldable pub ltrim : String → ℤ → ℤ → RedisDb → Result
unfolding redis_range slice store_bump_or_del
ltrim key start end db = elim (lookup db.keys key) [
  | none ↦ reply db ok
  | some tag ↦
      if not (tag == "list")
      then reply db (error msg_wrong_type)
      else (let l = list_at db key in
          let (rs, re) = redis_range (pos (length l)) start end false in
          (do kept ← slice l rs re; db' ← store_bump_or_del db key kept; reply db' ok))
]

unfoldable pub rpoplpush : String → String → RedisDb → Result
unfolding exists t list_pop list_lpush
rpoplpush src dst db =
    if not (exists db src)
    then reply db null
    else if not (t db src == "list") || is_other db dst
    then reply db (error msg_wrong_type)
    else (do (db', elem) ← list_pop db src; reply (list_lpush db' dst elem).0 (bulk elem))
