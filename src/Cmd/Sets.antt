-- ===== src/Cmd/Sets.antt =====
-- The callbacks of cmd_set.go on the selected database. `draws` is the sequence of numbers that
-- `rand.Intn` takes its results from, and `range` an order in which a map is gone through.
use rediqueue.Base.{
  ℕ, zero, suc, ◌+◌, ◌%◌, String, Bool, true, false, not, List, [], ◌∷◌, map, Option, none, some,
  length, get_elem?, take, swap, min, ◌==◌, string_eq, if◌then◌else◌, ◌>>=◌,
}
use rediqueue.Base.Int.{ℤ, pos, pos_part, neg_part, ltb_ℤ, neg_int, int_eq}
use rediqueue.Base.Dict
use rediqueue.Reply.{Frame, error, bulk, null, array, int, msg_wrong_type}
use rediqueue.Db.{RedisDb, exists, t, del}
use rediqueue.Db.Sets.{
  set_set, set_add, set_rem, set_members, set_is_member, is_foreign, SetResult, set_ok, wrong_type,
  no_keys, set_diff, set_inter, set_union,
}
use rediqueue.Cmd.Lists.{Result, reply}
use rediqueue.Cmd.Keys.{write_all, write_scan, filtered}

abbrev pub Draws : Type 0
Draws = ℕ → ℕ

abbrev pub later : ℕ → Draws → Draws
later n draws i = draws (n + i)

-- members[rand.Intn(len(members))]; `none` is the panic of `Intn` at 0.
unfoldable pub pick : List String → ℕ → Option String
pick members draw = get_elem? members (draw % length members)

unfoldable pub sadd : String → List String → RedisDb → Result
unfolding exists t set_add
sadd key elems db =
    if is_foreign db key
    then reply db (error msg_wrong_type)
    else (let (db', added) = set_add db key elems in reply db' (int (pos added)))

unfoldable pub scard : String → RedisDb → Result
unfolding exists t set_members
scard key db =
    if not (exists db key)
    then reply db (int (pos 0))
    else if not (t db key == "set")
    then reply db (error msg_wrong_type)
    else reply db (int (pos (length (set_members db key))))

-- The end of SDIFF, SINTER and SUNION.
unfoldable pub write_set : (List String → List String) → RedisDb → SetResult → Result
write_set range db wrong_type = reply db (error msg_wrong_type)
write_set range db no_keys = none
write_set range db (set_ok set) =
    some (db, array (pos (length set)) ∷ map bulk (range (Dict.keys set)))

-- The end of SDIFFSTORE, SINTERSTORE and SUNIONSTORE.
unfoldable pub store_result : String → RedisDb → SetResult → Result
unfolding del set_set
store_result dest db wrong_type = reply db (error msg_wrong_type)
store_result dest db no_keys = none
store_result dest db (set_ok set) = do
  db' ← del db dest
  reply (set_set db' dest set) (int (pos (length set)))

unfoldable pub sdiff : (List String → List String) → List String → RedisDb → Result
unfolding set_diff write_set
sdiff range keys db = write_set range db (set_diff db keys)

unfoldable pub sdiffstore : String → List String → RedisDb → Result
unfolding set_diff store_result
sdiffstore dest keys db = store_result dest db (set_diff db keys)

unfoldable pub sinter : (List String → List String) → List String → RedisDb → Result
unfolding set_inter write_set
sinter range keys db = write_set range db (set_inter db keys)

unfoldable pub sinterstore : String → List String → RedisDb → Result
unfolding set_inter store_result
sinterstore dest keys db = store_result dest db (set_inter db keys)

unfoldable pub sunion : (List String → List String) → List String → RedisDb → Result
unfolding set_union write_set
sunion range keys db = write_set range db (set_union db keys)

unfoldable pub sunionstore : String → List String → RedisDb → Result
unfolding set_union store_result
sunionstore dest keys db = store_result dest db (set_union db keys)

unfoldable pub sismember : String → String → RedisDb → Result
unfolding exists t set_is_member
sismember key value db =
    if not (exists db key)
    then reply db (int (pos 0))
    else if not (t db key == "set")
    then reply db (error msg_wrong_type)
    else if set_is_member db key value
    then reply db (int (pos 1))
    else reply db (int (pos 0))

unfoldable pub smembers : String → RedisDb → Result
unfolding exists t set_members
smembers key db =
    if not (exists db key)
    then some (db, array (pos 0) ∷ [])
    else if not (t db key == "set")
    then reply db (error msg_wrong_type)
    else write_all db (set_members db key)

unfoldable pub smove : String → String → String → RedisDb → Result
unfolding exists t set_is_member set_rem set_add
smove src dst elem db =
    if not (exists db src)
    then reply db (int (pos 0))
    else if not (t db src == "set")
    then reply db (error msg_wrong_type)
    else if is_foreign db dst
    then reply db (error msg_wrong_type)
    else if not (set_is_member db src elem)
    then reply db (int (pos 0))
    else (do
      (db', removed) ← set_rem db src (elem ∷ [])
      reply (set_add db' dst (elem ∷ [])).0 (int (pos 1)))

-- The loop of SPOP: the database, and the members that were removed.
unfoldable pub spop_rounds : ℕ → Draws → String → RedisDb → Option (RedisDb × List String)
unfolding set_members pick set_rem
spop_rounds zero draws key db = some (db, [])
spop_rounds (suc n) draws key db = elim (set_members db key) [
  | [] ↦ some (db, [])
  | m ∷ ms ↦ (do
    elem ← pick (m ∷ ms) (draws 0)
    (db', removed) ← set_rem db key (elem ∷ [])
    (db'', deleted) ← spop_rounds n (later 1 draws) key db'
    some (db'', elem ∷ deleted))
]

-- What SPOP writes; with no count a single value.
unfoldable pub spop_reply : Bool → RedisDb → List String → Result
spop_reply false db [] = reply db null
spop_reply false db (d ∷ deleted) = reply db (bulk d)
spop_reply true db deleted = write_all db deleted

-- SPOP behind its arguments: the count, 1 without one, and whether there was one.
unfoldable pub spop : Draws → String → ℤ → Bool → RedisDb → Result
unfolding exists t spop_rounds spop_reply
spop draws key count with_count db =
    if not (exists db key)
    then (if with_count then some (db, array (pos 0) ∷ []) else reply db null)
    else if not (t db key == "set")
    then reply db (error msg_wrong_type)
    else (do
      (db', deleted) ← spop_rounds (pos_part count) draws key db
      spop_reply with_count db' deleted)

-- `shuffle`: as many swaps of two random places as there are elements.
unfoldable pub shuffle_rounds : ℕ → Draws → List String → List String
shuffle_rounds zero draws m = m
shuffle_rounds (suc n) draws m =
    shuffle_rounds n (later 2 draws) (swap m (draws 0 % length m) (draws 1 % length m))

unfoldable pub shuffle : Draws → List String → List String
unfolding shuffle_rounds
shuffle draws m = shuffle_rounds (length m) draws m

-- The loop over a negative count; `none` is the panic of `Intn`.
unfoldable pub draw_members : ℕ → Draws → List String → Option (List Frame)
unfolding pick
draw_members zero draws members = some []
draw_members (suc n) draws members = do
  elem ← pick members (draws 0)
  rest ← draw_members n (later 1 draws) members
  some (bulk elem ∷ rest)

unfoldable pub srandmember : Draws → String → ℤ → Bool → RedisDb → Result
unfolding exists t set_members draw_members shuffle neg_int
srandmember draws key count with_count db =
    if not (exists db key)
    then reply db null
    else if not (t db key == "set")
    then reply db (error msg_wrong_type)
    else if ltb_ℤ count (pos 0)
    then (do
      els ← draw_members (neg_part count) draws (set_members db key)
      some (db, array (neg_int count) ∷ els))
    else (let members = shuffle draws (set_members db key) in
        let n = min (pos_part count) (length members) in
        if not with_count
        then (do m ← get_elem? members 0; reply db (bulk m))
        else some (db, array (pos n) ∷ map bulk (take n members)))

unfoldable pub srem : String → List String → RedisDb → Result
unfolding exists t set_rem
srem key fields db =
    if not (exists db key)
    then reply db (int (pos 0))
    else if not (t db key == "set")
    then reply db (error msg_wrong_type)
    else (do (db', removed) ← set_rem db key fields; reply db' (int (pos removed)))

unfoldable pub sscan :
    (String → Option (String → Bool)) → String → ℤ → Option String → RedisDb → Result
unfolding exists t set_members filtered
sscan compile key cursor match db =
    if not (cursor == pos 0)
    then write_scan db []
    else if is_foreign db key
    then reply db (error msg_wrong_type)
    else (do els ← filtered compile match (set_members db key); write_scan db els)
