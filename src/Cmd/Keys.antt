-- ===== src/Cmd/Keys.antt =====
-- The callbacks of cmd_generic.go and cmd_server.go on the selected database.
use rediqueue.Base.{
  ℕ, ◌+◌, ◌%◌, String, Bool, not, List, [], ◌∷◌, map, Option, none, some, length, get_elem?, ◌==◌,
  string_eq, if◌then◌else◌, ◌>>=◌,
}
use rediqueue.Base.Int.{ℤ, pos, int_eq}
use rediqueue.Base.Dict
use rediqueue.Base.Dict.{lookup}
use rediqueue.Reply.{Frame, error, inline, bulk, null, array, int, ok, msg_key_not_found}
use rediqueue.Keys.{match_keys}
use rediqueue.Db.{RedisDb, exists, del, move, rename, all_keys, flush}
use rediqueue.Cmd.Lists.{Result, reply}

-- The loop of DEL: the database, and the number of keys that were there.
unfoldable pub del_each : RedisDb → List String → ℕ → Option (RedisDb × ℕ)
unfolding exists del
del_each db [] count = some (db, count)
del_each db (key ∷ args) count = do
  db' ← del db key
  del_each db' args (if exists db key then count + 1 else count)

unfoldable pub del_keys : List String → RedisDb → Result
unfolding del_each
del_keys args db = do (db', count) ← del_each db args 0; reply db' (int (pos count))

unfoldable pub type_of : String → RedisDb → Result
type_of key db = elim (lookup db.keys key) [
  | none ↦ reply db (inline "none")
  | some tag ↦ reply db (inline tag)
]

unfoldable pub count_existing : RedisDb → List String → ℕ
unfolding exists
count_existing db [] = 0
count_existing db (k ∷ args) = (if exists db k then 1 else 0) + count_existing db args

unfoldable pub exists_keys : List String → RedisDb → Result
unfolding count_existing
exists_keys args db = reply db (int (pos (count_existing db args)))

-- A length, and then each text as a bulk string.
abbrev pub write_all : RedisDb → List String → Result
write_all db els = some (db, array (pos (length els)) ∷ map bulk els)

unfoldable pub keys_matching : (String → Option (String → Bool)) → String → RedisDb → Result
unfolding match_keys all_keys
keys_matching compile pattern db = do
  found ← match_keys compile (all_keys db) pattern
  write_all db found

-- `draw` is the number that `rand.Intn` takes its result from, and `range` an order of the keys.
unfoldable pub random_key : ℕ → (List String → List String) → RedisDb → Result
random_key draw range db = elim (Dict.keys db.keys) [
  | [] ↦ reply db null
  | k ∷ ks ↦ elim (get_elem? (range (k ∷ ks)) (draw % length (k ∷ ks))) [
    | none ↦ some (db, [])
    | some key ↦ reply db (bulk key)
  ]
]

unfoldable pub rename_key : String → String → RedisDb → Result
unfolding exists rename
rename_key from to db =
    if not (exists db from)
    then reply db (error msg_key_not_found)
    else (do db' ← rename db from to; reply db' ok)

unfoldable pub rename_key_nx : String → String → RedisDb → Result
unfolding exists rename
rename_key_nx from to db =
    if not (exists db from)
    then reply db (error msg_key_not_found)
    else if exists db to
    then reply db (int (pos 0))
    else (do db' ← rename db from to; reply db' (int (pos 1)))

-- What MATCH leaves of the texts; `none` without the option.
unfoldable pub filtered :
    (String → Option (String → Bool)) → Option String → List String → Option (List String)
unfolding match_keys
filtered compile none els = some els
filtered compile (some pattern) els = match_keys compile els pattern

-- The next cursor, always 0, and then the texts.
abbrev pub write_scan : RedisDb → List String → Result
write_scan db els = some (db, array (pos 2) ∷ bulk "0" ∷ array (pos (length els)) ∷ map bulk els)

unfoldable pub scan : (String → Option (String → Bool)) → ℤ → Option String → RedisDb → Result
unfolding filtered all_keys
scan compile cursor match db =
    if not (cursor == pos 0)
    then write_scan db []
    else (do els ← filtered compile match (all_keys db); write_scan db els)

unfoldable pub dbsize : RedisDb → Result
dbsize db = reply db (int (pos (length db.keys)))

unfoldable pub flush_db : RedisDb → Result
unfolding flush
flush_db db = reply (flush db) ok

-- MOVE between two databases.
unfoldable pub move_key : String → RedisDb → RedisDb → Option (RedisDb × RedisDb × List Frame)
unfolding move
move_key key db target = do
  (db', target', moved) ← move db key target
  some (db', target', int (pos (if moved then 1 else 0)) ∷ [])
