-- ===== src/Cmd/Blocking.antt =====
-- The callbacks of the blocking commands of cmd_list.go. Each says whether it is done; if not, it has
-- changed and written nothing.
use rediqueue.Base.{
  String, Bool, true, false, not, ◌||◌, List, [], ◌∷◌, Option, some, ◌==◌, string_eq, if◌then◌else◌,
  ◌>>=◌,
}
use rediqueue.Base.Int.{pos}
use rediqueue.Reply.{Frame, error, bulk, array, msg_wrong_type}
use rediqueue.Db.{RedisDb, exists, t, list_at}
use rediqueue.Db.Lists.{list_lpush, list_pop}
use rediqueue.Cmd.Lists.{LeftRight, is_other, pop_side}

-- The database, what is written, and `done`; `none` is a panic.
abbrev pub Attempt : Type 0
Attempt = Option (RedisDb × List Frame × Bool)

abbrev pub not_done : RedisDb → Attempt
not_done db = some (db, [], false)

abbrev is_nil : List String → Bool
is_nil [] = true
is_nil (x ∷ l) = false

-- One try of BLPOP or BRPOP: the first key that holds anything decides.
unfoldable pub bxpop : LeftRight → List String → RedisDb → Attempt
unfolding exists t pop_side
bxpop lr [] db = not_done db
bxpop lr (key ∷ keys) db =
    let next = bxpop lr keys db in
    if not (exists db key)
    then next
    else if not (t db key == "list")
    then some (db, error msg_wrong_type ∷ [], true)
    else if is_nil (list_at db key)
    then next
    else (do
      (db', v) ← pop_side lr db key
      some (db', array (pos 2) ∷ bulk key ∷ bulk v ∷ [], true))

-- One try of BRPOPLPUSH.
unfoldable pub brpoplpush : String → String → RedisDb → Attempt
unfolding exists t list_pop list_lpush
brpoplpush src dst db =
    if not (exists db src)
    then not_done db
    else if not (t db src == "list") || is_other db dst
    then some (db, error msg_wrong_type ∷ [], true)
    else if is_nil (list_at db src)
    then not_done db
    else (do
      (db', elem) ← list_pop db src
      some ((list_lpush db' dst elem).0, bulk elem ∷ [], true))
