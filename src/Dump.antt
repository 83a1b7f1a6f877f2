-- ===== src/Dump.antt =====
-- Dump of rediqueue.go: the selected database as a text, for debugging. `quote` is what the verb %q of package fmt makes
-- of a text.
use Prim.Native.String.{◌++◌ as str_append}
use rediqueue.Base.{◌-◌, String, List, [], ◌∷◌, length, take, ltb, ◌==◌, string_eq, if◌then◌else◌}
use rediqueue.Base.Decimal.{decimal}
use rediqueue.Db.{RedisDb, t, list_at, all_keys}
use rediqueue.Db.Sets.{set_members}
use rediqueue.Session.{RediQueue, db_of, put_db}
use rediqueue.Server.Proto.{text}
use rediqueue.Server.Wire.{bytes}

-- The variable `suffix`, for a text that is longer than maxLen.
abbrev suffix : String → String
suffix s = str_append "...(" (str_append (decimal (length (bytes s))) ")")

-- The function `v`; what is left of 60 is positive, as no length has 50 digits.
unfoldable pub dump_value : (String → String) → String → String
dump_value quote s =
    if ltb 60 (length (bytes s))
    then str_append (quote (text (take (60 - length (bytes (suffix s))) (bytes s)))) (suffix s)
    else quote s

-- The loops over a list and over the members of a set.
unfoldable pub dump_values : (String → String) → String → List String → String
dump_values quote r [] = r
dump_values quote r (s ∷ l) =
    dump_values quote (str_append r (str_append "   " (str_append (dump_value quote s) "\n"))) l

unfoldable pub dump_key : (String → String) → RedisDb → String → String → String
dump_key quote db r k =
    let r' = str_append r (str_append "- " (str_append k "\n")) in
    if t db k == "list"
    then dump_values quote r' (list_at db k)
    else if t db k == "set"
    then dump_values quote r' (set_members db k)
    else str_append r' (str_append "   (a " (str_append (t db k) ", fixme!)\n"))

unfoldable pub dump_keys : (String → String) → RedisDb → String → List String → String
dump_keys quote db r [] = r
dump_keys quote db r (k ∷ l) = dump_keys quote db (dump_key quote db r k) l

-- The selected database is made if it is not there yet.
unfoldable pub dump : (String → String) → RediQueue → RediQueue × String
dump quote m =
    let db = db_of m m.selected_db in
    (put_db m m.selected_db db, dump_keys quote db "" (all_keys db))
