-- ===== src/Db/Keyspace.antt =====
-- The abstract view of a database: each key has no value, a list or a set.
use rediqueue.Base.{◌≡◌, String, List, Option, none, some, ◌==◌, string_eq, if◌then◌else◌}
use rediqueue.Base.Dict.{lookup}
use rediqueue.Db.{RedisDb, SetKey}

pub data Value : Type 0 where
  list : List String → Value
  set : SetKey → Value

abbrev pub Keyspace : Type 0
Keyspace = String → Option Value

abbrev pub tag_of : Option Value → Option String
tag_of none = none
tag_of (some (list l)) = some "list"
tag_of (some (set s)) = some "set"

abbrev pub list_part : Option Value → Option (List String)
list_part (some (list l)) = some l
list_part _ = none

abbrev pub set_part : Option Value → Option SetKey
set_part (some (set s)) = some s
set_part _ = none

-- The three maps of a database agree on what each key holds.
pub record Represents (db : RedisDb) (ks : Keyspace) : Type 0 where
  pub tags : (k : String) → lookup db.keys k ≡ tag_of (ks k)
  pub lists : (k : String) → lookup db.list_keys k ≡ list_part (ks k)
  pub sets : (k : String) → lookup db.set_keys k ≡ set_part (ks k)

abbrev pub put : Keyspace → String → Value → Keyspace
put ks k v j = if k == j then some v else ks j

abbrev pub remove : Keyspace → String → Keyspace
remove ks k j = if k == j then none else ks j
