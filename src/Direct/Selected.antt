-- ===== src/Direct/Selected.antt =====
-- The methods of RediQueue in direct.go: those of RedisDB on the selected database, `m.DB(m.selectedDB)`; and RequireAuth of
-- rediqueue.go, for the password.
use rediqueue.Base.{ℕ, String, Bool, List, Option, some}
use rediqueue.Db.{RedisDb}
use rediqueue.Session.{RediQueue}
use rediqueue.Direct.{
  Answer, on_direct, direct_keys, direct_flush_db, direct_list, direct_lpush, direct_lpop,
  direct_push, direct_pop, direct_set_add, direct_members, direct_is_member, direct_del,
  direct_type, direct_exists, direct_srem,
}

-- The server afterwards and what is returned; `none` is a panic.
abbrev pub Call : Type 0 → Type 0
Call A = RediQueue → Option (RediQueue × A)

-- A method that only reads.
abbrev reads : {A : Type 0} → (RedisDb → A) → RedisDb → Option (RedisDb × A)
reads f db = some (db, f db)

unfoldable pub selected_keys : Call (List String)
selected_keys m = on_direct (reads direct_keys) m

unfoldable pub selected_flush_db : Call Unit
selected_flush_db m = on_direct (λ db. some (direct_flush_db db, tt)) m

unfoldable pub selected_list : String → Call (Answer (List String))
selected_list k m = on_direct (direct_list k) m

unfoldable pub selected_lpush : String → String → Call (Answer ℕ)
selected_lpush k v m = on_direct (direct_lpush k v) m

unfoldable pub selected_lpop : String → Call (Answer String)
selected_lpop k m = on_direct (direct_lpop k) m

unfoldable pub selected_push : String → List String → Call (Answer ℕ)
selected_push k vs m = on_direct (direct_push k vs) m

unfoldable pub selected_pop : String → Call (Answer String)
selected_pop k m = on_direct (direct_pop k) m

unfoldable pub selected_set_add : String → List String → Call (Answer ℕ)
selected_set_add k elems m = on_direct (direct_set_add k elems) m

unfoldable pub selected_members : String → Call (Answer (List String))
selected_members k m = on_direct (direct_members k) m

unfoldable pub selected_is_member : String → String → Call (Answer Bool)
selected_is_member k v m = on_direct (direct_is_member k v) m

unfoldable pub selected_del : String → Call Bool
selected_del k m = on_direct (direct_del k) m

unfoldable pub selected_type : String → Call String
selected_type k m = on_direct (reads (direct_type k)) m

unfoldable pub selected_exists : String → Call Bool
selected_exists k m = on_direct (reads (direct_exists k)) m

unfoldable pub selected_srem : String → List String → Call (Answer ℕ)
selected_srem k fields m = on_direct (direct_srem k fields) m

-- RequireAuth
unfoldable pub require_auth : String → RediQueue → RediQueue
require_auth pw m = record m { password = pw }
