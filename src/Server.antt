-- ===== src/Server.antt =====
-- server/server.go: the table of commands and `dispatch`; the registrations of the cmd_*.go files.
pub mod Proto
pub mod Wire
pub mod RoundTrip
pub mod Serve
pub mod Table
pub mod System
pub mod Peers
use rediqueue.Base.{
  ℕ, suc, String, Bool, true, false, List, [], ◌∷◌, ◌++◌, Option, none, some, is_some, string_eq,
  if◌then◌else◌,
}
use rediqueue.Base.Text.{to_upper}
use rediqueue.Base.Dict.{Dict, lookup, insert}
use rediqueue.Reply.{error, err_unknown_command}
use rediqueue.Session.{World, write}
use rediqueue.Session.Run.{Host, Outcome, returned, panic}
use rediqueue.Handlers.{Handler}
use rediqueue.Handlers.Lists as L
use rediqueue.Handlers.Keys as K
use rediqueue.Handlers.Sets as S
use rediqueue.Handlers.Connection as C
use rediqueue.Handlers.Transactions as T

abbrev pub Table : Type 0
Table = Dict String Handler

-- A command that is registered already stays as it is.
unfoldable pub register : Table → String → Handler → Table
register cmds cmd f =
    if is_some (lookup cmds (to_upper cmd)) then cmds else insert cmds (to_upper cmd) f

unfoldable pub register_all : Table → List (String × Handler) → Table
unfolding register
register_all cmds [] = cmds
register_all cmds ((cmd, f) ∷ more) = register_all (register cmds cmd f) more

abbrev pub commands_connection : List (String × Handler)
commands_connection =
    ("AUTH", C.cmd_auth)
    ∷ ("ECHO", C.cmd_echo)
    ∷ ("PING", C.cmd_ping)
    ∷ ("SELECT", C.cmd_select)
    ∷ ("QUIT", C.cmd_quit)
    ∷ []

abbrev pub commands_generic : List (String × Handler)
commands_generic =
    ("DEL", K.cmd_del)
    ∷ ("EXISTS", K.cmd_exists)
    ∷ ("KEYS", K.cmd_keys)
    ∷ ("MOVE", K.cmd_move)
    ∷ ("RANDOMKEY", K.cmd_randomkey)
    ∷ ("RENAME", K.cmd_rename)
    ∷ ("RENAMENX", K.cmd_renamenx)
    ∷ ("TYPE", K.cmd_type)
    ∷ ("SCAN", K.cmd_scan)
    ∷ []

abbrev pub commands_server : List (String × Handler)
commands_server =
    ("DBSIZE", K.cmd_dbsize) ∷ ("FLUSHALL", K.cmd_flushall) ∷ ("FLUSHDB", K.cmd_flushdb) ∷ []

abbrev pub commands_list : List (String × Handler)
commands_list =
    ("BLPOP", L.cmd_blpop)
    ∷ ("BRPOP", L.cmd_brpop)
    ∷ ("BRPOPLPUSH", L.cmd_brpoplpush)
    ∷ ("LINDEX", L.cmd_lindex)
    ∷ ("LINSERT", L.cmd_linsert)
    ∷ ("LLEN", L.cmd_llen)
    ∷ ("LPOP", L.cmd_lpop)
    ∷ ("LPUSH", L.cmd_lpush)
    ∷ ("LPUSHX", L.cmd_lpushx)
    ∷ ("LRANGE", L.cmd_lrange)
    ∷ ("LREM", L.cmd_lrem)
    ∷ ("LSET", L.cmd_lset)
    ∷ ("LTRIM", L.cmd_ltrim)
    ∷ ("RPOP", L.cmd_rpop)
    ∷ ("RPOPLPUSH", L.cmd_rpoplpush)
    ∷ ("RPUSH", L.cmd_rpush)
    ∷ ("RPUSHX", L.cmd_rpushx)
    ∷ []

abbrev pub commands_set : List (String × Handler)
commands_set =
    ("SADD", S.cmd_sadd)
    ∷ ("SCARD", S.cmd_scard)
    ∷ ("SDIFF", S.cmd_sdiff)
    ∷ ("SDIFFSTORE", S.cmd_sdiffstore)
    ∷ ("SINTER", S.cmd_sinter)
    ∷ ("SINTERSTORE", S.cmd_sinterstore)
    ∷ ("SISMEMBER", S.cmd_sismember)
    ∷ ("SMEMBERS", S.cmd_smembers)
    ∷ ("SMOVE", S.cmd_smove)
    ∷ ("SPOP", S.cmd_spop)
    ∷ ("SRANDMEMBER", S.cmd_srandmember)
    ∷ ("SREM", S.cmd_srem)
    ∷ ("SUNION", S.cmd_sunion)
    ∷ ("SUNIONSTORE", S.cmd_sunionstore)
    ∷ ("SSCAN", S.cmd_sscan)
    ∷ []

abbrev pub commands_transaction : List (String × Handler)
commands_transaction =
    ("DISCARD", T.cmd_discard)
    ∷ ("EXEC", T.cmd_exec)
    ∷ ("MULTI", T.cmd_multi)
    ∷ ("UNWATCH", T.cmd_unwatch)
    ∷ ("WATCH", T.cmd_watch)
    ∷ []

-- What `start` registers, in its order.
abbrev pub registrations : List (String × Handler)
registrations =
    commands_connection
    ++ (commands_generic
        ++ (commands_server ++ (commands_list ++ (commands_set ++ commands_transaction))))

unfoldable pub commands : Table
unfolding register_all
commands = register_all [] registrations

-- The handler that is looked up, counted and called.
abbrev pub call : Option Handler → Host → String → List String → World → Outcome
call none h cmd args w = returned false (write (error (err_unknown_command cmd) ∷ []) w)
call (some cb) h cmd args w = cb h cmd args (record w { info_cmds = suc w.info_cmds })

-- `args[0]` panics on a request with no fields.
unfoldable pub dispatch : Host → List String → World → Outcome
unfolding commands
dispatch h [] w = panic
dispatch h (name ∷ args) w = call (lookup commands (to_upper name)) h (to_upper name) args w
