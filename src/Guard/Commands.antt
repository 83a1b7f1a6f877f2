-- ===== src/Guard/Commands.antt =====
-- Every command that `start` registers, and the guard.
use rediqueue.Base.{
  ◌≢◌, refl, String, List, ◌++◌, ◌⊎◌, inl, inr, string_eq, All, ◌▸◌, All-append, suc,
}
use rediqueue.Base.Text.{to_upper}
use rediqueue.Session.{World}
use rediqueue.Session.Run.{Host}
use rediqueue.Handlers.{Handler}
use rediqueue.Cmd.Lists.{left, right}
use rediqueue.Handlers.Lists.{
  cmd_blpop, cmd_brpop, cmd_lpop, cmd_rpop, cmd_lpush, cmd_rpush, cmd_lpushx, cmd_rpushx,
}
use rediqueue.Handlers.Transactions.{cmd_exec}
use rediqueue.Server.{
  registrations, commands_list, commands_generic, commands_server, commands_set,
  commands_connection, commands_transaction, commands,
}
use rediqueue.Server.Table.{Registered, Holds, register_all-Holds}
use rediqueue.Guard.{Leaves, InTx, Refused, Guarded}
use rediqueue.Guard.Lists as L
use rediqueue.Guard.Keys as K
use rediqueue.Guard.Sets as S
use rediqueue.Guard.Control as C

-- The command of this name may not work on the databases yet.
abbrev pub Barred : String → World → Type 0
Barred name w = Refused w ⊎ (InTx w × (name ≢ "EXEC"))

abbrev pub counted : World → World
counted w = record w { info_cmds = suc w.info_cmds }

abbrev pub Respects : String → Handler → Type 0
Respects name f =
    (h : Host) (cmd : String) (args : List String) (w : World)
    → Barred name w
    → Leaves w.queue (f h cmd args w)

any : {name : String} (f : Handler) → Guarded f → Respects name f
any f g h cmd args w (inl r) = g h cmd args w (inl r)
any f g h cmd args w (inr (busy, n)) = g h cmd args w (inr busy)

list-Respects : All (Registered Respects) commands_list
unfolding cmd_blpop cmd_brpop cmd_lpop cmd_rpop cmd_lpush cmd_rpush cmd_lpushx cmd_rpushx
list-Respects =
    any _ (L.cmd_bxpop-Guarded left)
    ▸ any _ (L.cmd_bxpop-Guarded right)
    ▸ any _ L.cmd_brpoplpush-Guarded
    ▸ any _ L.cmd_lindex-Guarded
    ▸ any _ L.cmd_linsert-Guarded
    ▸ any _ L.cmd_llen-Guarded
    ▸ any _ (L.cmd_xpop-Guarded left)
    ▸ any _ (L.cmd_xpush-Guarded left)
    ▸ any _ (L.cmd_xpushx-Guarded left)
    ▸ any _ L.cmd_lrange-Guarded
    ▸ any _ L.cmd_lrem-Guarded
    ▸ any _ L.cmd_lset-Guarded
    ▸ any _ L.cmd_ltrim-Guarded
    ▸ any _ (L.cmd_xpop-Guarded right)
    ▸ any _ L.cmd_rpoplpush-Guarded
    ▸ any _ (L.cmd_xpush-Guarded right)
    ▸ any _ (L.cmd_xpushx-Guarded right)
    ▸ tt

generic-Respects : All (Registered Respects) commands_generic
generic-Respects =
    any _ K.cmd_del-Guarded
    ▸ any _ K.cmd_exists-Guarded
    ▸ any _ K.cmd_keys-Guarded
    ▸ any _ K.cmd_move-Guarded
    ▸ any _ K.cmd_randomkey-Guarded
    ▸ any _ K.cmd_rename-Guarded
    ▸ any _ K.cmd_renamenx-Guarded
    ▸ any _ K.cmd_type-Guarded
    ▸ any _ K.cmd_scan-Guarded
    ▸ tt

server-Respects : All (Registered Respects) commands_server
server-Respects =
    any _ K.cmd_dbsize-Guarded ▸ any _ K.cmd_flushall-Guarded ▸ any _ K.cmd_flushdb-Guarded ▸ tt

set-Respects : All (Registered Respects) commands_set
set-Respects =
    any _ S.cmd_sadd-Guarded
    ▸ any _ S.cmd_scard-Guarded
    ▸ any _ S.cmd_sdiff-Guarded
    ▸ any _ S.cmd_sdiffstore-Guarded
    ▸ any _ S.cmd_sinter-Guarded
    ▸ any _ S.cmd_sinterstore-Guarded
    ▸ any _ S.cmd_sismember-Guarded
    ▸ any _ S.cmd_smembers-Guarded
    ▸ any _ S.cmd_smove-Guarded
    ▸ any _ S.cmd_spop-Guarded
    ▸ any _ S.cmd_srandmember-Guarded
    ▸ any _ S.cmd_srem-Guarded
    ▸ any _ S.cmd_sunion-Guarded
    ▸ any _ S.cmd_sunionstore-Guarded
    ▸ any _ S.cmd_sscan-Guarded
    ▸ tt

connection-Respects : All (Registered Respects) commands_connection
connection-Respects =
    any _ C.cmd_auth-Guarded
    ▸ any _ C.cmd_echo-Guarded
    ▸ any _ C.cmd_ping-Guarded
    ▸ any _ C.cmd_select-Guarded
    ▸ any _ C.cmd_quit-Guarded
    ▸ tt

exec-Respects : Respects "EXEC" cmd_exec
exec-Respects h cmd args w (inl r) = C.cmd_exec-Refused h cmd args w r
exec-Respects h cmd args w (inr (busy, n)) = absurd (n refl)

transaction-Respects : All (Registered Respects) commands_transaction
unfolding to_upper
transaction-Respects =
    any _ C.cmd_discard-Guarded
    ▸ exec-Respects
    ▸ any _ C.cmd_multi-Guarded
    ▸ any _ C.cmd_unwatch-Guarded
    ▸ any _ C.cmd_watch-Guarded
    ▸ tt

-- The registrations from a group on.
abbrev from_sets : List (String × Handler)
from_sets = commands_set ++ commands_transaction

abbrev from_lists : List (String × Handler)
from_lists = commands_list ++ from_sets

abbrev from_server : List (String × Handler)
from_server = commands_server ++ from_lists

abbrev from_generic : List (String × Handler)
from_generic = commands_generic ++ from_server

pub commands-Holds : Holds Respects commands
unfolding commands
commands-Holds =
    let sets =
      All-append (Registered Respects) commands_set commands_transaction set-Respects
        transaction-Respects in
    let lists = All-append (Registered Respects) commands_list from_sets list-Respects sets in
    let server =
      All-append (Registered Respects) commands_server from_lists server-Respects lists in
    let generic =
      All-append (Registered Respects) commands_generic from_server generic-Respects server in
    register_all-Holds Respects registrations (
      All-append (Registered Respects) commands_connection from_generic connection-Respects generic)
