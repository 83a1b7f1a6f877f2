-- ===== src/Sound/Registrations.antt =====
-- Each registration of `start` in rediqueue.go serves, group by group.
use rediqueue.Base.{All, ◌▸◌, string_eq}
use rediqueue.Base.Text.{to_upper}
use rediqueue.Cmd.Lists.{left, right}
use rediqueue.Handlers.Lists.{
  cmd_blpop, cmd_brpop, cmd_lpop, cmd_rpop, cmd_lpush, cmd_rpush, cmd_lpushx, cmd_rpushx,
}
use rediqueue.Handlers.Rules.Lists as L
use rediqueue.Handlers.Rules.Keys as K
use rediqueue.Handlers.Rules.Sets as S
use rediqueue.Server.{
  commands_list, commands_generic, commands_server, commands_set, commands_connection,
  commands_transaction,
}
use rediqueue.Server.Table.{Registered}
use rediqueue.Sound.Callbacks.{FitDb}
use rediqueue.Sound.Run.{Fit}
use rediqueue.Sound.Handlers.{sound_rules}
use rediqueue.Sound.Control as C
use rediqueue.Sound.Safe.{
  Safe, ServesAs, always, keys_fit, rename_fit, scan_fit, sscan_fit, srandmember_fit, no_draw,
}

pub list-ServesAs : All (Registered ServesAs) commands_list
unfolding cmd_blpop cmd_brpop cmd_lpop cmd_rpop cmd_lpush cmd_rpush cmd_lpushx cmd_rpushx Fit FitDb
list-ServesAs =
    (λ h o cmd args w safe. L.cmd_bxpop-Out h (sound_rules h o) left cmd args w)
    ▸ (λ h o cmd args w safe. L.cmd_bxpop-Out h (sound_rules h o) right cmd args w)
    ▸ (λ h o cmd args w safe. L.cmd_brpoplpush-Out h (sound_rules h o) cmd args w)
    ▸ (λ h o cmd args w safe. L.cmd_lindex-Out h (sound_rules h o) (λ _ _ _ _. tt) cmd args w)
    ▸ (λ h o cmd args w safe. L.cmd_linsert-Out h (sound_rules h o) (λ _ _ _ _. tt) cmd args w)
    ▸ (λ h o cmd args w safe. L.cmd_llen-Out h (sound_rules h o) (λ _. tt) cmd args w)
    ▸ (λ h o cmd args w safe. L.cmd_xpop-Out h (sound_rules h o) left (λ _. tt) cmd args w)
    ▸ (λ h o cmd args w safe. L.cmd_xpush-Out h (sound_rules h o) left (λ _ _ _. tt) cmd args w)
    ▸ (λ h o cmd args w safe. L.cmd_xpushx-Out h (sound_rules h o) left (λ _ _ _. tt) cmd args w)
    ▸ (λ h o cmd args w safe. L.cmd_lrange-Out h (sound_rules h o) (λ _ _ _ _ _ _ _. tt) cmd args w)
    ▸ (λ h o cmd args w safe. L.cmd_lrem-Out h (sound_rules h o) (λ _ _ _ _ _. tt) cmd args w)
    ▸ (λ h o cmd args w safe. L.cmd_lset-Out h (sound_rules h o) (λ _ _ _ _ _. tt) cmd args w)
    ▸ (λ h o cmd args w safe. L.cmd_ltrim-Out h (sound_rules h o) (λ _ _ _ _ _ _ _. tt) cmd args w)
    ▸ (λ h o cmd args w safe. L.cmd_xpop-Out h (sound_rules h o) right (λ _. tt) cmd args w)
    ▸ (λ h o cmd args w safe. L.cmd_rpoplpush-Out h (sound_rules h o) (λ _ _. tt) cmd args w)
    ▸ (λ h o cmd args w safe. L.cmd_xpush-Out h (sound_rules h o) right (λ _ _ _. tt) cmd args w)
    ▸ (λ h o cmd args w safe. L.cmd_xpushx-Out h (sound_rules h o) right (λ _ _ _. tt) cmd args w)
    ▸ tt

pub generic-ServesAs : All (Registered ServesAs) commands_generic
unfolding Fit FitDb to_upper
generic-ServesAs =
    (λ h o cmd args w safe. K.cmd_del-Out h (sound_rules h o) (λ _. tt) cmd args w)
    ▸ (λ h o cmd args w safe. K.cmd_exists-Out h (sound_rules h o) (λ _. tt) cmd args w)
    ▸ (λ h o cmd args w safe.
        K.cmd_keys-Out h (sound_rules h o) cmd args (keys_fit h.env args safe) w)
    ▸ (λ h o cmd args w safe. K.cmd_move-Out h (sound_rules h o) (λ _ _. tt) cmd args w)
    ▸ (λ h o cmd args w safe. K.cmd_randomkey-Out h (sound_rules h o) tt cmd args w)
    ▸ (λ h o cmd args w safe.
        K.cmd_rename-Out h (sound_rules h o) cmd args (rename_fit h.env args safe) w)
    ▸ (λ h o cmd args w safe. K.cmd_renamenx-Out h (sound_rules h o) (λ _ _. tt) cmd args w)
    ▸ (λ h o cmd args w safe. K.cmd_type-Out h (sound_rules h o) (λ _. tt) cmd args w)
    ▸ (λ h o cmd args w safe.
        K.cmd_scan-Out h (sound_rules h o) cmd args
          (λ cursor opts n match q r. scan_fit h.env args safe cursor opts match q r) w)
    ▸ tt

pub server-ServesAs : All (Registered ServesAs) commands_server
unfolding Fit FitDb
server-ServesAs =
    (λ h o cmd args w safe. K.cmd_dbsize-Out h (sound_rules h o) tt cmd args w)
    ▸ (λ h o cmd args w safe. K.cmd_flushall-Out h (sound_rules h o) tt cmd args w)
    ▸ (λ h o cmd args w safe. K.cmd_flushdb-Out h (sound_rules h o) tt cmd args w)
    ▸ tt

pub set-ServesAs : All (Registered ServesAs) commands_set
unfolding Fit FitDb to_upper
set-ServesAs =
    (λ h o cmd args w safe. S.cmd_sadd-Out h (sound_rules h o) (λ _ _. tt) cmd args w)
    ▸ (λ h o cmd args w safe. S.cmd_scard-Out h (sound_rules h o) (λ _. tt) cmd args w)
    ▸ (λ h o cmd args w safe. S.cmd_sdiff-Out h (sound_rules h o) (λ _ _. tt) cmd args w)
    ▸ (λ h o cmd args w safe. S.cmd_sdiffstore-Out h (sound_rules h o) (λ _ _ _. tt) cmd args w)
    ▸ (λ h o cmd args w safe. S.cmd_sinter-Out h (sound_rules h o) (λ _ _. tt) cmd args w)
    ▸ (λ h o cmd args w safe. S.cmd_sinterstore-Out h (sound_rules h o) (λ _ _ _. tt) cmd args w)
    ▸ (λ h o cmd args w safe. S.cmd_sismember-Out h (sound_rules h o) (λ _ _. tt) cmd args w)
    ▸ (λ h o cmd args w safe. S.cmd_smembers-Out h (sound_rules h o) (λ _. tt) cmd args w)
    ▸ (λ h o cmd args w safe. S.cmd_smove-Out h (sound_rules h o) (λ _ _ _. tt) cmd args w)
    ▸ (λ h o cmd args w safe. S.cmd_spop-Out h (sound_rules h o) (λ _ _. tt) cmd args w)
    ▸ (λ h o cmd args w safe.
        S.cmd_srandmember-Out h (sound_rules h o) cmd args (no_draw h.env args safe)
          (srandmember_fit h.env args safe) w)
    ▸ (λ h o cmd args w safe. S.cmd_srem-Out h (sound_rules h o) (λ _ _. tt) cmd args w)
    ▸ (λ h o cmd args w safe. S.cmd_sunion-Out h (sound_rules h o) (λ _ _. tt) cmd args w)
    ▸ (λ h o cmd args w safe. S.cmd_sunionstore-Out h (sound_rules h o) (λ _ _ _. tt) cmd args w)
    ▸ (λ h o cmd args w safe.
        S.cmd_sscan-Out h (sound_rules h o) cmd args
          (λ key cursor opts n match q r. sscan_fit h.env args safe key cursor opts match q r) w)
    ▸ tt

pub connection-ServesAs : All (Registered ServesAs) commands_connection
unfolding to_upper Safe
connection-ServesAs =
    (always "AUTH" _ C.cmd_auth-Serves)
    ▸ (always "ECHO" _ C.cmd_echo-Serves)
    ▸ (always "PING" _ C.cmd_ping-Serves)
    ▸ (always "SELECT" _ C.cmd_select-Serves)
    ▸ (always "QUIT" _ C.cmd_quit-Serves)
    ▸ tt

pub transaction-ServesAs : All (Registered ServesAs) commands_transaction
unfolding to_upper Safe
transaction-ServesAs =
    (always "DISCARD" _ C.cmd_discard-Serves)
    ▸ (always "EXEC" _ C.cmd_exec-Serves)
    ▸ (always "MULTI" _ C.cmd_multi-Serves)
    ▸ (always "UNWATCH" _ C.cmd_unwatch-Serves)
    ▸ (always "WATCH" _ C.cmd_watch-Serves)
    ▸ tt
