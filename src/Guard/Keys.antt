-- ===== src/Guard/Keys.antt =====
-- The handlers of cmd_generic.go and cmd_server.go behind the guard.
use rediqueue.Handlers.Keys.{
  cmd_del, cmd_type, cmd_exists, cmd_move, cmd_keys, cmd_randomkey, cmd_rename, cmd_renamenx,
  cmd_scan, cmd_dbsize, cmd_flushall, cmd_flushdb,
}
use rediqueue.Handlers.Rules.Keys as R
use rediqueue.Guard.{Guarded, guard}

pub cmd_del-Guarded : Guarded cmd_del
cmd_del-Guarded h cmd args w = R.cmd_del-Out h (guard h) (λ _. tt) cmd args w

pub cmd_type-Guarded : Guarded cmd_type
cmd_type-Guarded h cmd args w = R.cmd_type-Out h (guard h) (λ _. tt) cmd args w

pub cmd_exists-Guarded : Guarded cmd_exists
cmd_exists-Guarded h cmd args w = R.cmd_exists-Out h (guard h) (λ _. tt) cmd args w

pub cmd_move-Guarded : Guarded cmd_move
cmd_move-Guarded h cmd args w = R.cmd_move-Out h (guard h) (λ _ _. tt) cmd args w

pub cmd_keys-Guarded : Guarded cmd_keys
cmd_keys-Guarded h cmd args w = R.cmd_keys-Out h (guard h) cmd args (λ _ _. tt) w

pub cmd_randomkey-Guarded : Guarded cmd_randomkey
cmd_randomkey-Guarded h cmd args w = R.cmd_randomkey-Out h (guard h) tt cmd args w

pub cmd_rename-Guarded : Guarded cmd_rename
cmd_rename-Guarded h cmd args w = R.cmd_rename-Out h (guard h) cmd args (λ _ _ _. tt) w

pub cmd_renamenx-Guarded : Guarded cmd_renamenx
cmd_renamenx-Guarded h cmd args w = R.cmd_renamenx-Out h (guard h) (λ _ _. tt) cmd args w

pub cmd_scan-Guarded : Guarded cmd_scan
cmd_scan-Guarded h cmd args w = R.cmd_scan-Out h (guard h) cmd args (λ _ _ _ _ _ _. tt) w

pub cmd_dbsize-Guarded : Guarded cmd_dbsize
cmd_dbsize-Guarded h cmd args w = R.cmd_dbsize-Out h (guard h) tt cmd args w

pub cmd_flushall-Guarded : Guarded cmd_flushall
cmd_flushall-Guarded h cmd args w = R.cmd_flushall-Out h (guard h) tt cmd args w

pub cmd_flushdb-Guarded : Guarded cmd_flushdb
cmd_flushdb-Guarded h cmd args w = R.cmd_flushdb-Out h (guard h) tt cmd args w
