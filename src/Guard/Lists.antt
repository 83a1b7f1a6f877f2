-- ===== src/Guard/Lists.antt =====
-- The handlers of cmd_list.go behind the guard.
use rediqueue.Handlers.Lists.{
  cmd_bxpop, cmd_lindex, cmd_linsert, cmd_llen, cmd_xpop, cmd_xpush, cmd_xpushx, cmd_lrange,
  cmd_lrem, cmd_lset, cmd_ltrim, cmd_rpoplpush, cmd_brpoplpush,
}
use rediqueue.Handlers.Rules.Lists as R
use rediqueue.Cmd.Lists.{LeftRight}
use rediqueue.Guard.{Guarded, guard}

pub cmd_bxpop-Guarded : (lr : LeftRight) → Guarded (cmd_bxpop lr)
cmd_bxpop-Guarded lr h cmd args w = R.cmd_bxpop-Out h (guard h) lr cmd args w

pub cmd_lindex-Guarded : Guarded cmd_lindex
cmd_lindex-Guarded h cmd args w = R.cmd_lindex-Out h (guard h) (λ _ _ _ _. tt) cmd args w

pub cmd_linsert-Guarded : Guarded cmd_linsert
cmd_linsert-Guarded h cmd args w = R.cmd_linsert-Out h (guard h) (λ _ _ _ _. tt) cmd args w

pub cmd_llen-Guarded : Guarded cmd_llen
cmd_llen-Guarded h cmd args w = R.cmd_llen-Out h (guard h) (λ _. tt) cmd args w

pub cmd_xpop-Guarded : (lr : LeftRight) → Guarded (cmd_xpop lr)
cmd_xpop-Guarded lr h cmd args w = R.cmd_xpop-Out h (guard h) lr (λ _. tt) cmd args w

pub cmd_xpush-Guarded : (lr : LeftRight) → Guarded (cmd_xpush lr)
cmd_xpush-Guarded lr h cmd args w = R.cmd_xpush-Out h (guard h) lr (λ _ _ _. tt) cmd args w

pub cmd_xpushx-Guarded : (lr : LeftRight) → Guarded (cmd_xpushx lr)
cmd_xpushx-Guarded lr h cmd args w = R.cmd_xpushx-Out h (guard h) lr (λ _ _ _. tt) cmd args w

pub cmd_lrange-Guarded : Guarded cmd_lrange
cmd_lrange-Guarded h cmd args w = R.cmd_lrange-Out h (guard h) (λ _ _ _ _ _ _ _. tt) cmd args w

pub cmd_lrem-Guarded : Guarded cmd_lrem
cmd_lrem-Guarded h cmd args w = R.cmd_lrem-Out h (guard h) (λ _ _ _ _ _. tt) cmd args w

pub cmd_lset-Guarded : Guarded cmd_lset
cmd_lset-Guarded h cmd args w = R.cmd_lset-Out h (guard h) (λ _ _ _ _ _. tt) cmd args w

pub cmd_ltrim-Guarded : Guarded cmd_ltrim
cmd_ltrim-Guarded h cmd args w = R.cmd_ltrim-Out h (guard h) (λ _ _ _ _ _ _ _. tt) cmd args w

pub cmd_rpoplpush-Guarded : Guarded cmd_rpoplpush
cmd_rpoplpush-Guarded h cmd args w = R.cmd_rpoplpush-Out h (guard h) (λ _ _. tt) cmd args w

pub cmd_brpoplpush-Guarded : Guarded cmd_brpoplpush
cmd_brpoplpush-Guarded h cmd args w = R.cmd_brpoplpush-Out h (guard h) cmd args w
