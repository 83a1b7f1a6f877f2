-- ===== src/Guard/Sets.antt =====
-- The handlers of cmd_set.go behind the guard.
use rediqueue.Handlers.Sets.{
  cmd_sdiff, cmd_sdiffstore, cmd_sinter, cmd_sinterstore, cmd_sunion, cmd_sunionstore, cmd_sadd,
  cmd_srem, cmd_scard, cmd_smembers, cmd_sismember, cmd_smove, cmd_spop, cmd_srandmember, cmd_sscan,
}
use rediqueue.Handlers.Rules.Sets as R
use rediqueue.Guard.{Guarded, guard}

pub cmd_sdiff-Guarded : Guarded cmd_sdiff
cmd_sdiff-Guarded h cmd args w = R.cmd_sdiff-Out h (guard h) (λ _ _. tt) cmd args w

pub cmd_sdiffstore-Guarded : Guarded cmd_sdiffstore
cmd_sdiffstore-Guarded h cmd args w = R.cmd_sdiffstore-Out h (guard h) (λ _ _ _. tt) cmd args w

pub cmd_sinter-Guarded : Guarded cmd_sinter
cmd_sinter-Guarded h cmd args w = R.cmd_sinter-Out h (guard h) (λ _ _. tt) cmd args w

pub cmd_sinterstore-Guarded : Guarded cmd_sinterstore
cmd_sinterstore-Guarded h cmd args w = R.cmd_sinterstore-Out h (guard h) (λ _ _ _. tt) cmd args w

pub cmd_sunion-Guarded : Guarded cmd_sunion
cmd_sunion-Guarded h cmd args w = R.cmd_sunion-Out h (guard h) (λ _ _. tt) cmd args w

pub cmd_sunionstore-Guarded : Guarded cmd_sunionstore
cmd_sunionstore-Guarded h cmd args w = R.cmd_sunionstore-Out h (guard h) (λ _ _ _. tt) cmd args w

pub cmd_sadd-Guarded : Guarded cmd_sadd
cmd_sadd-Guarded h cmd args w = R.cmd_sadd-Out h (guard h) (λ _ _. tt) cmd args w

pub cmd_srem-Guarded : Guarded cmd_srem
cmd_srem-Guarded h cmd args w = R.cmd_srem-Out h (guard h) (λ _ _. tt) cmd args w

pub cmd_scard-Guarded : Guarded cmd_scard
cmd_scard-Guarded h cmd args w = R.cmd_scard-Out h (guard h) (λ _. tt) cmd args w

pub cmd_smembers-Guarded : Guarded cmd_smembers
cmd_smembers-Guarded h cmd args w = R.cmd_smembers-Out h (guard h) (λ _. tt) cmd args w

pub cmd_sismember-Guarded : Guarded cmd_sismember
cmd_sismember-Guarded h cmd args w = R.cmd_sismember-Out h (guard h) (λ _ _. tt) cmd args w

pub cmd_smove-Guarded : Guarded cmd_smove
cmd_smove-Guarded h cmd args w = R.cmd_smove-Out h (guard h) (λ _ _ _. tt) cmd args w

pub cmd_spop-Guarded : Guarded cmd_spop
cmd_spop-Guarded h cmd args w = R.cmd_spop-Out h (guard h) (λ _ _. tt) cmd args w

pub cmd_srandmember-Guarded : Guarded cmd_srandmember
cmd_srandmember-Guarded h cmd args w =
    R.cmd_srandmember-Out h (guard h) cmd args (λ _ _. tt) (λ _ _ _ _ _. tt) w

pub cmd_sscan-Guarded : Guarded cmd_sscan
cmd_sscan-Guarded h cmd args w = R.cmd_sscan-Out h (guard h) cmd args (λ _ _ _ _ _ _ _. tt) w
