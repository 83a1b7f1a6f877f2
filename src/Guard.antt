-- ===== src/Guard.antt =====
-- What stands between a request and the databases: `handleAuth`, and the queue of a transaction.
pub mod Lists
pub mod Keys
pub mod Sets
pub mod Control
pub mod Commands
pub mod Dispatch
pub mod Login
use rediqueue.Base.{
  ◌≡◌, refl, sym, ◌∙◌, String, Bool, true, false, List, Option, none, some, ◌⊎◌, inl, inr, ◌==◌,
  string_eq, if◌then◌else◌, Bool-cases,
}
use rediqueue.Base.Int.{ℤ}
use rediqueue.Session.{
  World, RediQueue, ConnCtx, Peer, DbCmd, BlockCmd, TxCmd, on_selected, handle_auth, in_tx, get_ctx,
  put_ctx, set_dirty,
}
use rediqueue.Session.Run.{
  Host, Outcome, returned, waiting, panic, with_tx, blocking, run_cb, try_block, enqueue, or_panic,
  after_try,
}
use rediqueue.Handlers.Rules.{Rules}
use rediqueue.Handlers.{
  Handler, refuse, wrong_number, authed, after_auth, run_in, run_auth, with_int, with_options,
  ScanOptions, options, bad_options, scan_args, scan_options,
}

-- The handler has returned, and the server's state is `m`.
abbrev pub Leaves : RediQueue → Outcome → Type 0
Leaves m (returned broadcast w) = w.queue ≡ m
Leaves m (waiting cmd timeout w) = ⊥
Leaves m panic = ⊥

abbrev pub InTx : World → Type 0
InTx w = in_tx (get_ctx w) ≡ true

abbrev pub Refused : World → Type 0
Refused w = (handle_auth w).0 ≡ false

-- The rest of a handler leaves the state alone in a transaction.
abbrev pub Queues : (World → Outcome) → Type 0
Queues k = (w : World) → InTx w → Leaves w.queue (k w)

-- The handler leaves the state alone without a login and in a transaction.
abbrev pub Guarded : Handler → Type 0
Guarded f =
    (h : Host) (cmd : String) (args : List String) (w : World)
    → Refused w ⊎ InTx w
    → Leaves w.queue (f h cmd args w)

set_dirty-queue : (w : World) (o : Option ConnCtx) → w.peer.ctx ≡ o → (set_dirty w).queue ≡ w.queue
unfolding set_dirty
set_dirty-queue w none e = rw e refl
set_dirty-queue w (some ctx) e = rw e refl

pub refuse-Leaves : (msg : String) (w : World) → Leaves w.queue (refuse msg w)
unfolding refuse
refuse-Leaves msg w = set_dirty-queue w w.peer.ctx refl

pub with_tx-Queues : (h : Host) (cb : TxCmd) → Queues (with_tx h cb)
unfolding with_tx
with_tx-Queues h cb w busy = rw busy refl

pub blocking-Queues : (timeout : ℤ) (cmd : BlockCmd) → Queues (blocking timeout cmd)
unfolding blocking
blocking-Queues timeout cmd w busy = rw busy refl

-- The check of the password, alone: what it answers and what it keeps.
authed-Leaves-of :
    (k : World → Outcome) (w : World) (b e : Bool)
    → Queues k
    → (w.queue.password == "") ≡ b
    → (get_ctx w).authenticated ≡ e
    → Refused w ⊎ InTx w
    → Leaves w.queue (authed w k)
unfolding authed handle_auth
authed-Leaves-of k w true e q hb he (inl shut) = cc
authed-Leaves-of k w true e q hb he (inr busy) = rw hb (q w busy)
authed-Leaves-of k w false true q hb he (inl shut) = cc
authed-Leaves-of k w false true q hb he (inr busy) = rw (hb, he) (q (put_ctx w (get_ctx w)) busy)
authed-Leaves-of k w false false q hb he s = rw (hb, he) refl

pub authed-Leaves :
    (k : World → Outcome)
    → Queues k
    → (w : World) → Refused w ⊎ InTx w
    → Leaves w.queue (authed w k)
authed-Leaves k q w = authed-Leaves-of k w _ _ q refl refl

-- The guard, as a case of the rules.
abbrev pub guard : (h : Host) → Rules h
guard h = record {
  Out = λ w o. Refused w ⊎ InTx w → Leaves w.queue o;
  In = λ w o. InTx w → Leaves w.queue o;
  Fit = λ cb. Unit;
  refused_out = λ msg w s. refuse-Leaves msg w;
  refused_in = λ msg w s. refuse-Leaves msg w;
  authed_out = authed-Leaves;
  tx_in = λ cb fit. with_tx-Queues h cb;
  block_in = blocking-Queues;
}
