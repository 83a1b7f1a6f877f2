-- ===== src/Guard/Control.antt =====
-- The handlers of cmd_connection.go and cmd_transactions.go behind the guard. EXEC is behind the login alone.
use rediqueue.Base.{
  ◌≡◌, refl, Bool, true, false, Bool-cases, String, List, [], ◌∷◌, inl, inr, ◌==◌, string_eq,
}
use rediqueue.Reply.{err_wrong_number}
use rediqueue.Session.{World, get_ctx, put_ctx, handle_auth, unwatch_ok, unwatch}
use rediqueue.Session.Run.{Host, Outcome}
use rediqueue.Handlers.{authed}
use rediqueue.Handlers.Connection.{cmd_ping, cmd_auth, cmd_echo, cmd_select, cmd_quit}
use rediqueue.Handlers.Transactions.{cmd_multi, cmd_exec, cmd_discard, cmd_watch, cmd_unwatch}
use rediqueue.Guard.{Leaves, Refused, Guarded, refuse-Leaves, with_tx-Queues, authed-Leaves}

pub cmd_ping-Guarded : Guarded cmd_ping
unfolding cmd_ping
cmd_ping-Guarded h cmd args w s = authed-Leaves _ (λ w' busy. refl) w s

pub cmd_auth-Guarded : Guarded cmd_auth
unfolding cmd_auth
cmd_auth-Guarded h cmd [] w s = refuse-Leaves (err_wrong_number cmd) w
cmd_auth-Guarded h cmd (pw ∷ []) w s = elim (Bool-cases (w.queue.password == "")) [
  | inl unset ↦ rw unset refl
  | inr needed ↦ elim (Bool-cases (w.queue.password == pw)) [
    | inl right ↦ rw (needed, right) refl
    | inr wrong ↦ rw (needed, wrong) refl
  ]
]
cmd_auth-Guarded h cmd (pw ∷ a ∷ args) w s = refuse-Leaves (err_wrong_number cmd) w

pub cmd_echo-Guarded : Guarded cmd_echo
unfolding cmd_echo
cmd_echo-Guarded h cmd [] w s = refuse-Leaves (err_wrong_number cmd) w
cmd_echo-Guarded h cmd (msg ∷ []) w s = authed-Leaves _ (λ w' busy. refl) w s
cmd_echo-Guarded h cmd (msg ∷ a ∷ args) w s = refuse-Leaves (err_wrong_number cmd) w

pub cmd_select-Guarded : Guarded cmd_select
unfolding cmd_select
cmd_select-Guarded h cmd [] w s = refuse-Leaves (err_wrong_number cmd) w
cmd_select-Guarded h cmd (id ∷ []) w s = authed-Leaves _ (λ w' busy. refl) w s
cmd_select-Guarded h cmd (id ∷ a ∷ args) w s = refuse-Leaves (err_wrong_number cmd) w

pub cmd_quit-Guarded : Guarded cmd_quit
unfolding cmd_quit
cmd_quit-Guarded h cmd args w s = refl

pub cmd_multi-Guarded : Guarded cmd_multi
unfolding cmd_multi
cmd_multi-Guarded h cmd [] w s = authed-Leaves _ (λ w' busy. rw busy refl) w s
cmd_multi-Guarded h cmd (a ∷ args) w s = refl

pub cmd_discard-Guarded : Guarded cmd_discard
unfolding cmd_discard
cmd_discard-Guarded h cmd [] w s = authed-Leaves _ (λ w' busy. rw busy refl) w s
cmd_discard-Guarded h cmd (a ∷ args) w s = refuse-Leaves (err_wrong_number cmd) w

pub cmd_watch-Guarded : Guarded cmd_watch
unfolding cmd_watch
cmd_watch-Guarded h cmd [] w s = refuse-Leaves (err_wrong_number cmd) w
cmd_watch-Guarded h cmd (a ∷ args) w s = authed-Leaves _ (λ w' busy. rw busy refl) w s

pub cmd_unwatch-Guarded : Guarded cmd_unwatch
unfolding cmd_unwatch
cmd_unwatch-Guarded h cmd [] w s =
    authed-Leaves _
      (λ w' busy. with_tx-Queues h unwatch_ok (put_ctx w' (unwatch (get_ctx w'))) busy) w s
cmd_unwatch-Guarded h cmd (a ∷ args) w s = refuse-Leaves (err_wrong_number cmd) w

after_auth-Refused :
    (w : World) (k : World → Outcome) (a e : Bool)
    → (w.queue.password == "") ≡ a
    → (get_ctx w).authenticated ≡ e
    → Refused w
    → Leaves w.queue (authed w k)
unfolding handle_auth authed
after_auth-Refused w k true e ha he r = cc
after_auth-Refused w k false true ha he r = cc
after_auth-Refused w k false false ha he r = rw (ha, he) refl

-- Without a login nothing behind `handleAuth` is run.
pub authed-Refused : (w : World) (k : World → Outcome) → Refused w → Leaves w.queue (authed w k)
authed-Refused w k = after_auth-Refused w k _ _ refl refl

pub cmd_exec-Refused :
    (h : Host) (cmd : String) (args : List String) (w : World)
    → Refused w
    → Leaves w.queue (cmd_exec h cmd args w)
unfolding cmd_exec
cmd_exec-Refused h cmd [] w r = authed-Refused w _ r
cmd_exec-Refused h cmd (a ∷ args) w r = refuse-Leaves (err_wrong_number cmd) w
