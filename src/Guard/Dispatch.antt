-- ===== src/Guard/Dispatch.antt =====
-- What `dispatch` of server/server.go may do to the databases without a login, and inside a transaction.
use rediqueue.Base.{
  ◌≡◌, ◌≢◌, refl, ◌∙◌, Bool, true, false, Bool-cases, String, List, ◌∷◌, Option, none, some, inl,
  inr, ◌==◌, string_eq,
}
use rediqueue.Base.Text.{to_upper}
use rediqueue.Base.Dict.{lookup}
use rediqueue.Session.{World, get_ctx, handle_auth}
use rediqueue.Session.Run.{Host}
use rediqueue.Handlers.{Handler}
use rediqueue.Server.{commands, call, dispatch}
use rediqueue.Server.Table.{Kept}
use rediqueue.Guard.{Leaves, InTx, Refused}
use rediqueue.Guard.Commands.{Barred, Respects, counted, commands-Holds}

counted-auth :
    (w : World) (a e : Bool)
    → (w.queue.password == "") ≡ a
    → (get_ctx w).authenticated ≡ e
    → (handle_auth (counted w)).0 ≡ (handle_auth w).0
unfolding handle_auth
counted-auth w true e ha he = rw ha refl
counted-auth w false true ha he = rw (ha, he) refl
counted-auth w false false ha he = rw (ha, he) refl

call-Leaves :
    (o : Option Handler) (h : Host) (name : String) (args : List String) (w : World)
    → Kept Respects name o
    → Barred name w
    → Leaves w.queue (call o h name args w)
call-Leaves none h name args w p s = refl
call-Leaves (some f) h name args w p (inl r) =
    p h name args (counted w) (inl (counted-auth w _ _ refl refl ∙ r))
call-Leaves (some f) h name args w p (inr busy) = p h name args (counted w) (inr busy)

dispatch-Leaves :
    (h : Host) (name : String) (args : List String) (w : World)
    → Barred (to_upper name) w
    → Leaves w.queue (dispatch h (name ∷ args) w)
unfolding dispatch
dispatch-Leaves h name args w =
    call-Leaves (lookup commands (to_upper name)) h (to_upper name) args w
      (commands-Holds (to_upper name))

refused : (w : World) → w.queue.password ≢ "" → (get_ctx w).authenticated ≡ false → Refused w
unfolding handle_auth
refused w set out = elim (Bool-cases (w.queue.password == "")) [
  | inl unset ↦ absurd (set ((string_eq.beq_iff w.queue.password "").0 unset))
  | inr needed ↦ rw (needed, out) refl
]

-- Where a password is set and the connection has not given it, no request with a name, known or not, in
-- whatever letter case and with whatever arguments, changes a database, the password or anything else of
-- RediQueue: `dispatch` returns, without a panic and without a wait.
pub dispatch-Refused :
    (h : Host) (name : String) (args : List String) (w : World)
    → w.queue.password ≢ ""
    → (get_ctx w).authenticated ≡ false
    → Leaves w.queue (dispatch h (name ∷ args) w)
dispatch-Refused h name args w set out = dispatch-Leaves h name args w (inl (refused w set out))

-- For a connection in a transaction no request but EXEC changes a database or anything else of RediQueue:
-- `dispatch` returns, without a panic and without a wait, also for a blocking command.
pub dispatch-Queues :
    (h : Host) (name : String) (args : List String) (w : World)
    → InTx w
    → to_upper name ≢ "EXEC"
    → Leaves w.queue (dispatch h (name ∷ args) w)
dispatch-Queues h name args w busy other = dispatch-Leaves h name args w (inr (busy, other))
