-- ===== src/Sound/Control.antt =====
-- The handlers of cmd_connection.go and cmd_transactions.go keep a sound state sound and write one reply each.
use rediqueue.Base.{
  ℕ, suc, ◌≡◌, refl, sym, ap, ◌∙◌, String, Bool, true, false, ltb, List, [], ◌∷◌, ◌++◌, Option,
  none, some, get_or, length, Returns, Returns-bind, All, subst, arith, Bool-cases, inl, inr, ◌==◌,
  string_eq, ◌>>=◌,
}
use mathlib.Core.List.{append_assoc, append-nil}
use rediqueue.Base.Int.{pos}
use rediqueue.Base.Dict.{Dict}
use rediqueue.Reply.{Frame, array, ok, err_wrong_number}
use rediqueue.Db.{RedisDb, version}
use rediqueue.Cmd.Framing.{IsReply, AreReplies, owed, owed-append}
use rediqueue.Session.{
  World, RediQueue, ConnCtx, DbKey, TxCmd, unwatch_ok, get_ctx, put_ctx, put_db, db_of, unwatch,
  in_tx, watch_key,
}
use rediqueue.Session.Run.{Env, Host, Outcome, or_panic}
use rediqueue.Handlers.Connection.{cmd_ping, cmd_auth, cmd_echo, cmd_select, cmd_quit}
use rediqueue.Handlers.Transactions.{
  cmd_multi, cmd_exec, cmd_discard, cmd_watch, cmd_unwatch, exec_queued, exec_tx, exec_all, end_tx,
  touch_watched, touch_db, watch_failed, watch_each,
}
use rediqueue.Sound.Callbacks.{Ordered}
use rediqueue.Sound.Run.{Healthy, Wrote, Ran, Fit, run_cb-Ran, put_db-Healthy}
use rediqueue.Sound.Handlers.{Sane, Answered, said, refused, authed-Answered, with_tx-Answered}

-- What is shown of a handler.
abbrev pub Serves : (Host → String → List String → World → Outcome) → Type 0
Serves f =
    (h : Host)
    → Ordered h.env
    → (cmd : String) (args : List String) (w : World) → Sane h.env w
    → Answered h.env w (f h cmd args w)

pub cmd_ping-Serves : Serves cmd_ping
unfolding cmd_ping owed
cmd_ping-Serves h o cmd args = authed-Answered h.env _ (λ w s. said h.env false _ w w refl s refl)

pub cmd_echo-Serves : Serves cmd_echo
unfolding cmd_echo owed
cmd_echo-Serves h o cmd [] = refused h.env (err_wrong_number cmd)
cmd_echo-Serves h o cmd (msg ∷ []) =
    authed-Answered h.env _ (λ w s. said h.env false _ w w refl s refl)
cmd_echo-Serves h o cmd (msg ∷ a ∷ args) = refused h.env (err_wrong_number cmd)

pub cmd_select-Serves : Serves cmd_select
unfolding cmd_select owed Sane
cmd_select-Serves h o cmd [] = refused h.env (err_wrong_number cmd)
cmd_select-Serves h o cmd (id ∷ []) =
    authed-Answered h.env _ (λ w s. said h.env false _ w _ refl s refl)
cmd_select-Serves h o cmd (id ∷ a ∷ args) = refused h.env (err_wrong_number cmd)

pub cmd_quit-Serves : Serves cmd_quit
unfolding cmd_quit owed Sane Wrote
cmd_quit-Serves h o cmd args w s = (s, (ok ∷ [], refl, refl))

pub cmd_auth-Serves : Serves cmd_auth
unfolding cmd_auth owed Sane
cmd_auth-Serves h o cmd [] w s = refused h.env (err_wrong_number cmd) w s
cmd_auth-Serves h o cmd (pw ∷ []) w s = elim (Bool-cases (w.queue.password == "")) [
  | inl unset ↦ rw unset (said h.env false _ w w refl s refl)
  | inr needed ↦ elim (Bool-cases (w.queue.password == pw)) [
    | inl right ↦ rw (needed, right) (said h.env false _ w _ refl s refl)
    | inr wrong ↦ rw (needed, wrong) (said h.env false _ w w refl s refl)
  ]
]
cmd_auth-Serves h o cmd (pw ∷ a ∷ args) w s = refused h.env (err_wrong_number cmd) w s

pub cmd_multi-Serves : Serves cmd_multi
unfolding cmd_multi owed Sane
cmd_multi-Serves h o cmd [] = authed-Answered h.env _ (λ w s.
    elim (Bool-cases (in_tx (get_ctx w))) [
      | inl busy ↦ rw busy (said h.env false _ w _ refl s refl)
      | inr idle ↦ rw idle (said h.env false _ w _ refl (s.0, tt) refl)
    ])
cmd_multi-Serves h o cmd (a ∷ args) = λ w s. said h.env false _ w w refl s refl

pub cmd_discard-Serves : Serves cmd_discard
unfolding cmd_discard owed Sane
cmd_discard-Serves h o cmd [] = authed-Answered h.env _ (λ w s.
    elim (Bool-cases (in_tx (get_ctx w))) [
      | inl busy ↦ rw busy (said h.env false _ w _ refl (s.0, tt) refl)
      | inr idle ↦ rw idle (said h.env false _ w _ refl s refl)
    ])
cmd_discard-Serves h o cmd (a ∷ args) = refused h.env (err_wrong_number cmd)

pub cmd_unwatch-Serves : Serves cmd_unwatch
unfolding cmd_unwatch Sane Fit Wrote
cmd_unwatch-Serves h o cmd [] =
    authed-Answered h.env _
      (λ w s. with_tx-Answered h unwatch_ok o tt (put_ctx w (unwatch (get_ctx w))) s)
cmd_unwatch-Serves h o cmd (a ∷ args) = refused h.env (err_wrong_number cmd)

watch_each-transaction :
    (db : RedisDb) (ctx : ConnCtx) (args : List String)
    → (watch_each db ctx args).transaction ≡ ctx.transaction
unfolding watch_each watch_key
watch_each-transaction db ctx [] = refl
watch_each-transaction db ctx (key ∷ args) = watch_each-transaction db (watch_key db ctx key) args

watched-Sane :
    (e : Env) (w : World) (args : List String)
    → Sane e w
    → let ctx = get_ctx w in
      let db = db_of w.queue ctx.selected_db in
      Sane e
        (put_ctx (record w { queue = put_db w.queue ctx.selected_db db }) (watch_each db ctx args))
unfolding Sane Healthy
watched-Sane e w args (h, fits) =
    let ctx = get_ctx w in
    let db = db_of w.queue ctx.selected_db in
    (
      put_db-Healthy w.queue ctx.selected_db db h (h ctx.selected_db),
      subst (λ cbs. All (Fit e) (get_or cbs [])) (sym (watch_each-transaction db ctx args)) fits,
    )

pub cmd_watch-Serves : Serves cmd_watch
unfolding cmd_watch owed Sane
cmd_watch-Serves h o cmd [] = refused h.env (err_wrong_number cmd)
cmd_watch-Serves h o cmd (key ∷ args) = authed-Answered h.env _ (λ w s.
    elim (Bool-cases (in_tx (get_ctx w))) [
      | inl busy ↦ rw busy (said h.env false _ w _ refl s refl)
      | inr idle ↦ rw idle (said h.env false _ w _ refl (watched-Sane h.env w (key ∷ args) s) refl)
    ])

touch_db-Healthy : (m : RediQueue) (key : DbKey) → Healthy m → Healthy (touch_db m key)
unfolding Healthy
touch_db-Healthy m key h = put_db-Healthy m key.db (db_of m key.db) h (h key.db)

touch_watched-Healthy :
    (m : RediQueue) (watched : Dict DbKey ℕ) → Healthy m → Healthy (touch_watched m watched)
unfolding touch_watched
touch_watched-Healthy m [] h = h
touch_watched-Healthy m ((key, v) ∷ watched) h =
    elim (Bool-cases (ltb v (version (db_of m key.db) key.key))) [
      | inl newer ↦ rw newer (touch_db-Healthy m key h)
      | inr same ↦
          rw same (touch_watched-Healthy (touch_db m key) watched (touch_db-Healthy m key h))
    ]

-- The callbacks have returned, and have written as many replies as they are.
unfoldable RanAll : ℕ → World → World → Type 0
unfolding Healthy
RanAll n w w' =
    Healthy w'.queue × ((fs : List Frame) × (w'.peer.out ≡ w.peer.out ++ fs) × AreReplies n fs)

replies-append :
    (n : ℕ) (fs gs : List Frame) → IsReply fs → AreReplies n gs → AreReplies (suc n) (fs ++ gs)
replies-append n fs gs one more =
    ap (λ k. owed k (fs ++ gs)) (omega arith)
    ∙ owed-append 1 n fs gs one
    ∙ ap (λ k. owed k gs) (omega arith)
    ∙ more

RanAll-step :
    (n : ℕ) (w w' : World) (o : Option World)
    → Wrote w w'
    → Returns o (RanAll n w')
    → Returns o (RanAll (suc n) w)
unfolding RanAll Wrote
RanAll-step n w w' none wrote r = absurd r
RanAll-step n w w' (some w'') (fs, e, one) (h, (gs, e', more)) = (
  h,
  (
    fs ++ gs,
    e' ∙ ap (λ out. out ++ gs) e ∙ append_assoc w.peer.out fs gs,
    replies-append n fs gs one more,
  ),
)

Ran-Wrote : (w w' : World) → Ran w w' → Wrote w w'
unfolding Ran
Ran-Wrote w w' r = r.2

Ran-Healthy : (w w' : World) → Ran w w' → Healthy w'.queue
unfolding Ran
Ran-Healthy w w' r = r.0

exec_all-RanAll :
    (h : Host) (i : ℕ) (cbs : List TxCmd) (w : World)
    → Ordered h.env
    → All (Fit h.env) cbs
    → Healthy w.queue
    → Returns (exec_all h i cbs w) (RanAll (length cbs) w)
unfolding exec_all RanAll owed
exec_all-RanAll h i [] w o fits good = (good, ([], sym (append-nil w.peer.out), refl))
exec_all-RanAll h i (cb ∷ cbs) w o (fit, fits) good =
    Returns-bind (Ran w) (RanAll (suc (length cbs)) w) _ _
      (run_cb-Ran h.env (h.draws i) cb w o fit good)
      (λ w' r.
        RanAll-step (length cbs) w w' _ (Ran-Wrote w w' r)
          (exec_all-RanAll h (suc i) cbs w' o fits (Ran-Healthy w w' r)))

-- The number of the commands, and then a reply for each.
ended :
    (e : Env) (n : ℕ) (w w' : World) (o : Option World)
    → w'.peer.out ≡ w.peer.out ++ array (pos n) ∷ []
    → Returns o (RanAll n w')
    → Answered e w (or_panic true (do done ← o; some (end_tx done)))
unfolding RanAll Sane Wrote owed
ended e n w w' none out r = absurd r
ended e n w w' (some done) out (h, (fs, e', more)) = (
  (h, tt),
  (
    array (pos n) ∷ fs,
    e' ∙ ap (λ gs. gs ++ fs) out ∙ append_assoc w.peer.out (array (pos n) ∷ []) fs,
    ap (λ k. owed k fs) (omega arith) ∙ more,
  ),
)

exec_tx-Answered :
    (h : Host) (cbs : List TxCmd) (w : World)
    → Ordered h.env
    → All (Fit h.env) cbs
    → Healthy w.queue
    → Answered h.env w (exec_tx h cbs w)
unfolding exec_tx Sane owed
exec_tx-Answered h cbs w o fits good =
    let watched = (get_ctx w).watch in
    let touched = touch_watched-Healthy w.queue watched good in
    elim (Bool-cases (watch_failed w.queue watched)) [
      | inl changed ↦ rw changed (said h.env false (array (pos 0)) w _ refl (touched, tt) refl)
      | inr unchanged ↦
          rw unchanged
            (ended h.env (length cbs) w _ _ refl (exec_all-RanAll h 0 cbs _ o fits touched))
    ]

queued-Answered :
    (h : Host) (t : Option (List TxCmd)) (dirty : Bool) (w : World)
    → (get_ctx w).transaction ≡ t
    → Ordered h.env
    → Sane h.env w
    → Answered h.env w (exec_queued h t dirty w)
unfolding owed Sane
queued-Answered h none dirty w e o s = said h.env false _ w (put_ctx w (get_ctx w)) refl s refl
queued-Answered h (some cbs) true w e o s = said h.env false _ w w refl s refl
queued-Answered h (some cbs) false w e o s =
    exec_tx-Answered h cbs w o (subst (λ t. All (Fit h.env) (get_or t [])) e s.1) s.0

pub cmd_exec-Serves : Serves cmd_exec
unfolding cmd_exec
cmd_exec-Serves h o cmd [] =
    authed-Answered h.env _
      (λ w s. queued-Answered h (get_ctx w).transaction (get_ctx w).dirty_transaction w refl o s)
cmd_exec-Serves h o cmd (a ∷ args) = refused h.env (err_wrong_number cmd)
