-- ===== src/Handlers/Transactions.antt =====
-- The handlers of cmd_transactions.go.
use rediqueue.Base.{
  ℕ, suc, String, Bool, true, false, ltb, List, [], ◌∷◌, Option, none, some, not, length, ◌||◌,
  if◌then◌else◌, ◌>>=◌,
}
use rediqueue.Base.Int.{pos, int_eq}
use rediqueue.Base.Dict.{Dict}
use rediqueue.Reply.{error, array, ok, err_wrong_number}
use rediqueue.Db.{RedisDb, version}
use rediqueue.Session.{
  World, RediQueue, ConnCtx, DbKey, TxCmd, unwatch_ok, write, get_ctx, put_ctx, put_db, db_of,
  in_tx, start_tx, stop_tx, unwatch, watch_key,
}
use rediqueue.Session.Run.{Host, Outcome, returned, or_panic, run_cb, with_tx}
use rediqueue.Handlers.{Handler, refuse, wrong_number, authed}

-- MULTI with arguments does not mark the transaction dirty.
unfoldable pub cmd_multi : Handler
unfolding authed
cmd_multi h cmd [] w = authed w (λ w'.
    if in_tx (get_ctx w')
    then returned false
        (write (error "ERR MULTI calls can not be nested" ∷ []) (put_ctx w' (get_ctx w')))
    else returned false (write (ok ∷ []) (put_ctx w' (start_tx (get_ctx w')))))
cmd_multi h cmd (arg ∷ args) w = returned false (write (error (err_wrong_number cmd) ∷ []) w)

-- The databases that `m.db` makes in the loop over the watched keys.
abbrev pub touch_db : RediQueue → DbKey → RediQueue
touch_db m key = put_db m key.db (db_of m key.db)

-- The loop over `ctx.watch`: whether a watched key has a greater version than it had.
unfoldable pub watch_failed : RediQueue → Dict DbKey ℕ → Bool
unfolding db_of version
watch_failed m [] = false
watch_failed m ((key, v) ∷ watched) =
    ltb v (version (db_of m key.db) key.key) || watch_failed m watched

unfoldable pub touch_watched : RediQueue → Dict DbKey ℕ → RediQueue
unfolding db_of put_db version
touch_watched m [] = m
touch_watched m ((key, v) ∷ watched) =
    let rest = touch_watched (touch_db m key) watched in
    if ltb v (version (db_of m key.db) key.key) then touch_db m key else rest

-- The loop over `ctx.transaction`. The i-th callback takes its random numbers from `h.draws i`.
unfoldable pub exec_all : Host → ℕ → List TxCmd → World → Option World
unfolding run_cb
exec_all h i [] w = some w
exec_all h i (cb ∷ cbs) w = do w' ← run_cb h.env (h.draws i) cb w; exec_all h (suc i) cbs w'

abbrev pub end_tx : World → World
end_tx w = put_ctx w (stop_tx (get_ctx w))

-- EXEC behind its checks.
unfoldable pub exec_tx : Host → List TxCmd → World → Outcome
unfolding watch_failed touch_watched exec_all
exec_tx h cbs w =
    let watched = (get_ctx w).watch in
    let w' = record w { queue = touch_watched w.queue watched } in
    if watch_failed w.queue watched
    then returned false (write (array (pos 0) ∷ []) (end_tx w'))
    else or_panic true
        (do done ← exec_all h 0 cbs (write (array (pos (length cbs)) ∷ []) w'); some (end_tx done))

-- EXEC behind the password: the transaction's commands, and whether it is dirty.
abbrev pub exec_queued : Host → Option (List TxCmd) → Bool → World → Outcome
exec_queued h none dirty w =
    returned false (write (error "ERR EXEC without MULTI" ∷ []) (put_ctx w (get_ctx w)))
exec_queued h (some cbs) true w =
    returned false
      (write (error "EXECABORT Transaction discarded because of previous errors." ∷ []) w)
exec_queued h (some cbs) false w = exec_tx h cbs w

unfoldable pub cmd_exec : Handler
unfolding refuse authed exec_tx
cmd_exec h cmd [] w =
    authed w (λ w'. exec_queued h (get_ctx w').transaction (get_ctx w').dirty_transaction w')
cmd_exec h cmd (arg ∷ args) w = wrong_number cmd w

unfoldable pub cmd_discard : Handler
unfolding refuse authed
cmd_discard h cmd [] w = authed w (λ w'.
    if not (in_tx (get_ctx w'))
    then returned false (write (error "ERR DISCARD without MULTI" ∷ []) (put_ctx w' (get_ctx w')))
    else returned false (write (ok ∷ []) (end_tx w')))
cmd_discard h cmd (arg ∷ args) w = wrong_number cmd w

unfoldable pub watch_each : RedisDb → ConnCtx → List String → ConnCtx
unfolding watch_key
watch_each db ctx [] = ctx
watch_each db ctx (key ∷ args) = watch_each db (watch_key db ctx key) args

unfoldable pub cmd_watch : Handler
unfolding refuse authed db_of put_db watch_each
cmd_watch h cmd (key ∷ args) w = authed w (λ w'.
    let ctx = get_ctx w' in
    if in_tx ctx
    then returned false (write (error "ERR WATCH in MULTI" ∷ []) (put_ctx w' ctx))
    else (let db = db_of w'.queue ctx.selected_db in
        returned false (
          write (ok ∷ []) (
            put_ctx (record w' { queue = put_db w'.queue ctx.selected_db db })
              (watch_each db ctx (key ∷ args))))))
cmd_watch h cmd [] w = wrong_number cmd w

unfoldable pub cmd_unwatch : Handler
unfolding refuse authed with_tx
cmd_unwatch h cmd [] w = authed w (λ w'. with_tx h unwatch_ok (put_ctx w' (unwatch (get_ctx w'))))
cmd_unwatch h cmd (arg ∷ args) w = wrong_number cmd w
