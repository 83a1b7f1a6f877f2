-- ===== src/Exec/Watching.antt =====
-- WATCH, and the EXEC that comes later.
use rediqueue.Base.{
  ◌≡◌, refl, ap, ◌∙◌, Bool-cases, inl, inr, true, false, String, List, [], ◌∷◌, some, ◌<◌, ◌==◌,
  string_eq, if◌then◌else◌, eq_iff, beq_refl, arith,
}
use rediqueue.Base.Int.{int_eq}
use rediqueue.Base.Dict.{lookup, lookup-insert}
use rediqueue.Db.{RedisDb, version}
use rediqueue.Db.Members.{listed}
use rediqueue.Session.{World, ConnCtx, DbKey, key_eq, TxCmd, db_of, get_ctx, in_tx, watch_key}
use rediqueue.Session.Run.{Host, Outcome, returned, waiting, panic}
use rediqueue.Handlers.Transactions.{watch_each, cmd_watch, cmd_exec}
use rediqueue.Exec.Watch.{Admitted, Aborted, authed-Admitted, watch_failed-lookup, exec-Aborted}

abbrev pub key_of : RedisDb → String → DbKey
key_of db key = record { db = db.id; key = key }

key_of-beq : (db : RedisDb) (x key : String) → (key_of db x == key_of db key) ≡ (x == key)
key_of-beq db x key =
    ground (arith, key_eq.beq_iff (key_of db x) (key_of db key), eq_iff x key, beq_refl db.id)

-- Each key that is named is watched at its version, and the others as before.
watch_each-lookup :
    (db : RedisDb) (ctx : ConnCtx) (args : List String) (key : String)
    → lookup (watch_each db ctx args).watch (key_of db key)
      ≡ (if listed args key then some (version db key) else lookup ctx.watch (key_of db key))
unfolding watch_each watch_key
watch_each-lookup db ctx [] key = refl
watch_each-lookup db ctx (x ∷ args) key =
    watch_each-lookup db (watch_key db ctx x) args key
    ∙ rw (lookup-insert ctx.watch (key_of db x) (key_of db key) (version db x), key_of-beq db x key)
        (elim (Bool-cases (x == key)) [
          | inl same ↦ rw ((eq_iff x key).0 same, (eq_iff key key).1 refl) (ground arith)
          | inr other ↦ rw other refl
        ])

-- The connection watches, in the state that a later one has, what it watches behind the outcome.
abbrev pub StillWatches : Outcome → World → Type 0
StillWatches (returned broadcast w) later = (get_ctx later).watch ≡ (get_ctx w).watch
StillWatches (waiting cmd timeout w) later = ⊥
StillWatches panic later = ⊥

watch-lookup :
    (h : Host) (cmd : String) (args : List String) (w later : World) (key : String)
    → Admitted w
    → in_tx (get_ctx w) ≡ false
    → listed args key ≡ true
    → StillWatches (cmd_watch h cmd args w) later
    → lookup (get_ctx later).watch (key_of (db_of w.queue (get_ctx w).selected_db) key)
      ≡ some (version (db_of w.queue (get_ctx w).selected_db) key)
unfolding cmd_watch
watch-lookup h cmd [] w later key ok free named = cc
watch-lookup h cmd (x ∷ args) w later key ok free named =
    let db = db_of w.queue (get_ctx w).selected_db in
    let seen : lookup (watch_each db (get_ctx w) (x ∷ args)).watch (key_of db key)
        ≡ some (version db key) =
      watch_each-lookup db (get_ctx w) (x ∷ args) key ∙ rw named refl in
    authed-Admitted
      (λ o.
        StillWatches o later → lookup (get_ctx later).watch (key_of db key) ≡ some (version db key))
      _ w ok (rw free (λ same. ap (λ m. lookup m (key_of db key)) same ∙ seen))
      (rw free (λ same. ap (λ m. lookup m (key_of db key)) same ∙ seen))

-- A connection that is in no transaction, with the password given or not asked for, sends WATCH of some keys, one or more;
-- the database that it has selected bears its own number. Whatever happens then, as long as the connection still watches
-- what it watched behind that request: once one of those keys has a greater version there than at the WATCH, EXEC of a
-- clean transaction with any commands is refused, with the password given or not asked for. The reply is an empty array,
-- the transaction is over, no key is watched any more, and every database is as it was.
pub watch_exec-Aborted :
    (h h' : Host) (cmd cmd' : String) (args : List String) (w later : World) (key : String)
    (cbs : List TxCmd)
    → Admitted w
    → in_tx (get_ctx w) ≡ false
    → (db_of w.queue (get_ctx w).selected_db).id ≡ (get_ctx w).selected_db
    → listed args key ≡ true
    → StillWatches (cmd_watch h cmd args w) later
    → Admitted later
    → (get_ctx later).transaction ≡ some cbs
    → (get_ctx later).dirty_transaction ≡ false
    → version (db_of w.queue (get_ctx w).selected_db) key
      < version (db_of later.queue (get_ctx w).selected_db) key
    → Aborted later (cmd_exec h' cmd' [] later)
watch_exec-Aborted h h' cmd cmd' args w later key cbs ok free own named still ok' queued clean
      newer =
    let i = (get_ctx w).selected_db in
    let db = db_of w.queue i in
    exec-Aborted h' cmd' later cbs ok' queued clean (
      watch_failed-lookup later.queue (get_ctx later).watch (key_of db key) (version db key)
        (watch-lookup h cmd args w later key ok free named still)
        (ground (arith, newer, ap (λ j. version (db_of later.queue j) key) own)))
