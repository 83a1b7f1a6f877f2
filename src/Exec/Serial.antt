-- ===== src/Exec/Serial.antt =====
-- The commands that EXEC runs, against the same commands sent one by one.
use rediqueue.Base.{
  inl, inr, ℕ, suc, ◌≡◌, refl, sym, ap, ◌∙◌, Bool, true, false, Bool-cases, String, List, [], ◌∷◌,
  length, Option, none, some, is_some, ◌>>=◌, if◌then◌else◌, ◌==◌,
}
use rediqueue.Base.Int.{ℤ, pos, int_eq}
use rediqueue.Base.Text.{atoi}
use rediqueue.Reply.{Frame, array, null, error, msg_invalid_int}
use rediqueue.Db.{RedisDb}
use rediqueue.Cmd.Lists.{Result}
use rediqueue.Cmd.Keys as K
use rediqueue.Cmd.Sets as S
use rediqueue.Cmd.Sets.{Draws}
use rediqueue.Session.{
  World, TxCmd, on_selected, attempt, spop_args, move_to, flush_all, unwatch_ok, BlockCmd, ConnCtx,
  get_ctx, put_ctx, write, db_of, set_dirty,
}
use rediqueue.Session.Run.{
  Env, Host, Outcome, returned, waiting, panic, or_panic, run_db, run_cb, on_db, try_block,
  run_spop, spop_count, run_move, with_tx, run_block,
}
use rediqueue.Exec.Watch.{Admitted, authed-Admitted}
use rediqueue.Handlers.Transactions.{
  cmd_exec, exec_queued, exec_tx, exec_all, end_tx, touch_watched, watch_failed,
}

abbrev on_world : (World → World) → Option World → Option World
on_world f none = none
on_world f (some w) = some (f w)

-- A connection that has a context.
abbrev Live : World → Type 0
Live w = is_some w.peer.ctx ≡ true

-- What the second computation returns is what the first returns, with the transaction ended.
abbrev Follows : Option World → Option World → Type 0
Follows none v = v ≡ none
Follows (some w) v = (v ≡ some (end_tx w)) × Live w

bind-Follows :
    {A : Type 0} (m : Option A) (k l : A → Option World)
    → ((a : A) → Follows (k a) (l a))
    → Follows (m >>= k) (m >>= l)
bind-Follows none k l step = refl
bind-Follows (some a) k l step = step a

on_db-Follows :
    (f : RedisDb → Result) (w : World) → Live w → Follows (on_db f w) (on_db f (end_tx w))
unfolding on_db
on_db-Follows f w live =
    bind-Follows (f (db_of w.queue (get_ctx w).selected_db)) _ _ (λ r. (refl, live))

dirty-Follows :
    (w : World) (o : Option ConnCtx) (fs : List Frame)
    → w.peer.ctx ≡ o
    → Live w
    → Follows (some (write fs (set_dirty w))) (some (write fs (set_dirty (end_tx w))))
unfolding set_dirty
dirty-Follows w none fs e live = cc
dirty-Follows w (some ctx) fs e live = rw e (refl, refl)

count-Follows :
    (d : Draws) (key : String) (count : Option ℤ) (args : List String) (w : World)
    → Live w
    → Follows (spop_count d key count args w) (spop_count d key count args (end_tx w))
count-Follows d key none args w live = dirty-Follows w _ (error msg_invalid_int ∷ []) refl live
count-Follows d key (some n) [] w live = on_db-Follows (S.spop d key n true) w live
count-Follows d key (some n) (a ∷ args) w live =
    dirty-Follows w _ (error msg_invalid_int ∷ []) refl live

spop-Follows :
    (d : Draws) (key : String) (args : List String) (w : World)
    → Live w
    → Follows (run_spop d key args w) (run_spop d key args (end_tx w))
unfolding run_spop
spop-Follows d key [] w live = on_db-Follows (S.spop d key (pos 1) false) w live
spop-Follows d key (arg ∷ args) w live = count-Follows d key (atoi arg) args w live

move-Follows :
    (key : String) (target : ℤ) (w : World)
    → Live w
    → Follows (run_move key target w) (run_move key target (end_tx w))
unfolding run_move
move-Follows key target w live = elim (Bool-cases ((get_ctx w).selected_db == target)) [
  | inl same ↦ rw same (refl, live)
  | inr other ↦ rw other (
      bind-Follows (K.move_key key (db_of w.queue (get_ctx w).selected_db) (db_of w.queue target)) _
        _ (λ r. (refl, live)))
]

-- What a blocking command writes in a transaction when it is not done.
abbrev or_null : World × Bool → Option World
or_null (w, finished) = some (if finished then w else write (null ∷ []) w)

or_null-Follows :
    (w : World) (finished : Bool)
    → Live w
    → Follows (or_null (w, finished)) (or_null (end_tx w, finished))
or_null-Follows w true live = (refl, live)
or_null-Follows w false live = (refl, live)

bind_bind-Follows :
    {A B : Type 0} (m : Option A) (f g : A → Option B) (k l : B → Option World)
    → ((a : A) → Follows (f a >>= k) (g a >>= l))
    → Follows ((m >>= f) >>= k) ((m >>= g) >>= l)
bind_bind-Follows none f g k l step = refl
bind_bind-Follows (some a) f g k l step = step a

attempt-Follows :
    (cmd : BlockCmd) (w : World)
    → Live w
    → Follows (try_block cmd w >>= or_null) (try_block cmd (end_tx w) >>= or_null)
unfolding try_block
attempt-Follows cmd w live =
    bind_bind-Follows (run_block cmd (db_of w.queue (get_ctx w).selected_db)) _ _ or_null or_null
      (λ (db, frames, finished). or_null-Follows _ finished live)

run_cb-Follows :
    (e : Env) (d : Draws) (cb : TxCmd) (w : World)
    → Live w
    → Follows (run_cb e d cb w) (run_cb e d cb (end_tx w))
unfolding run_cb
run_cb-Follows e d (on_selected cmd) w live = on_db-Follows (run_db e d cmd) w live
run_cb-Follows e d (attempt cmd) w live = attempt-Follows cmd w live
run_cb-Follows e d (spop_args key args) w live = spop-Follows d key args w live
run_cb-Follows e d (move_to key target) w live = move-Follows key target w live
run_cb-Follows e d flush_all w live = (refl, live)
run_cb-Follows e d unwatch_ok w live = (refl, live)

-- The host as the i-th command of a transaction sees it.
abbrev turn : Host → ℕ → Host
turn h i = record h { draws = λ j. h.draws i }

abbrev after : Outcome → (World → Option World) → Option World
after (returned broadcast w) k = k w
after (waiting cmd timeout w) k = none
after panic k = none

-- The commands one by one, each with `withTx`, by a connection that is in no transaction.
abbrev pub one_by_one : Host → ℕ → List TxCmd → World → Option World
one_by_one h i [] w = some w
one_by_one h i (cb ∷ cbs) w = after (with_tx (turn h i) cb w) (one_by_one h (suc i) cbs)

after-Follows :
    (h : Host) (i : ℕ) (cbs : List TxCmd) (u v : Option World)
    → Follows u v
    → ((w : World)
        → Live w
        → Follows (exec_all h (suc i) cbs w) (one_by_one h (suc i) cbs (end_tx w)))
    → Follows (u >>= exec_all h (suc i) cbs) (after (or_panic true v) (one_by_one h (suc i) cbs))
after-Follows h i cbs none v e step = rw e refl
after-Follows h i cbs (some w) v (e, live) step = rw e (step w live)

exec_all-Follows :
    (h : Host) (i : ℕ) (cbs : List TxCmd) (w : World)
    → Live w
    → Follows (exec_all h i cbs w) (one_by_one h i cbs (end_tx w))
unfolding exec_all with_tx
exec_all-Follows h i [] w live = (refl, live)
exec_all-Follows h i (cb ∷ cbs) w live =
    after-Follows h i cbs _ _ (run_cb-Follows h.env (h.draws i) cb w live)
      (exec_all-Follows h (suc i) cbs)

finish : (u v : Option World) → Follows u v → (u >>= (λ w. some (end_tx w))) ≡ v
finish none v e = sym e
finish (some w) v (e, live) = sym e

queued-Live :
    (w : World) (o : Option ConnCtx) (cbs : List TxCmd)
    → w.peer.ctx ≡ o
    → (get_ctx w).transaction ≡ some cbs
    → Live w
queued-Live w none cbs e queued = cc
queued-Live w (some ctx) cbs e queued = rw e refl

-- The reply's length is written, and the transaction is over.
abbrev pub opened : World → List TxCmd → World
opened w cbs =
    write (array (pos (length cbs)) ∷ [])
      (end_tx (record w { queue = touch_watched w.queue (get_ctx w).watch }))

exec_queued-serial :
    (h : Host) (cbs : List TxCmd) (w : World)
    → Live w
    → (get_ctx w).transaction ≡ some cbs
    → (get_ctx w).dirty_transaction ≡ false
    → watch_failed w.queue (get_ctx w).watch ≡ false
    → exec_queued h (get_ctx w).transaction (get_ctx w).dirty_transaction w
      ≡ or_panic true (one_by_one h 0 cbs (opened w cbs))
unfolding exec_tx
exec_queued-serial h cbs w live queued clean fresh =
    ap (λ tx. exec_queued h tx (get_ctx w).dirty_transaction w) queued
    ∙ ap (λ dirty. exec_queued h (some cbs) dirty w) clean
    ∙ rw fresh (
        ap (or_panic true) (
          finish _ _ (
            exec_all-Follows h 0 cbs
              (write (array (pos (length cbs)) ∷ [])
                (record w { queue = touch_watched w.queue (get_ctx w).watch }))
              live)))

-- EXEC, with the password given or not asked for, of a transaction that is not dirty and none of whose watched keys has
-- a greater version than it was watched at, is the same as this: write the number of the commands, end the
-- transaction, and then run the commands one by one with `withTx` as a connection that is in no transaction sends
-- them, each drawing the random numbers of its turn. That holds of the databases, of the replies in their order, of
-- the connection's state, and of a panic; EXEC never waits, and it broadcasts.
pub exec-one_by_one :
    (h : Host) (cmd : String) (w : World) (cbs : List TxCmd)
    → Admitted w
    → (get_ctx w).transaction ≡ some cbs
    → (get_ctx w).dirty_transaction ≡ false
    → watch_failed w.queue (get_ctx w).watch ≡ false
    → cmd_exec h cmd [] w ≡ or_panic true (one_by_one h 0 cbs (opened w cbs))
unfolding cmd_exec
exec-one_by_one h cmd w cbs ok queued clean fresh =
    authed-Admitted (λ o. o ≡ or_panic true (one_by_one h 0 cbs (opened w cbs))) _ w ok
      (exec_queued-serial h cbs w (queued-Live w w.peer.ctx cbs refl queued) queued clean fresh)
      (exec_queued-serial h cbs (put_ctx w (get_ctx w)) refl queued clean fresh)
