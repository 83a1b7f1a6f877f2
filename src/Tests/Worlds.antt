-- ===== src/Tests/Worlds.antt =====
-- Requests to a small server.
use rediqueue.Base.{
  ◌==◌, string_eq, differ, ◌≡◌, ◌≢◌, refl, String, true, false, [], ◌∷◌, none, some, arith, ◌<◌,
  ◌+◌, ◌^◌,
}
use rediqueue.Base.Int.{pos, int_eq}
use rediqueue.Base.Text.{to_upper}
use rediqueue.Base.Dict.{lookup, insert}
use rediqueue.Db.{RedisDb, version}
use rediqueue.Cmd.Lists.{right, push_each}
use rediqueue.Session.{
  World, ConnCtx, DbKey, key_eq, llen, on_selected, flush_all, spop_args, new_ctx, handle_auth,
  db_of, put_db, watch_key,
}
use rediqueue.Session.Run.{Host, or_panic}
use rediqueue.Server.{dispatch}
use rediqueue.Guard.{Leaves}
use rediqueue.Guard.Dispatch.{dispatch-Refused, dispatch-Queues}
use rediqueue.Handlers.Transactions.{cmd_exec, cmd_watch, watch_each, watch_failed}
use rediqueue.Exec.Watch.{Admitted, Aborted, watched_push-Aborted}
use rediqueue.Exec.Watching.{StillWatches, watch_exec-Aborted}
use rediqueue.Handlers.{authed}
use rediqueue.Handlers.Connection.{cmd_auth}
use rediqueue.Guard.Login.{Passes, cmd_auth-Passes}
use rediqueue.Exec.Flush.{flushed, watch_failed-flushed}
use rediqueue.Exec.Serial.{exec-one_by_one, one_by_one, opened}
use rediqueue.Tests.Dbs.{two_keys}

abbrev host : Host
host = record { env = record { compile = λ source. none; range = λ keys. keys }; draws = λ i j. i }

abbrev watched_l : DbKey
watched_l = record { db = pos 0; key = "l" }

-- In a transaction, with the key "l" of the first database watched at version 3.
abbrev in_multi : ConnCtx
in_multi = record new_ctx {
  transaction = some (on_selected (llen "l") ∷ spop_args "s" [] ∷ flush_all ∷ []);
  watch = (watched_l, 3) ∷ [];
}

abbrev server : String → RedisDb → ConnCtx → World
server password db ctx = record {
  queue = record { password = password; dbs = (pos 0, db) ∷ []; selected_db = pos 0 };
  peer = record { out = []; closed = false; ctx = some ctx };
  info_cmds = 0;
}

abbrev busy : World
busy = server "" two_keys in_multi

-- After an RPUSH of another connection.
abbrev changed : World
changed = server "" (push_each right two_keys "l" ("z" ∷ []) 0).0 in_multi

abbrev locked : World
locked = server "secret" two_keys new_ctx

Admitted-busy : Admitted busy
unfolding handle_auth
Admitted-busy = refl

Admitted-changed : Admitted changed
unfolding handle_auth
Admitted-changed = refl

fresh : watch_failed busy.queue in_multi.watch ≡ false
unfolding watch_failed lookup
fresh = refl

failed : watch_failed changed.queue in_multi.watch ≡ true
unfolding watch_failed push_each lookup insert
failed = refl

watched : lookup in_multi.watch watched_l ≡ some (version two_keys "l")
unfolding lookup version
watched = refl

now : db_of changed.queue (pos 0) ≡ (push_each right two_keys "l" ("z" ∷ []) 0).0
unfolding db_of lookup push_each
now = refl

small : version two_keys "l" + 1 < 2 ^ 64
unfolding version lookup
small = omega arith

not_exec : to_upper "flushall" ≢ "EXEC"
unfolding to_upper
not_exec = differ (to_upper "flushall") "EXEC" refl

has_password : locked.queue.password ≢ ""
has_password = differ "secret" "" refl

exec-one_by_one_example :
    cmd_exec host "EXEC" [] busy
    ≡ or_panic true (
        one_by_one host 0
          (on_selected (llen "l") ∷ spop_args "s" [] ∷ flush_all ∷ [])
          (opened busy (on_selected (llen "l") ∷ spop_args "s" [] ∷ flush_all ∷ [])))
exec-one_by_one_example =
    exec-one_by_one host "EXEC" busy (on_selected (llen "l") ∷ spop_args "s" [] ∷ flush_all ∷ [])
      Admitted-busy refl refl fresh

-- Before a WATCH of two keys, and after an RPUSH to the second of them.
abbrev before : World
before = server "" two_keys new_ctx

abbrev after_both : World
after_both =
    server "" (push_each right two_keys "l" ("z" ∷ []) 0).0
      (record in_multi { watch = (record { db = pos 0; key = "s" }, 0) ∷ (watched_l, 3) ∷ [] })

Admitted-before : Admitted before
unfolding handle_auth
Admitted-before = refl

Admitted-after_both : Admitted after_both
unfolding handle_auth
Admitted-after_both = refl

both_watched : StillWatches (cmd_watch host "WATCH" ("s" ∷ "l" ∷ []) before) after_both
unfolding cmd_watch authed handle_auth watch_each watch_key version db_of put_db lookup insert
both_watched = refl

own : (db_of before.queue (pos 0)).id ≡ pos 0
unfolding db_of lookup
own = refl

grown : version (db_of before.queue (pos 0)) "l" < version (db_of after_both.queue (pos 0)) "l"
unfolding version db_of lookup insert push_each
grown = omega arith

watch_exec-Aborted_example : Aborted after_both (cmd_exec host "EXEC" [] after_both)
watch_exec-Aborted_example =
    watch_exec-Aborted host host "WATCH" "EXEC" ("s" ∷ "l" ∷ []) before after_both "l"
      (on_selected (llen "l") ∷ spop_args "s" [] ∷ flush_all ∷ []) Admitted-before refl own refl
      both_watched Admitted-after_both refl refl grown

watched_push-Aborted_example : Aborted changed (cmd_exec host "EXEC" [] changed)
watched_push-Aborted_example =
    watched_push-Aborted host "EXEC" changed
      (on_selected (llen "l") ∷ spop_args "s" [] ∷ flush_all ∷ []) right watched_l two_keys "z" []
      Admitted-changed refl refl watched now small

dispatch-Refused_example : Leaves locked.queue (dispatch host ("flushall" ∷ []) locked)
dispatch-Refused_example = dispatch-Refused host "flushall" [] locked has_password refl

dispatch-Queues_example : Leaves busy.queue (dispatch host ("flushall" ∷ []) busy)
dispatch-Queues_example = dispatch-Queues host "flushall" [] busy refl not_exec

watch_failed-flushed_example :
    watch_failed (flushed busy.queue) in_multi.watch ≡ watch_failed busy.queue in_multi.watch
watch_failed-flushed_example = watch_failed-flushed busy.queue in_multi.watch

cmd_auth-Passes_example :
    Passes locked (cmd_auth host "AUTH" ("guess" ∷ []) locked) (locked.queue.password == "guess")
cmd_auth-Passes_example = cmd_auth-Passes host "AUTH" "guess" locked has_password refl
