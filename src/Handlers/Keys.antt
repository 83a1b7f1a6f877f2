-- ===== src/Handlers/Keys.antt =====
-- The handlers of cmd_generic.go and cmd_server.go.
use rediqueue.Base.{String, List, [], ◌∷◌, get_or, ◌==◌, string_eq, if◌then◌else◌}
use rediqueue.Base.Int.{pos}
use rediqueue.Base.Text.{atoi, to_lower}
use rediqueue.Reply.{msg_syntax_error}
use rediqueue.Session.{
  World, TxCmd, del_keys, exists_keys, type_of, keys_matching, random_key, dbsize, flush_db,
  rename_key, rename_key_nx, scan, on_selected, move_to, flush_all,
}
use rediqueue.Session.Run.{Host, Outcome, with_tx}
use rediqueue.Handlers.{Handler, refuse, wrong_number, authed, run_in, run_auth, scan_args}

-- DEL has no check of the number of its arguments.
unfoldable pub cmd_del : Handler
unfolding authed
cmd_del h cmd args w = run_auth h (del_keys args) w

unfoldable pub cmd_type : Handler
unfolding refuse authed
cmd_type h cmd (key ∷ []) w = run_auth h (type_of key) w
cmd_type h cmd _ w = refuse "usage error" w

unfoldable pub cmd_exists : Handler
unfolding refuse authed
cmd_exists h cmd (key ∷ args) w = run_auth h (exists_keys (key ∷ args)) w
cmd_exists h cmd _ w = wrong_number cmd w

unfoldable pub cmd_move : Handler
unfolding refuse authed
cmd_move h cmd (key ∷ target ∷ []) w =
    authed w (with_tx h (move_to key (get_or (atoi target) (pos 0))))
cmd_move h cmd _ w = wrong_number cmd w

unfoldable pub cmd_keys : Handler
unfolding refuse authed
cmd_keys h cmd (key ∷ []) w = run_auth h (keys_matching key) w
cmd_keys h cmd _ w = wrong_number cmd w

unfoldable pub cmd_randomkey : Handler
unfolding refuse authed
cmd_randomkey h cmd [] w = run_auth h random_key w
cmd_randomkey h cmd _ w = wrong_number cmd w

unfoldable pub cmd_rename : Handler
unfolding refuse authed
cmd_rename h cmd (from ∷ to ∷ []) w = run_auth h (rename_key from to) w
cmd_rename h cmd _ w = wrong_number cmd w

unfoldable pub cmd_renamenx : Handler
unfolding refuse authed
cmd_renamenx h cmd (from ∷ to ∷ []) w = run_auth h (rename_key_nx from to) w
cmd_renamenx h cmd _ w = wrong_number cmd w

unfoldable pub cmd_scan : Handler
unfolding refuse authed scan_args
cmd_scan h cmd (cursor ∷ args) w =
    authed w (λ w'. scan_args cursor args w' (λ n match. run_in h (scan n match)))
cmd_scan h cmd _ w = wrong_number cmd w

unfoldable pub cmd_dbsize : Handler
unfolding refuse authed
cmd_dbsize h cmd [] w = run_auth h dbsize w
cmd_dbsize h cmd _ w = wrong_number cmd w

-- The arguments of FLUSHALL and FLUSHDB without a leading ASYNC.
unfoldable pub skip_async : List String → List String
skip_async [] = []
skip_async (arg ∷ args) = if to_lower arg == "async" then args else arg ∷ args

abbrev pub flush_args : List String → TxCmd → Host → World → Outcome
flush_args [] cb h w = authed w (with_tx h cb)
flush_args (arg ∷ args) cb h w = refuse msg_syntax_error w

unfoldable pub cmd_flushall : Handler
unfolding refuse authed skip_async
cmd_flushall h cmd args w = flush_args (skip_async args) flush_all h w

unfoldable pub cmd_flushdb : Handler
unfolding refuse authed skip_async
cmd_flushdb h cmd args w = flush_args (skip_async args) (on_selected flush_db) h w
