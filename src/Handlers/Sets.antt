-- ===== src/Handlers/Sets.antt =====
-- The handlers of cmd_set.go.
use rediqueue.Base.{true, false, [], ◌∷◌}
use rediqueue.Base.Int.{pos}
use rediqueue.Base.Text.{atoi}
use rediqueue.Reply.{msg_invalid_int, msg_syntax_error}
use rediqueue.Session.{
  sadd, srem, scard, smembers, sdiff, sinter, sunion, sdiffstore, sinterstore, sunionstore,
  sismember, smove, srandmember, sscan, spop_args,
}
use rediqueue.Session.Run.{with_tx}
use rediqueue.Handlers.{
  Handler, refuse, wrong_number, authed, run_in, run_auth, with_int, scan_args,
}

unfoldable pub cmd_sadd : Handler
unfolding refuse authed
cmd_sadd h cmd (key ∷ e ∷ elems) w = run_auth h (sadd key (e ∷ elems)) w
cmd_sadd h cmd _ w = wrong_number cmd w

unfoldable pub cmd_scard : Handler
unfolding refuse authed
cmd_scard h cmd (key ∷ []) w = run_auth h (scard key) w
cmd_scard h cmd _ w = wrong_number cmd w

unfoldable pub cmd_sdiff : Handler
unfolding refuse authed
cmd_sdiff h cmd (key ∷ keys) w = run_auth h (sdiff (key ∷ keys)) w
cmd_sdiff h cmd _ w = wrong_number cmd w

unfoldable pub cmd_sdiffstore : Handler
unfolding refuse authed
cmd_sdiffstore h cmd (dest ∷ key ∷ keys) w = run_auth h (sdiffstore dest (key ∷ keys)) w
cmd_sdiffstore h cmd _ w = wrong_number cmd w

unfoldable pub cmd_sinter : Handler
unfolding refuse authed
cmd_sinter h cmd (key ∷ keys) w = run_auth h (sinter (key ∷ keys)) w
cmd_sinter h cmd _ w = wrong_number cmd w

unfoldable pub cmd_sinterstore : Handler
unfolding refuse authed
cmd_sinterstore h cmd (dest ∷ key ∷ keys) w = run_auth h (sinterstore dest (key ∷ keys)) w
cmd_sinterstore h cmd _ w = wrong_number cmd w

unfoldable pub cmd_sunion : Handler
unfolding refuse authed
cmd_sunion h cmd (key ∷ keys) w = run_auth h (sunion (key ∷ keys)) w
cmd_sunion h cmd _ w = wrong_number cmd w

unfoldable pub cmd_sunionstore : Handler
unfolding refuse authed
cmd_sunionstore h cmd (dest ∷ key ∷ keys) w = run_auth h (sunionstore dest (key ∷ keys)) w
cmd_sunionstore h cmd _ w = wrong_number cmd w

unfoldable pub cmd_sismember : Handler
unfolding refuse authed
cmd_sismember h cmd (key ∷ value ∷ []) w = run_auth h (sismember key value) w
cmd_sismember h cmd _ w = wrong_number cmd w

unfoldable pub cmd_smembers : Handler
unfolding refuse authed
cmd_smembers h cmd (key ∷ []) w = run_auth h (smembers key) w
cmd_smembers h cmd _ w = wrong_number cmd w

unfoldable pub cmd_smove : Handler
unfolding refuse authed
cmd_smove h cmd (src ∷ dst ∷ elem ∷ []) w = run_auth h (smove src dst elem) w
cmd_smove h cmd _ w = wrong_number cmd w

unfoldable pub cmd_spop : Handler
unfolding refuse authed
cmd_spop h cmd (key ∷ args) w = authed w (with_tx h (spop_args key args))
cmd_spop h cmd _ w = wrong_number cmd w

unfoldable pub cmd_srandmember : Handler
unfolding refuse authed
cmd_srandmember h cmd [] w = wrong_number cmd w
cmd_srandmember h cmd (key ∷ []) w = run_auth h (srandmember key (pos 0) false) w
cmd_srandmember h cmd (key ∷ counts ∷ []) w = authed w (λ w'.
    with_int (atoi counts) msg_invalid_int w' (λ count. run_in h (srandmember key count true)))
cmd_srandmember h cmd _ w = refuse msg_syntax_error w

unfoldable pub cmd_srem : Handler
unfolding refuse authed
cmd_srem h cmd (key ∷ f ∷ fields) w = run_auth h (srem key (f ∷ fields)) w
cmd_srem h cmd _ w = wrong_number cmd w

unfoldable pub cmd_sscan : Handler
unfolding refuse authed scan_args
cmd_sscan h cmd (key ∷ cursor ∷ args) w =
    authed w (λ w'. scan_args cursor args w' (λ n match. run_in h (sscan key n match)))
cmd_sscan h cmd _ w = wrong_number cmd w
