-- ===== src/Handlers/Lists.antt =====
-- The handlers of cmd_list.go.
use rediqueue.Base.{String, List, [], ◌∷◌, ◌==◌, string_eq, if◌then◌else◌}
use rediqueue.Base.Int.{ℤ, pos, negsuc, pos_part, ltb_ℤ}
use rediqueue.Base.Text.{atoi, to_lower}
use rediqueue.Reply.{msg_invalid_int, msg_invalid_timeout, msg_neg_timeout, msg_syntax_error}
use rediqueue.Cmd.Lists.{LeftRight, left, right}
use rediqueue.Session.{World, BlockCmd, bxpop, brpoplpush}
use rediqueue.Session.{
  lindex, linsert, llen, xpop, xpush, xpushx, lrange, ltrim, lrem, lset, rpoplpush,
}
use rediqueue.Session.Run.{Outcome, blocking, seconds}
use rediqueue.Handlers.{Handler, refuse, wrong_number, authed, run_in, run_auth, with_int}

-- The timeout, and then `blocking`.
unfoldable pub block_for : String → BlockCmd → World → Outcome
unfolding blocking refuse
block_for timeout_s cmd w = with_int (atoi timeout_s) msg_invalid_timeout w (λ timeout w'.
    if ltb_ℤ timeout (pos 0)
    then refuse msg_neg_timeout w'
    else blocking (seconds (pos_part timeout)) cmd w')

-- The arguments without the last one, and the last one.
unfoldable pub split_last : String → List String → List String × String
split_last a [] = ([], a)
split_last a (b ∷ args) = let (keys, timeout) = split_last b args in (a ∷ keys, timeout)

unfoldable pub cmd_bxpop : LeftRight → Handler
unfolding refuse authed block_for split_last
cmd_bxpop lr h cmd (a ∷ b ∷ args) w =
    let (keys, timeout) = split_last a (b ∷ args) in authed w (block_for timeout (bxpop lr keys))
cmd_bxpop lr h cmd _ w = wrong_number cmd w

unfoldable pub cmd_blpop : Handler
unfolding cmd_bxpop
cmd_blpop = cmd_bxpop left

unfoldable pub cmd_brpop : Handler
unfolding cmd_bxpop
cmd_brpop = cmd_bxpop right

unfoldable pub cmd_lindex : Handler
unfolding refuse authed
cmd_lindex h cmd (key ∷ offsets ∷ []) w =
    authed w
      (λ w'. with_int (atoi offsets) msg_invalid_int w' (λ offset. run_in h (lindex key offset)))
cmd_lindex h cmd _ w = wrong_number cmd w

unfoldable pub cmd_linsert : Handler
unfolding refuse authed
cmd_linsert h cmd (key ∷ side ∷ pivot ∷ value ∷ []) w = authed w (λ w'.
    if to_lower side == "before"
    then run_in h (linsert key (negsuc 0) pivot value) w'
    else if to_lower side == "after"
    then run_in h (linsert key (pos 1) pivot value) w'
    else refuse msg_syntax_error w')
cmd_linsert h cmd _ w = wrong_number cmd w

unfoldable pub cmd_llen : Handler
unfolding refuse authed
cmd_llen h cmd (key ∷ []) w = run_auth h (llen key) w
cmd_llen h cmd _ w = wrong_number cmd w

unfoldable pub cmd_xpop : LeftRight → Handler
unfolding refuse authed
cmd_xpop lr h cmd (key ∷ []) w = run_auth h (xpop lr key) w
cmd_xpop lr h cmd _ w = wrong_number cmd w

unfoldable pub cmd_lpop : Handler
unfolding cmd_xpop
cmd_lpop = cmd_xpop left

unfoldable pub cmd_rpop : Handler
unfolding cmd_xpop
cmd_rpop = cmd_xpop right

unfoldable pub cmd_xpush : LeftRight → Handler
unfolding refuse authed
cmd_xpush lr h cmd (key ∷ value ∷ args) w = run_auth h (xpush lr key (value ∷ args)) w
cmd_xpush lr h cmd _ w = wrong_number cmd w

unfoldable pub cmd_lpush : Handler
unfolding cmd_xpush
cmd_lpush = cmd_xpush left

unfoldable pub cmd_rpush : Handler
unfolding cmd_xpush
cmd_rpush = cmd_xpush right

unfoldable pub cmd_xpushx : LeftRight → Handler
unfolding refuse authed
cmd_xpushx lr h cmd (key ∷ value ∷ args) w = run_auth h (xpushx lr key (value ∷ args)) w
cmd_xpushx lr h cmd _ w = wrong_number cmd w

unfoldable pub cmd_lpushx : Handler
unfolding cmd_xpushx
cmd_lpushx = cmd_xpushx left

unfoldable pub cmd_rpushx : Handler
unfolding cmd_xpushx
cmd_rpushx = cmd_xpushx right

-- The two offsets of LRANGE and LTRIM.
abbrev with_range : String → String → World → (ℤ → ℤ → World → Outcome) → Outcome
with_range start end w k =
    with_int (atoi start) msg_invalid_int w (λ rs w'. with_int (atoi end) msg_invalid_int w' (k rs))

unfoldable pub cmd_lrange : Handler
unfolding refuse authed
cmd_lrange h cmd (key ∷ start ∷ end ∷ []) w =
    authed w (λ w'. with_range start end w' (λ rs re. run_in h (lrange key rs re)))
cmd_lrange h cmd _ w = wrong_number cmd w

unfoldable pub cmd_lrem : Handler
unfolding refuse authed
cmd_lrem h cmd (key ∷ counts ∷ value ∷ []) w =
    authed w
      (λ w'. with_int (atoi counts) msg_invalid_int w' (λ count. run_in h (lrem key count value)))
cmd_lrem h cmd _ w = wrong_number cmd w

unfoldable pub cmd_lset : Handler
unfolding refuse authed
cmd_lset h cmd (key ∷ indices ∷ value ∷ []) w =
    authed w
      (λ w'. with_int (atoi indices) msg_invalid_int w' (λ index. run_in h (lset key index value)))
cmd_lset h cmd _ w = wrong_number cmd w

unfoldable pub cmd_ltrim : Handler
unfolding refuse authed
cmd_ltrim h cmd (key ∷ start ∷ end ∷ []) w =
    authed w (λ w'. with_range start end w' (λ rs re. run_in h (ltrim key rs re)))
cmd_ltrim h cmd _ w = wrong_number cmd w

unfoldable pub cmd_rpoplpush : Handler
unfolding refuse authed
cmd_rpoplpush h cmd (src ∷ dst ∷ []) w = run_auth h (rpoplpush src dst) w
cmd_rpoplpush h cmd _ w = wrong_number cmd w

unfoldable pub cmd_brpoplpush : Handler
unfolding refuse authed block_for
cmd_brpoplpush h cmd (src ∷ dst ∷ timeout ∷ []) w =
    authed w (block_for timeout (brpoplpush src dst))
cmd_brpoplpush h cmd _ w = wrong_number cmd w
