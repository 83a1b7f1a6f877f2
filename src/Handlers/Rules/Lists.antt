-- ===== src/Handlers/Rules/Lists.antt =====
-- The handlers of cmd_list.go by their rules.
use rediqueue.Handlers.Rules.{Rules, run_auth-Out, with_int-In}
use rediqueue.Session.Run.{Host, seconds}
use rediqueue.Base.Text.{atoi, to_lower}
use rediqueue.Base.{◌≡◌, inl, inr, Bool-cases, List, [], ◌∷◌, String, ◌==◌, string_eq, some}
use rediqueue.Base.Int.{ℤ, pos, negsuc, pos_part, ltb_ℤ}
use rediqueue.Reply.{err_wrong_number, msg_syntax_error, msg_neg_timeout}
use rediqueue.Session.{
  World, BlockCmd, bxpop, brpoplpush, on_selected, lindex, linsert, llen, xpop, xpush, xpushx,
  lrange, ltrim, lrem, lset, rpoplpush,
}
use rediqueue.Cmd.Lists.{LeftRight}
use rediqueue.Handlers.Lists.{
  block_for, split_last, cmd_bxpop, cmd_lindex, cmd_linsert, cmd_llen, cmd_xpop, cmd_xpush,
  cmd_xpushx, cmd_lrange, cmd_lrem, cmd_lset, cmd_ltrim, cmd_rpoplpush, cmd_brpoplpush,
}

module _ (h : Host) (rules : Rules h) where
  block_for-In :
      (timeout : String) (cmd : BlockCmd) (w : World) → rules.In w (block_for timeout cmd w)
  unfolding block_for
  block_for-In timeout cmd = with_int-In h rules (atoi timeout) _ _ (λ n e w.
      elim (Bool-cases (ltb_ℤ n (pos 0))) [
        | inl negative ↦ rw negative (rules.refused_in msg_neg_timeout w)
        | inr enough ↦ rw enough (rules.block_in (seconds (pos_part n)) cmd w)
      ])

  pub cmd_bxpop-Out :
      (lr : LeftRight)
      → (cmd : String) (args : List String) (w : World) → rules.Out w (cmd_bxpop lr h cmd args w)
  unfolding cmd_bxpop
  cmd_bxpop-Out lr cmd [] w = rules.refused_out (err_wrong_number cmd) w
  cmd_bxpop-Out lr cmd (a ∷ []) w = rules.refused_out (err_wrong_number cmd) w
  cmd_bxpop-Out lr cmd (a ∷ b ∷ args) w =
      let r = split_last a (b ∷ args) in rules.authed_out _ (block_for-In r.1 (bxpop lr r.0)) w

  pub cmd_lindex-Out :
      ((key s : String) (n : ℤ) → atoi s ≡ some n → rules.Fit (on_selected (lindex key n)))
      → (cmd : String) (args : List String) (w : World) → rules.Out w (cmd_lindex h cmd args w)
  unfolding cmd_lindex
  cmd_lindex-Out fit cmd [] w = rules.refused_out (err_wrong_number cmd) w
  cmd_lindex-Out fit cmd (a ∷ []) w = rules.refused_out (err_wrong_number cmd) w
  cmd_lindex-Out fit cmd (key ∷ offsets ∷ []) w =
      rules.authed_out _
        (with_int-In h rules (atoi offsets) _ _
          (λ n e. rules.tx_in (on_selected (lindex key n)) (fit key offsets n e)))
        w
  cmd_lindex-Out fit cmd (a ∷ b ∷ c ∷ args) w = rules.refused_out (err_wrong_number cmd) w

  pub cmd_linsert-Out :
      ((key : String) (n : ℤ) (pivot value : String)
        → rules.Fit (on_selected (linsert key n pivot value)))
      → (cmd : String) (args : List String) (w : World) → rules.Out w (cmd_linsert h cmd args w)
  unfolding cmd_linsert
  cmd_linsert-Out fit cmd [] w = rules.refused_out (err_wrong_number cmd) w
  cmd_linsert-Out fit cmd (a ∷ []) w = rules.refused_out (err_wrong_number cmd) w
  cmd_linsert-Out fit cmd (a ∷ b ∷ []) w = rules.refused_out (err_wrong_number cmd) w
  cmd_linsert-Out fit cmd (a ∷ b ∷ c ∷ []) w = rules.refused_out (err_wrong_number cmd) w
  cmd_linsert-Out fit cmd (key ∷ side ∷ pivot ∷ value ∷ []) w =
      rules.authed_out _
        (λ w'. elim (Bool-cases (to_lower side == "before")) [
          | inl before ↦ rw before (
              rules.tx_in (on_selected (linsert key (negsuc 0) pivot value))
                (fit key (negsuc 0) pivot value) w')
          | inr other ↦ elim (Bool-cases (to_lower side == "after")) [
            | inl after ↦
                rw (other, after)
                  (rules.tx_in (on_selected (linsert key (pos 1) pivot value))
                    (fit key (pos 1) pivot value) w')
            | inr neither ↦ rw (other, neither) (rules.refused_in msg_syntax_error w')
          ]
        ])
        w
  cmd_linsert-Out fit cmd (a ∷ b ∷ c ∷ d ∷ e ∷ args) w = rules.refused_out (err_wrong_number cmd) w

  pub cmd_llen-Out :
      ((key : String) → rules.Fit (on_selected (llen key)))
      → (cmd : String) (args : List String) (w : World) → rules.Out w (cmd_llen h cmd args w)
  unfolding cmd_llen
  cmd_llen-Out fit cmd [] w = rules.refused_out (err_wrong_number cmd) w
  cmd_llen-Out fit cmd (key ∷ []) w = run_auth-Out h rules (llen key) (fit key) w
  cmd_llen-Out fit cmd (a ∷ b ∷ args) w = rules.refused_out (err_wrong_number cmd) w

  pub cmd_xpop-Out :
      (lr : LeftRight)
      → ((key : String) → rules.Fit (on_selected (xpop lr key)))
      → (cmd : String) (args : List String) (w : World) → rules.Out w (cmd_xpop lr h cmd args w)
  unfolding cmd_xpop
  cmd_xpop-Out lr fit cmd [] w = rules.refused_out (err_wrong_number cmd) w
  cmd_xpop-Out lr fit cmd (key ∷ []) w = run_auth-Out h rules (xpop lr key) (fit key) w
  cmd_xpop-Out lr fit cmd (a ∷ b ∷ args) w = rules.refused_out (err_wrong_number cmd) w

  pub cmd_xpush-Out :
      (lr : LeftRight)
      → ((key value : String) (args : List String)
          → rules.Fit (on_selected (xpush lr key (value ∷ args))))
      → (cmd : String) (args : List String) (w : World) → rules.Out w (cmd_xpush lr h cmd args w)
  unfolding cmd_xpush
  cmd_xpush-Out lr fit cmd [] w = rules.refused_out (err_wrong_number cmd) w
  cmd_xpush-Out lr fit cmd (a ∷ []) w = rules.refused_out (err_wrong_number cmd) w
  cmd_xpush-Out lr fit cmd (key ∷ value ∷ args) w =
      run_auth-Out h rules (xpush lr key (value ∷ args)) (fit key value args) w

  pub cmd_xpushx-Out :
      (lr : LeftRight)
      → ((key value : String) (args : List String)
          → rules.Fit (on_selected (xpushx lr key (value ∷ args))))
      → (cmd : String) (args : List String) (w : World) → rules.Out w (cmd_xpushx lr h cmd args w)
  unfolding cmd_xpushx
  cmd_xpushx-Out lr fit cmd [] w = rules.refused_out (err_wrong_number cmd) w
  cmd_xpushx-Out lr fit cmd (a ∷ []) w = rules.refused_out (err_wrong_number cmd) w
  cmd_xpushx-Out lr fit cmd (key ∷ value ∷ args) w =
      run_auth-Out h rules (xpushx lr key (value ∷ args)) (fit key value args) w

  pub cmd_lrange-Out :
      ((key s e : String) (m n : ℤ)
        → atoi s ≡ some m
        → atoi e ≡ some n
        → rules.Fit (on_selected (lrange key m n)))
      → (cmd : String) (args : List String) (w : World) → rules.Out w (cmd_lrange h cmd args w)
  unfolding cmd_lrange
  cmd_lrange-Out fit cmd [] w = rules.refused_out (err_wrong_number cmd) w
  cmd_lrange-Out fit cmd (a ∷ []) w = rules.refused_out (err_wrong_number cmd) w
  cmd_lrange-Out fit cmd (a ∷ b ∷ []) w = rules.refused_out (err_wrong_number cmd) w
  cmd_lrange-Out fit cmd (key ∷ start ∷ end ∷ []) w =
      rules.authed_out _
        (with_int-In h rules (atoi start) _ _ (λ m d.
          with_int-In h rules (atoi end) _ _
            (λ n e. rules.tx_in (on_selected (lrange key m n)) (fit key start end m n d e))))
        w
  cmd_lrange-Out fit cmd (a ∷ b ∷ c ∷ d ∷ args) w = rules.refused_out (err_wrong_number cmd) w

  pub cmd_lrem-Out :
      ((key s value : String) (n : ℤ)
        → atoi s ≡ some n
        → rules.Fit (on_selected (lrem key n value)))
      → (cmd : String) (args : List String) (w : World) → rules.Out w (cmd_lrem h cmd args w)
  unfolding cmd_lrem
  cmd_lrem-Out fit cmd [] w = rules.refused_out (err_wrong_number cmd) w
  cmd_lrem-Out fit cmd (a ∷ []) w = rules.refused_out (err_wrong_number cmd) w
  cmd_lrem-Out fit cmd (a ∷ b ∷ []) w = rules.refused_out (err_wrong_number cmd) w
  cmd_lrem-Out fit cmd (key ∷ counts ∷ value ∷ []) w =
      rules.authed_out _
        (with_int-In h rules (atoi counts) _ _
          (λ n e. rules.tx_in (on_selected (lrem key n value)) (fit key counts value n e)))
        w
  cmd_lrem-Out fit cmd (a ∷ b ∷ c ∷ d ∷ args) w = rules.refused_out (err_wrong_number cmd) w

  pub cmd_lset-Out :
      ((key s value : String) (n : ℤ)
        → atoi s ≡ some n
        → rules.Fit (on_selected (lset key n value)))
      → (cmd : String) (args : List String) (w : World) → rules.Out w (cmd_lset h cmd args w)
  unfolding cmd_lset
  cmd_lset-Out fit cmd [] w = rules.refused_out (err_wrong_number cmd) w
  cmd_lset-Out fit cmd (a ∷ []) w = rules.refused_out (err_wrong_number cmd) w
  cmd_lset-Out fit cmd (a ∷ b ∷ []) w = rules.refused_out (err_wrong_number cmd) w
  cmd_lset-Out fit cmd (key ∷ indices ∷ value ∷ []) w =
      rules.authed_out _
        (with_int-In h rules (atoi indices) _ _
          (λ n e. rules.tx_in (on_selected (lset key n value)) (fit key indices value n e)))
        w
  cmd_lset-Out fit cmd (a ∷ b ∷ c ∷ d ∷ args) w = rules.refused_out (err_wrong_number cmd) w

  pub cmd_ltrim-Out :
      ((key s e : String) (m n : ℤ)
        → atoi s ≡ some m
        → atoi e ≡ some n
        → rules.Fit (on_selected (ltrim key m n)))
      → (cmd : String) (args : List String) (w : World) → rules.Out w (cmd_ltrim h cmd args w)
  unfolding cmd_ltrim
  cmd_ltrim-Out fit cmd [] w = rules.refused_out (err_wrong_number cmd) w
  cmd_ltrim-Out fit cmd (a ∷ []) w = rules.refused_out (err_wrong_number cmd) w
  cmd_ltrim-Out fit cmd (a ∷ b ∷ []) w = rules.refused_out (err_wrong_number cmd) w
  cmd_ltrim-Out fit cmd (key ∷ start ∷ end ∷ []) w =
      rules.authed_out _
        (with_int-In h rules (atoi start) _ _ (λ m d.
          with_int-In h rules (atoi end) _ _
            (λ n e. rules.tx_in (on_selected (ltrim key m n)) (fit key start end m n d e))))
        w
  cmd_ltrim-Out fit cmd (a ∷ b ∷ c ∷ d ∷ args) w = rules.refused_out (err_wrong_number cmd) w

  pub cmd_rpoplpush-Out :
      ((src dst : String) → rules.Fit (on_selected (rpoplpush src dst)))
      → (cmd : String) (args : List String) (w : World) → rules.Out w (cmd_rpoplpush h cmd args w)
  unfolding cmd_rpoplpush
  cmd_rpoplpush-Out fit cmd [] w = rules.refused_out (err_wrong_number cmd) w
  cmd_rpoplpush-Out fit cmd (a ∷ []) w = rules.refused_out (err_wrong_number cmd) w
  cmd_rpoplpush-Out fit cmd (src ∷ dst ∷ []) w =
      run_auth-Out h rules (rpoplpush src dst) (fit src dst) w
  cmd_rpoplpush-Out fit cmd (a ∷ b ∷ c ∷ args) w = rules.refused_out (err_wrong_number cmd) w

  pub cmd_brpoplpush-Out :
      (cmd : String) (args : List String) (w : World) → rules.Out w (cmd_brpoplpush h cmd args w)
  unfolding cmd_brpoplpush
  cmd_brpoplpush-Out cmd [] w = rules.refused_out (err_wrong_number cmd) w
  cmd_brpoplpush-Out cmd (a ∷ []) w = rules.refused_out (err_wrong_number cmd) w
  cmd_brpoplpush-Out cmd (a ∷ b ∷ []) w = rules.refused_out (err_wrong_number cmd) w
  cmd_brpoplpush-Out cmd (src ∷ dst ∷ timeout ∷ []) w =
      rules.authed_out _ (block_for-In timeout (brpoplpush src dst)) w
  cmd_brpoplpush-Out cmd (a ∷ b ∷ c ∷ d ∷ args) w = rules.refused_out (err_wrong_number cmd) w
