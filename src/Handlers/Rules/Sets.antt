-- ===== src/Handlers/Rules/Sets.antt =====
-- The handlers of cmd_set.go by their rules.
use rediqueue.Handlers.Rules.{Rules, run_auth-Out, with_int-In, scan_args-In}
use rediqueue.Session.Run.{Host}
use rediqueue.Handlers.{scan_options, options}
use rediqueue.Base.Text.{atoi}
use rediqueue.Base.{◌≡◌, refl, true, false, List, [], ◌∷◌, String, string_eq, Option, none, some}
use rediqueue.Base.Int.{ℤ, pos}
use rediqueue.Reply.{err_wrong_number, msg_syntax_error}
use rediqueue.Session.{
  World, on_selected, sadd, srem, scard, smembers, sdiff, sinter, sunion, sdiffstore, sinterstore,
  sunionstore, sismember, smove, srandmember, sscan, spop_args,
}
use rediqueue.Handlers.Sets.{
  cmd_sadd, cmd_scard, cmd_sdiff, cmd_sdiffstore, cmd_sinter, cmd_sinterstore, cmd_sunion,
  cmd_sunionstore, cmd_sismember, cmd_smembers, cmd_smove, cmd_spop, cmd_srandmember, cmd_srem,
  cmd_sscan,
}

module _ (h : Host) (rules : Rules h) where
  pub cmd_sdiff-Out :
      ((key : String) (keys : List String) → rules.Fit (on_selected (sdiff (key ∷ keys))))
      → (cmd : String) (args : List String) (w : World) → rules.Out w (cmd_sdiff h cmd args w)
  unfolding cmd_sdiff
  cmd_sdiff-Out fit cmd [] w = rules.refused_out (err_wrong_number cmd) w
  cmd_sdiff-Out fit cmd (key ∷ keys) w = run_auth-Out h rules (sdiff (key ∷ keys)) (fit key keys) w

  pub cmd_sdiffstore-Out :
      ((dest key : String) (keys : List String)
        → rules.Fit (on_selected (sdiffstore dest (key ∷ keys))))
      → (cmd : String) (args : List String) (w : World) → rules.Out w (cmd_sdiffstore h cmd args w)
  unfolding cmd_sdiffstore
  cmd_sdiffstore-Out fit cmd [] w = rules.refused_out (err_wrong_number cmd) w
  cmd_sdiffstore-Out fit cmd (a ∷ []) w = rules.refused_out (err_wrong_number cmd) w
  cmd_sdiffstore-Out fit cmd (dest ∷ key ∷ keys) w =
      run_auth-Out h rules (sdiffstore dest (key ∷ keys)) (fit dest key keys) w

  pub cmd_sinter-Out :
      ((key : String) (keys : List String) → rules.Fit (on_selected (sinter (key ∷ keys))))
      → (cmd : String) (args : List String) (w : World) → rules.Out w (cmd_sinter h cmd args w)
  unfolding cmd_sinter
  cmd_sinter-Out fit cmd [] w = rules.refused_out (err_wrong_number cmd) w
  cmd_sinter-Out fit cmd (key ∷ keys) w =
      run_auth-Out h rules (sinter (key ∷ keys)) (fit key keys) w

  pub cmd_sinterstore-Out :
      ((dest key : String) (keys : List String)
        → rules.Fit (on_selected (sinterstore dest (key ∷ keys))))
      → (cmd : String) (args : List String) (w : World) → rules.Out w (cmd_sinterstore h cmd args w)
  unfolding cmd_sinterstore
  cmd_sinterstore-Out fit cmd [] w = rules.refused_out (err_wrong_number cmd) w
  cmd_sinterstore-Out fit cmd (a ∷ []) w = rules.refused_out (err_wrong_number cmd) w
  cmd_sinterstore-Out fit cmd (dest ∷ key ∷ keys) w =
      run_auth-Out h rules (sinterstore dest (key ∷ keys)) (fit dest key keys) w

  pub cmd_sunion-Out :
      ((key : String) (keys : List String) → rules.Fit (on_selected (sunion (key ∷ keys))))
      → (cmd : String) (args : List String) (w : World) → rules.Out w (cmd_sunion h cmd args w)
  unfolding cmd_sunion
  cmd_sunion-Out fit cmd [] w = rules.refused_out (err_wrong_number cmd) w
  cmd_sunion-Out fit cmd (key ∷ keys) w =
      run_auth-Out h rules (sunion (key ∷ keys)) (fit key keys) w

  pub cmd_sunionstore-Out :
      ((dest key : String) (keys : List String)
        → rules.Fit (on_selected (sunionstore dest (key ∷ keys))))
      → (cmd : String) (args : List String) (w : World) → rules.Out w (cmd_sunionstore h cmd args w)
  unfolding cmd_sunionstore
  cmd_sunionstore-Out fit cmd [] w = rules.refused_out (err_wrong_number cmd) w
  cmd_sunionstore-Out fit cmd (a ∷ []) w = rules.refused_out (err_wrong_number cmd) w
  cmd_sunionstore-Out fit cmd (dest ∷ key ∷ keys) w =
      run_auth-Out h rules (sunionstore dest (key ∷ keys)) (fit dest key keys) w

  pub cmd_sadd-Out :
      ((key : String) (elems : List String) → rules.Fit (on_selected (sadd key elems)))
      → (cmd : String) (args : List String) (w : World) → rules.Out w (cmd_sadd h cmd args w)
  unfolding cmd_sadd
  cmd_sadd-Out fit cmd [] w = rules.refused_out (err_wrong_number cmd) w
  cmd_sadd-Out fit cmd (a ∷ []) w = rules.refused_out (err_wrong_number cmd) w
  cmd_sadd-Out fit cmd (key ∷ e ∷ elems) w =
      run_auth-Out h rules (sadd key (e ∷ elems)) (fit key (e ∷ elems)) w

  pub cmd_srem-Out :
      ((key : String) (elems : List String) → rules.Fit (on_selected (srem key elems)))
      → (cmd : String) (args : List String) (w : World) → rules.Out w (cmd_srem h cmd args w)
  unfolding cmd_srem
  cmd_srem-Out fit cmd [] w = rules.refused_out (err_wrong_number cmd) w
  cmd_srem-Out fit cmd (a ∷ []) w = rules.refused_out (err_wrong_number cmd) w
  cmd_srem-Out fit cmd (key ∷ e ∷ elems) w =
      run_auth-Out h rules (srem key (e ∷ elems)) (fit key (e ∷ elems)) w

  pub cmd_scard-Out :
      ((key : String) → rules.Fit (on_selected (scard key)))
      → (cmd : String) (args : List String) (w : World) → rules.Out w (cmd_scard h cmd args w)
  unfolding cmd_scard
  cmd_scard-Out fit cmd [] w = rules.refused_out (err_wrong_number cmd) w
  cmd_scard-Out fit cmd (key ∷ []) w = run_auth-Out h rules (scard key) (fit key) w
  cmd_scard-Out fit cmd (a ∷ b ∷ args) w = rules.refused_out (err_wrong_number cmd) w

  pub cmd_smembers-Out :
      ((key : String) → rules.Fit (on_selected (smembers key)))
      → (cmd : String) (args : List String) (w : World) → rules.Out w (cmd_smembers h cmd args w)
  unfolding cmd_smembers
  cmd_smembers-Out fit cmd [] w = rules.refused_out (err_wrong_number cmd) w
  cmd_smembers-Out fit cmd (key ∷ []) w = run_auth-Out h rules (smembers key) (fit key) w
  cmd_smembers-Out fit cmd (a ∷ b ∷ args) w = rules.refused_out (err_wrong_number cmd) w

  pub cmd_sismember-Out :
      ((key value : String) → rules.Fit (on_selected (sismember key value)))
      → (cmd : String) (args : List String) (w : World) → rules.Out w (cmd_sismember h cmd args w)
  unfolding cmd_sismember
  cmd_sismember-Out fit cmd [] w = rules.refused_out (err_wrong_number cmd) w
  cmd_sismember-Out fit cmd (a ∷ []) w = rules.refused_out (err_wrong_number cmd) w
  cmd_sismember-Out fit cmd (key ∷ value ∷ []) w =
      run_auth-Out h rules (sismember key value) (fit key value) w
  cmd_sismember-Out fit cmd (a ∷ b ∷ c ∷ args) w = rules.refused_out (err_wrong_number cmd) w

  pub cmd_smove-Out :
      ((src dst elem : String) → rules.Fit (on_selected (smove src dst elem)))
      → (cmd : String) (args : List String) (w : World) → rules.Out w (cmd_smove h cmd args w)
  unfolding cmd_smove
  cmd_smove-Out fit cmd [] w = rules.refused_out (err_wrong_number cmd) w
  cmd_smove-Out fit cmd (a ∷ []) w = rules.refused_out (err_wrong_number cmd) w
  cmd_smove-Out fit cmd (a ∷ b ∷ []) w = rules.refused_out (err_wrong_number cmd) w
  cmd_smove-Out fit cmd (src ∷ dst ∷ elem ∷ []) w =
      run_auth-Out h rules (smove src dst elem) (fit src dst elem) w
  cmd_smove-Out fit cmd (a ∷ b ∷ c ∷ d ∷ args) w = rules.refused_out (err_wrong_number cmd) w

  pub cmd_spop-Out :
      ((key : String) (args : List String) → rules.Fit (spop_args key args))
      → (cmd : String) (args : List String) (w : World) → rules.Out w (cmd_spop h cmd args w)
  unfolding cmd_spop
  cmd_spop-Out fit cmd [] w = rules.refused_out (err_wrong_number cmd) w
  cmd_spop-Out fit cmd (key ∷ args) w =
      rules.authed_out _ (rules.tx_in (spop_args key args) (fit key args)) w

  pub cmd_srandmember-Out :
      (cmd : String) (args : List String)
      → ((key : String) → args ≡ key ∷ [] → rules.Fit (on_selected (srandmember key (pos 0) false)))
      → ((key s : String) (n : ℤ)
          → args ≡ key ∷ s ∷ []
          → atoi s ≡ some n
          → rules.Fit (on_selected (srandmember key n true)))
      → (w : World) → rules.Out w (cmd_srandmember h cmd args w)
  unfolding cmd_srandmember
  cmd_srandmember-Out cmd [] one many w = rules.refused_out (err_wrong_number cmd) w
  cmd_srandmember-Out cmd (key ∷ []) one many w =
      run_auth-Out h rules (srandmember key (pos 0) false) (one key refl) w
  cmd_srandmember-Out cmd (key ∷ counts ∷ []) one many w =
      rules.authed_out _
        (with_int-In h rules (atoi counts) _ _
          (λ n e. rules.tx_in (on_selected (srandmember key n true)) (many key counts n refl e)))
        w
  cmd_srandmember-Out cmd (key ∷ counts ∷ c ∷ args) one many w =
      rules.refused_out msg_syntax_error w

  pub cmd_sscan-Out :
      (cmd : String) (args : List String)
      → ((key cursor : String) (opts : List String) (n : ℤ) (match : Option String)
          → args ≡ key ∷ cursor ∷ opts
          → scan_options opts none ≡ options match
          → rules.Fit (on_selected (sscan key n match)))
      → (w : World) → rules.Out w (cmd_sscan h cmd args w)
  unfolding cmd_sscan
  cmd_sscan-Out cmd [] fit w = rules.refused_out (err_wrong_number cmd) w
  cmd_sscan-Out cmd (a ∷ []) fit w = rules.refused_out (err_wrong_number cmd) w
  cmd_sscan-Out cmd (key ∷ cursor ∷ args) fit w =
      rules.authed_out _
        (scan_args-In h rules cursor args _ (λ n match e.
          rules.tx_in (on_selected (sscan key n match)) (fit key cursor args n match refl e)))
        w
