-- ===== src/Handlers/Rules/Keys.antt =====
-- The handlers of cmd_generic.go and cmd_server.go by their rules.
use rediqueue.Handlers.Rules.{Rules, run_auth-Out, scan_args-In}
use rediqueue.Session.Run.{Host}
use rediqueue.Handlers.{scan_options, options}
use rediqueue.Base.Text.{atoi}
use rediqueue.Base.{◌≡◌, refl, List, [], ◌∷◌, String, get_or, string_eq, Option, none}
use rediqueue.Base.Int.{ℤ, pos}
use rediqueue.Reply.{err_wrong_number, msg_syntax_error}
use rediqueue.Session.{
  World, TxCmd, on_selected, del_keys, exists_keys, type_of, keys_matching, random_key, dbsize,
  flush_db, rename_key, rename_key_nx, scan, move_to, flush_all,
}
use rediqueue.Handlers.Keys.{
  cmd_del, cmd_type, cmd_exists, cmd_move, cmd_keys, cmd_randomkey, cmd_rename, cmd_renamenx,
  cmd_scan, cmd_dbsize, skip_async, flush_args, cmd_flushall, cmd_flushdb,
}

module _ (h : Host) (rules : Rules h) where
  pub cmd_del-Out :
      ((keys : List String) → rules.Fit (on_selected (del_keys keys)))
      → (cmd : String) (args : List String) (w : World) → rules.Out w (cmd_del h cmd args w)
  unfolding cmd_del
  cmd_del-Out fit cmd args w = run_auth-Out h rules (del_keys args) (fit args) w

  pub cmd_type-Out :
      ((key : String) → rules.Fit (on_selected (type_of key)))
      → (cmd : String) (args : List String) (w : World) → rules.Out w (cmd_type h cmd args w)
  unfolding cmd_type
  cmd_type-Out fit cmd [] w = rules.refused_out "usage error" w
  cmd_type-Out fit cmd (key ∷ []) w = run_auth-Out h rules (type_of key) (fit key) w
  cmd_type-Out fit cmd (a ∷ b ∷ args) w = rules.refused_out "usage error" w

  pub cmd_exists-Out :
      ((keys : List String) → rules.Fit (on_selected (exists_keys keys)))
      → (cmd : String) (args : List String) (w : World) → rules.Out w (cmd_exists h cmd args w)
  unfolding cmd_exists
  cmd_exists-Out fit cmd [] w = rules.refused_out (err_wrong_number cmd) w
  cmd_exists-Out fit cmd (key ∷ args) w =
      run_auth-Out h rules (exists_keys (key ∷ args)) (fit (key ∷ args)) w

  pub cmd_move-Out :
      ((key : String) (n : ℤ) → rules.Fit (move_to key n))
      → (cmd : String) (args : List String) (w : World) → rules.Out w (cmd_move h cmd args w)
  unfolding cmd_move
  cmd_move-Out fit cmd [] w = rules.refused_out (err_wrong_number cmd) w
  cmd_move-Out fit cmd (a ∷ []) w = rules.refused_out (err_wrong_number cmd) w
  cmd_move-Out fit cmd (key ∷ target ∷ []) w =
      rules.authed_out _
        (rules.tx_in (move_to key (get_or (atoi target) (pos 0)))
          (fit key (get_or (atoi target) (pos 0))))
        w
  cmd_move-Out fit cmd (a ∷ b ∷ c ∷ args) w = rules.refused_out (err_wrong_number cmd) w

  pub cmd_keys-Out :
      (cmd : String) (args : List String)
      → ((key : String) → args ≡ key ∷ [] → rules.Fit (on_selected (keys_matching key)))
      → (w : World) → rules.Out w (cmd_keys h cmd args w)
  unfolding cmd_keys
  cmd_keys-Out cmd [] fit w = rules.refused_out (err_wrong_number cmd) w
  cmd_keys-Out cmd (key ∷ []) fit w = run_auth-Out h rules (keys_matching key) (fit key refl) w
  cmd_keys-Out cmd (a ∷ b ∷ args) fit w = rules.refused_out (err_wrong_number cmd) w

  pub cmd_randomkey-Out :
      (rules.Fit (on_selected random_key))
      → (cmd : String) (args : List String) (w : World) → rules.Out w (cmd_randomkey h cmd args w)
  unfolding cmd_randomkey
  cmd_randomkey-Out fit cmd [] w = run_auth-Out h rules (random_key) fit w
  cmd_randomkey-Out fit cmd (a ∷ args) w = rules.refused_out (err_wrong_number cmd) w

  pub cmd_rename-Out :
      (cmd : String) (args : List String)
      → ((from to : String) → args ≡ from ∷ to ∷ [] → rules.Fit (on_selected (rename_key from to)))
      → (w : World) → rules.Out w (cmd_rename h cmd args w)
  unfolding cmd_rename
  cmd_rename-Out cmd [] fit w = rules.refused_out (err_wrong_number cmd) w
  cmd_rename-Out cmd (a ∷ []) fit w = rules.refused_out (err_wrong_number cmd) w
  cmd_rename-Out cmd (from ∷ to ∷ []) fit w =
      run_auth-Out h rules (rename_key from to) (fit from to refl) w
  cmd_rename-Out cmd (a ∷ b ∷ c ∷ args) fit w = rules.refused_out (err_wrong_number cmd) w

  pub cmd_renamenx-Out :
      ((from to : String) → rules.Fit (on_selected (rename_key_nx from to)))
      → (cmd : String) (args : List String) (w : World) → rules.Out w (cmd_renamenx h cmd args w)
  unfolding cmd_renamenx
  cmd_renamenx-Out fit cmd [] w = rules.refused_out (err_wrong_number cmd) w
  cmd_renamenx-Out fit cmd (a ∷ []) w = rules.refused_out (err_wrong_number cmd) w
  cmd_renamenx-Out fit cmd (from ∷ to ∷ []) w =
      run_auth-Out h rules (rename_key_nx from to) (fit from to) w
  cmd_renamenx-Out fit cmd (a ∷ b ∷ c ∷ args) w = rules.refused_out (err_wrong_number cmd) w

  pub cmd_scan-Out :
      (cmd : String) (args : List String)
      → ((cursor : String) (opts : List String) (n : ℤ) (match : Option String)
          → args ≡ cursor ∷ opts
          → scan_options opts none ≡ options match
          → rules.Fit (on_selected (scan n match)))
      → (w : World) → rules.Out w (cmd_scan h cmd args w)
  unfolding cmd_scan
  cmd_scan-Out cmd [] fit w = rules.refused_out (err_wrong_number cmd) w
  cmd_scan-Out cmd (cursor ∷ args) fit w =
      rules.authed_out _
        (scan_args-In h rules cursor args _
          (λ n match e. rules.tx_in (on_selected (scan n match)) (fit cursor args n match refl e)))
        w

  pub cmd_dbsize-Out :
      (rules.Fit (on_selected dbsize))
      → (cmd : String) (args : List String) (w : World) → rules.Out w (cmd_dbsize h cmd args w)
  unfolding cmd_dbsize
  cmd_dbsize-Out fit cmd [] w = run_auth-Out h rules (dbsize) fit w
  cmd_dbsize-Out fit cmd (a ∷ args) w = rules.refused_out (err_wrong_number cmd) w

  flush_args-Out :
      (cb : TxCmd)
      → rules.Fit cb
      → (args : List String) (w : World) → rules.Out w (flush_args args cb h w)
  flush_args-Out cb fit [] w = rules.authed_out _ (rules.tx_in cb fit) w
  flush_args-Out cb fit (arg ∷ args) w = rules.refused_out msg_syntax_error w

  pub cmd_flushall-Out :
      rules.Fit flush_all
      → (cmd : String) (args : List String) (w : World) → rules.Out w (cmd_flushall h cmd args w)
  unfolding cmd_flushall
  cmd_flushall-Out fit cmd args w = flush_args-Out flush_all fit (skip_async args) w

  pub cmd_flushdb-Out :
      rules.Fit (on_selected flush_db)
      → (cmd : String) (args : List String) (w : World) → rules.Out w (cmd_flushdb h cmd args w)
  unfolding cmd_flushdb
  cmd_flushdb-Out fit cmd args w = flush_args-Out (on_selected flush_db) fit (skip_async args) w
