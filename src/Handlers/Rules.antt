-- ===== src/Handlers/Rules.antt =====
-- What is to be shown of the few ways in which a handler works, for it to hold of every handler of a group. `Out` stands
-- for what is shown of a handler, `In` for what is shown of its part behind the password, and `Fit` for what has to hold
-- of the callbacks that it makes.
pub mod Lists
pub mod Keys
pub mod Sets
use rediqueue.Base.{◌≡◌, refl, String, List, Option, none, some}
use rediqueue.Base.Int.{ℤ}
use rediqueue.Base.Text.{atoi}
use rediqueue.Reply.{msg_invalid_cursor}
use rediqueue.Session.{World, DbCmd, BlockCmd, TxCmd, on_selected}
use rediqueue.Session.Run.{Host, Outcome, with_tx, blocking}
use rediqueue.Handlers.{
  refuse, authed, run_in, run_auth, with_int, with_options, ScanOptions, options, bad_options,
  scan_args, scan_options,
}

pub record Rules (h : Host) : Type 1 where
  pub Out : World → Outcome → Type 0
  pub In : World → Outcome → Type 0
  pub Fit : TxCmd → Type 0
  pub refused_out : (msg : String) (w : World) → Out w (refuse msg w)
  pub refused_in : (msg : String) (w : World) → In w (refuse msg w)
  pub authed_out :
      (k : World → Outcome) → ((w : World) → In w (k w)) → (w : World) → Out w (authed w k)
  pub tx_in : (cb : TxCmd) → Fit cb → (w : World) → In w (with_tx h cb w)
  pub block_in : (timeout : ℤ) (cmd : BlockCmd) (w : World) → In w (blocking timeout cmd w)

module _ (h : Host) (rules : Rules h) where
  pub run_auth-Out :
      (cmd : DbCmd) → rules.Fit (on_selected cmd) → (w : World) → rules.Out w (run_auth h cmd w)
  run_auth-Out cmd fit = rules.authed_out (run_in h cmd) (rules.tx_in (on_selected cmd) fit)

  pub with_int-In :
      (o : Option ℤ) (msg : String) (k : ℤ → World → Outcome)
      → ((n : ℤ) → o ≡ some n → (w : World) → rules.In w (k n w))
      → (w : World) → rules.In w (with_int o msg w k)
  with_int-In none msg k q w = rules.refused_in msg w
  with_int-In (some n) msg k q w = q n refl w

  with_options-In :
      (o : ScanOptions) (k : Option String → World → Outcome)
      → ((match : Option String) → o ≡ options match → (w : World) → rules.In w (k match w))
      → (w : World) → rules.In w (with_options o w k)
  with_options-In (options match) k q w = q match refl w
  with_options-In (bad_options msg) k q w = rules.refused_in msg w

  pub scan_args-In :
      (cursor : String) (args : List String) (k : ℤ → Option String → World → Outcome)
      → ((n : ℤ) (match : Option String)
          → scan_options args none ≡ options match
          → (w : World) → rules.In w (k n match w))
      → (w : World) → rules.In w (scan_args cursor args w k)
  unfolding scan_args
  scan_args-In cursor args k q =
      with_int-In _ _ (λ n w'. with_options (scan_options args none) w' (k n))
        (λ n e. with_options-In (scan_options args none) (k n) (q n))
