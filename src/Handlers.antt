-- ===== src/Handlers.antt =====
-- The command handlers: the checks before the callback, shared by the children.
pub mod Lists
pub mod Keys
pub mod Sets
pub mod Connection
pub mod Transactions
pub mod Rules
use rediqueue.Base.{
  String, Bool, true, false, List, [], ◌∷◌, Option, none, some, ◌==◌, ◌&&◌, string_eq,
  if◌then◌else◌,
}
use rediqueue.Base.Int.{ℤ}
use rediqueue.Base.Text.{atoi, to_lower}
use rediqueue.Reply.{error, err_wrong_number, msg_syntax_error, msg_invalid_int, msg_invalid_cursor}
use rediqueue.Session.{World, DbCmd, TxCmd, on_selected, write, set_dirty, handle_auth}
use rediqueue.Session.Run.{Host, Outcome, returned, with_tx}

-- type Cmd of server/server.go: the command's name, in upper case, its arguments and the connection.
abbrev pub Handler : Type 0
Handler = Host → String → List String → World → Outcome

-- setDirty(c); c.WriteError(msg); return
unfoldable pub refuse : String → World → Outcome
unfolding set_dirty
refuse msg w = returned false (write (error msg ∷ []) (set_dirty w))

abbrev pub wrong_number : String → World → Outcome
wrong_number cmd w = refuse (err_wrong_number cmd) w

-- if !m.handleAuth(c) { return }
abbrev pub after_auth : Bool × World → (World → Outcome) → Outcome
after_auth (true, w) k = k w
after_auth (false, w) k = returned false w

unfoldable pub authed : World → (World → Outcome) → Outcome
unfolding handle_auth
authed w k = after_auth (handle_auth w) k

-- withTx with a callback on the selected database
abbrev pub run_in : Host → DbCmd → World → Outcome
run_in h cmd = with_tx h (on_selected cmd)

-- handleAuth, and then withTx
abbrev pub run_auth : Host → DbCmd → World → Outcome
run_auth h cmd w = authed w (run_in h cmd)

-- n, err := strconv.Atoi(s), with the message for an error
abbrev pub with_int : Option ℤ → String → World → (ℤ → World → Outcome) → Outcome
with_int none msg w k = refuse msg w
with_int (some n) msg w k = k n w

-- The MATCH and COUNT options of SCAN and SSCAN: the last pattern, or the message of the error.
pub data ScanOptions : Type 0 where
  options : Option String → ScanOptions
  bad_options : String → ScanOptions

unfoldable pub scan_options : List String → Option String → ScanOptions
scan_options [] match = options match
scan_options (opt ∷ []) match = bad_options msg_syntax_error
scan_options (opt ∷ arg ∷ args) match =
    let is_count = to_lower opt == "count" in
    let rest = scan_options args (if is_count then match else some arg) in
    if is_count
    then elim (atoi arg) [ none ↦ bad_options msg_invalid_int | some n ↦ rest ]
    else if to_lower opt == "match"
    then rest
    else bad_options msg_syntax_error

abbrev pub with_options : ScanOptions → World → (Option String → World → Outcome) → Outcome
with_options (options match) w k = k match w
with_options (bad_options msg) w k = refuse msg w

-- The cursor and the options, behind the check of the password.
unfoldable pub scan_args :
    String → List String → World → (ℤ → Option String → World → Outcome) → Outcome
unfolding scan_options
scan_args cursor args w k =
    with_int (atoi cursor) msg_invalid_cursor w
      (λ n w'. with_options (scan_options args none) w' (k n))
