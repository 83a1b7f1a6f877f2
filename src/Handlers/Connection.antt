-- ===== src/Handlers/Connection.antt =====
-- The handlers of cmd_connection.go.
use rediqueue.Base.{true, false, [], ◌∷◌, get_or, not, ◌==◌, string_eq, if◌then◌else◌}
use rediqueue.Base.Int.{pos}
use rediqueue.Base.Text.{atoi}
use rediqueue.Reply.{error, inline, bulk, ok}
use rediqueue.Session.{write, get_ctx, put_ctx, set_authenticated}
use rediqueue.Session.Run.{returned}
use rediqueue.Handlers.{Handler, refuse, wrong_number, authed}

unfoldable pub cmd_ping : Handler
unfolding authed
cmd_ping h cmd args w = authed w (λ w'. returned false (write (inline "PONG" ∷ []) w'))

unfoldable pub cmd_auth : Handler
unfolding refuse
cmd_auth h cmd (pw ∷ []) w =
    if w.queue.password == ""
    then returned false (write (error "ERR Client sent AUTH, but no password is set" ∷ []) w)
    else if not (w.queue.password == pw)
    then returned false (write (error "ERR invalid password" ∷ []) w)
    else returned false (write (ok ∷ []) (set_authenticated w))
cmd_auth h cmd _ w = wrong_number cmd w

unfoldable pub cmd_echo : Handler
unfolding refuse authed
cmd_echo h cmd (msg ∷ []) w = authed w (λ w'. returned false (write (bulk msg ∷ []) w'))
cmd_echo h cmd _ w = wrong_number cmd w

-- What is no number selects the database 0.
unfoldable pub cmd_select : Handler
unfolding refuse authed
cmd_select h cmd (id ∷ []) w = authed w (λ w'.
    returned false (
      write (ok ∷ [])
        (put_ctx w' (record (get_ctx w') { selected_db = get_or (atoi id) (pos 0) }))))
cmd_select h cmd _ w = wrong_number cmd w

unfoldable pub cmd_quit : Handler
cmd_quit h cmd args w =
    let w' = write (ok ∷ []) w in
    returned false (record w' { peer = record w'.peer { closed = true } })
