-- ===== src/Sound/Dispatch.antt =====
-- Every request keeps a sound state sound and is answered with one reply.
use rediqueue.Base.{
  refl, String, false, List, ◌∷◌, ◌++◌, Option, none, some, All-append, string_eq, suc,
}
use rediqueue.Base.Text.{to_upper}
use rediqueue.Base.Dict.{lookup}
use rediqueue.Reply.{error, err_unknown_command}
use rediqueue.Cmd.Framing.{owed}
use rediqueue.Session.{World}
use rediqueue.Session.Run.{Host}
use rediqueue.Handlers.{Handler}
use rediqueue.Server.{
  registrations, commands_list, commands_generic, commands_server, commands_set,
  commands_connection, commands_transaction, commands, call, dispatch,
}
use rediqueue.Server.Table.{Registered, Kept, Holds, register_all-Holds}
use rediqueue.Sound.Callbacks.{Ordered}
use rediqueue.Sound.Run.{Wrote}
use rediqueue.Sound.Handlers.{Sane, Answered, Answered-from, said}
use rediqueue.Sound.Safe.{Safe, risk_of, ServesAs}
use rediqueue.Sound.Registrations.{
  list-ServesAs, generic-ServesAs, server-ServesAs, set-ServesAs, connection-ServesAs,
  transaction-ServesAs,
}

-- The registrations from a group on.
abbrev from_sets : List (String × Handler)
from_sets = commands_set ++ commands_transaction

abbrev from_lists : List (String × Handler)
from_lists = commands_list ++ from_sets

abbrev from_server : List (String × Handler)
from_server = commands_server ++ from_lists

abbrev from_generic : List (String × Handler)
from_generic = commands_generic ++ from_server

commands-ServesAs : Holds ServesAs commands
unfolding commands
commands-ServesAs =
    let P = Registered ServesAs in
    let sets = All-append P commands_set commands_transaction set-ServesAs transaction-ServesAs in
    let lists = All-append P commands_list from_sets list-ServesAs sets in
    let server = All-append P commands_server from_lists server-ServesAs lists in
    let generic = All-append P commands_generic from_server generic-ServesAs server in
    register_all-Holds ServesAs registrations
      (All-append P commands_connection from_generic connection-ServesAs generic)

call-Answered :
    (o : Option Handler) (h : Host) (name : String) (args : List String) (w : World)
    → Kept ServesAs name o
    → Ordered h.env
    → Safe (risk_of name) h.env args
    → Sane h.env w
    → Answered h.env w (call o h name args w)
unfolding Sane Wrote owed
call-Answered none h name args w p o safe s =
    said h.env false (error (err_unknown_command name)) w w refl s refl
call-Answered (some f) h name args w p o safe s =
    Answered-from h.env w (record w { info_cmds = suc w.info_cmds })
      (f h name args (record w { info_cmds = suc w.info_cmds })) refl
      (p h o name args (record w { info_cmds = suc w.info_cmds }) safe s)

-- On a server whose databases are valid and for a connection whose queued commands are fit, every request with a name, known
-- or not, in whatever letter case and with whatever arguments, is answered with exactly one reply, an array counted with
-- its elements, or waits as a blocking command that has written nothing; nothing panics, and the databases are valid and
-- the queued commands fit again. `Safe` excludes what is known to panic: RENAME of a key to itself, a pattern of KEYS, SCAN
-- or SSCAN that does not compile, and SRANDMEMBER without a count or with a negative one. Each map is gone through whole.
pub dispatch-Answered :
    (h : Host) (name : String) (args : List String) (w : World)
    → Ordered h.env
    → Safe (risk_of (to_upper name)) h.env args
    → Sane h.env w
    → Answered h.env w (dispatch h (name ∷ args) w)
unfolding dispatch
dispatch-Answered h name args w =
    call-Answered (lookup commands (to_upper name)) h (to_upper name) args w
      (commands-ServesAs (to_upper name))
