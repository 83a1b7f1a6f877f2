-- ===== src/Reply.antt =====
-- The `Write…` methods of `Peer` in server/server.go, and the messages of redis.go and direct.go.
-- A reply is the list of the calls, in order.
use Prim.Native.String.{◌++◌ as str_append}
use rediqueue.Base.{String}
use rediqueue.Base.Int.{ℤ}
use rediqueue.Base.Text.{to_lower}

pub data Frame : Type 0 where
  error inline bulk : String → Frame
  null : Frame
  array int : ℤ → Frame

-- WriteOK
abbrev pub ok : Frame
ok = inline "OK"

abbrev pub msg_wrong_type : String
msg_wrong_type = "WRONGTYPE Operation against a key holding the wrong kind of value"

abbrev pub msg_invalid_int : String
msg_invalid_int = "ERR value is not an integer or out of range"

abbrev pub msg_invalid_timeout : String
msg_invalid_timeout = "ERR timeout is not an integer or out of range"

abbrev pub msg_syntax_error : String
msg_syntax_error = "ERR syntax error"

abbrev pub msg_key_not_found : String
msg_key_not_found = "ERR no such key"

abbrev pub msg_out_of_range : String
msg_out_of_range = "ERR index out of range"

abbrev pub msg_invalid_cursor : String
msg_invalid_cursor = "ERR invalid cursor"

abbrev pub msg_neg_timeout : String
msg_neg_timeout = "ERR timeout is negative"

-- errWrongNumber
unfoldable pub err_wrong_number : String → String
unfolding to_lower
err_wrong_number cmd =
    str_append "ERR wrong number of arguments for '" (str_append (to_lower cmd) "' command")

-- errUnknownCommand
unfoldable pub err_unknown_command : String → String
unfolding to_lower
err_unknown_command cmd = str_append "ERR unknown command '" (str_append (to_lower cmd) "'")
