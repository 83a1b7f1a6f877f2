-- ===== src/Tests/Wires.antt =====
-- Requests and replies as bytes, and a connection that serves them.
use rediqueue.Base.{◌≡◌, refl, String, [], ◌∷◌, ◌++◌, List, some, arith, Returns, none}
use rediqueue.Base.Text.{atoi}
use rediqueue.Reply.{bulk}
use rediqueue.Server.System.{seen, new_system}
use rediqueue.Server.Proto.{Bytes, read_string, read_array}
use rediqueue.Server.Wire.{bytes, wire}
use rediqueue.Server.RoundTrip.{request_bytes, Sendable, read_string-wire, read_array-request_bytes}
use rediqueue.Server.Serve.{Hosts, Conn, serve_peer}
use rediqueue.Server.Serve.Fuel.{serve_peer-Returns}
use rediqueue.Server.Serve.Pipeline.{
  requests_bytes, answer_all, closing, later_by, serve_peer-requests_bytes,
}

abbrev hosts : Hosts
hosts i = record {
  env = record { compile = λ source. none; range = λ keys. keys };
  draws = λ j k. j;
}

-- A push of a text with the end of a line in it, and the quit.
abbrev push : List String
push = "RPUSH" ∷ "l" ∷ "a\r\nb" ∷ []

abbrev quit : List String
quit = "QUIT" ∷ []

push_written :
    read_array (bytes "*3\r\n$5\r\nRPUSH\r\n$1\r\nl\r\n$4\r\na\r\nb\r\n*1")
    ≡ some (push, bytes "*1")
unfolding read_array atoi
push_written = refl

push-Sendable : Sendable push
unfolding Sendable
push-Sendable = (ground arith, (ground arith, (ground arith, (ground arith, tt))))

quit-Sendable : Sendable quit
unfolding Sendable
quit-Sendable = (ground arith, (ground arith, tt))

read_string-wire_example :
    read_string (wire (bulk "a\r\nb") ++ bytes ":1") ≡ some ("a\r\nb", bytes ":1")
read_string-wire_example = read_string-wire (bulk "a\r\nb") (bytes ":1") (ground arith)

read_array-request_bytes_example :
    read_array (request_bytes push ++ bytes "*1") ≡ some (push, bytes "*1")
read_array-request_bytes_example = read_array-request_bytes push (bytes "*1") push-Sendable

abbrev conn : Bytes → Conn
conn rd = record { rd = rd; sent = []; world = seen (new_system "") 0 }

serve_peer-Returns_example : Returns (serve_peer 9 hosts (conn (bytes "*1\r\n$4\r"))) (λ e. Unit)
serve_peer-Returns_example = serve_peer-Returns 9 hosts (conn (bytes "*1\r\n$4\r")) (ground arith)

abbrev both : Bytes
both = requests_bytes (push ∷ quit ∷ []) (bytes "more")

serve_peer-requests_bytes_example :
    serve_peer 3 hosts (conn both)
    ≡ closing
        (answer_all hosts (push ∷ quit ∷ []) (conn both).world)
        []
        (bytes "more")
        (serve_peer 1 (later_by 2 hosts))
serve_peer-requests_bytes_example =
    serve_peer-requests_bytes 1 hosts (push ∷ quit ∷ []) (bytes "more") (conn both)
      (push-Sendable, (quit-Sendable, tt)) refl
