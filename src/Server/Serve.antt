-- ===== src/Server/Serve.antt =====
-- servePeer of server/server.go: the requests of one connection, read, dispatched and answered in their order.
-- The listener, the goroutines and the other connections are outside: a request that waits for them ends the run here.
pub mod Fuel
pub mod Pipeline
use rediqueue.Base.{
  ℕ, zero, suc, String, Bool, true, false, List, [], ◌∷◌, ◌++◌, Option, none, some, if◌then◌else◌,
}
use rediqueue.Base.Int.{ℤ}
use rediqueue.Session.{World, BlockCmd}
use rediqueue.Session.Run.{Host, Outcome, returned, waiting, panic}
use rediqueue.Server.{dispatch}
use rediqueue.Server.Proto.{Bytes, read_array}
use rediqueue.Server.Wire.{wire_all}

-- The host of the i-th request of the connection.
abbrev pub Hosts : Type 0
Hosts = ℕ → Host

abbrev pub later : Hosts → Hosts
later hs i = hs (suc i)

-- How the loop ends: on an error of `readArray`, on a closed peer, in a command that waits, or in a panic.
pub data Stop : Type 0 where
  hung_up closed_peer panicked : Stop
  blocked : BlockCmd → ℤ → Stop

-- The connection: what the client has sent and is not read yet, what was sent to it, and the state behind.
pub record Conn : Type 0 where
  pub rd : Bytes
  pub sent : Bytes
  pub world : World

-- cl.w.Flush(): what was written is sent.
unfoldable pub flush_peer : Bytes → Bytes → World → Conn
unfolding wire_all
flush_peer rest sent w = record {
  rd = rest;
  sent = sent ++ wire_all w.peer.out;
  world = record w { peer = record w.peer { out = [] } };
}

-- The rest of the loop's body after `dispatch`, and `k` for the loop's next round.
unfoldable pub after_dispatch :
    Outcome → Conn → (Conn → Option (Conn × Stop)) → Option (Conn × Stop)
unfolding flush_peer
after_dispatch (returned broadcast w) c k =
    if w.peer.closed
    then some (flush_peer c.rd c.sent w, closed_peer)
    else k (flush_peer c.rd c.sent w)
after_dispatch (waiting cmd timeout w) c k = some (record c { world = w }, blocked cmd timeout)
after_dispatch panic c k = some (c, panicked)

-- What is read, and the rest of the body.
abbrev pub after_read :
    Host
    → Option (List String × Bytes)
    → Conn
    → (Conn → Option (Conn × Stop))
    → Option (Conn × Stop)
after_read h none c k = some (c, hung_up)
after_read h (some (args, rest)) c k =
    after_dispatch (dispatch h args c.world) (record c { rd = rest }) k

-- The loop, for a number of rounds at most; `none` is a loop that is not at its end.
unfoldable pub serve_peer : ℕ → Hosts → Conn → Option (Conn × Stop)
unfolding after_dispatch
serve_peer zero hs c = none
serve_peer (suc n) hs c = after_read (hs 0) (read_array c.rd) c (serve_peer n (later hs))
