-- ===== src/Server/System.antt =====
-- The server with all its connections: what the goroutines of `serve` in server/server.go do to the shared state, one
-- callback after the other, as the lock of RediQueue orders them; and the loop of `blocking` in redis.go.
use rediqueue.Base.{
  ℕ, ◌≡◌, ◌≢◌, String, true, false, List, [], ◌∷◌, Option, none, some, nat_beq, if◌then◌else◌,
}
use rediqueue.Base.Int.{ℤ, pos}
use rediqueue.Base.Dict.{empty}
use rediqueue.Reply.{null}
use rediqueue.Cmd.Sets.{Draws}
use rediqueue.Session.{World, RediQueue, Peer, BlockCmd, write}
use rediqueue.Session.Run.{Env, Host, Outcome, returned, waiting, panic, try_block, after_try}
use rediqueue.Server.{dispatch}

-- What the goroutine of a connection is at: the loop of servePeer, or a command that waits with its timeout.
pub data Activity : Type 0 where
  reading : Activity
  blocked_in : BlockCmd → ℤ → Activity

pub record Client : Type 0 where
  pub peer : Peer
  pub activity : Activity

-- The connections are numbered.
pub record System : Type 0 where
  pub queue : RediQueue
  pub clients : ℕ → Client
  pub info_cmds : ℕ

-- What the goroutine of a connection sees.
abbrev pub seen : System → ℕ → World
seen s i = record { queue = s.queue; peer = (s.clients i).peer; info_cmds = s.info_cmds }

abbrev pub with_client : System → ℕ → Client → System
with_client s i c = record s { clients = λ j. if nat_beq i j then c else s.clients j }

abbrev pub put_world : System → ℕ → Activity → World → System
put_world s i activity w =
    with_client (record s { queue = w.queue; info_cmds = w.info_cmds }) i
      (record { peer = w.peer; activity = activity })

-- The system behind an outcome; `none` where the process has panicked.
unfoldable pub settle : System → ℕ → Outcome → Option System
settle s i (returned broadcast w) = some (put_world s i reading w)
settle s i (waiting cmd timeout w) = some (put_world s i (blocked_in cmd timeout) w)
settle s i panic = none

-- Another round of the loop of `blocking`, behind a wake-up.
unfoldable pub wake : BlockCmd → ℤ → World → Outcome
unfolding try_block
wake cmd timeout w = after_try cmd timeout (try_block cmd w)

-- The timeout of the loop: onTimeout, and a broadcast.
unfoldable pub expire : World → Outcome
expire w = returned true (write (null ∷ []) w)

-- A server without connections, as NewRediQueue and Start make it.
unfoldable pub new_system : String → System
new_system password = record {
  queue = record { password = password; dbs = empty; selected_db = pos 0 };
  clients =
      λ i. record { peer = record { out = []; closed = false; ctx = none }; activity = reading };
  info_cmds = 0;
}

abbrev pub host_of : Env → (ℕ → Draws) → Host
host_of e draws = record { env = e; draws = draws }

-- What the goroutine sees once the reply is delivered, and on a new connection.
abbrev pub delivered : System → ℕ → World
delivered s i = record (seen s i) { peer = record (s.clients i).peer { out = [] } }

abbrev pub joined : System → ℕ → World
joined s i = record (seen s i) { peer = record { out = []; closed = false; ctx = none } }

-- A step of a connection, with requests that `P` admits: a request, a wake-up, a timeout, which a duration of 0 does not
-- have, the sending of what was written, and a new connection in the place of one that is gone.
pub data Step (e : Env) (P : List String → Type 0) : System → System → Type 0 where
  requested :
      (s s' : System) (i : ℕ) (draws : ℕ → Draws) (args : List String)
      → (s.clients i).activity ≡ reading
      → P args
      → settle s i (dispatch (host_of e draws) args (seen s i)) ≡ some s'
      → Step e P s s'
  woken :
      (s s' : System) (i : ℕ) (cmd : BlockCmd) (timeout : ℤ)
      → (s.clients i).activity ≡ blocked_in cmd timeout
      → settle s i (wake cmd timeout (seen s i)) ≡ some s'
      → Step e P s s'
  expired :
      (s s' : System) (i : ℕ) (cmd : BlockCmd) (timeout : ℤ)
      → (s.clients i).activity ≡ blocked_in cmd timeout
      → timeout ≢ pos 0
      → settle s i (expire (seen s i)) ≡ some s'
      → Step e P s s'
  flushed : (s : System) (i : ℕ) → Step e P s (put_world s i (s.clients i).activity (delivered s i))
  accepted : (s : System) (i : ℕ) → Step e P s (put_world s i reading (joined s i))

-- Any number of steps.
pub data Reach (e : Env) (P : List String → Type 0) : System → System → Type 0 where
  here : (s : System) → Reach e P s s
  then : (s t u : System) → Reach e P s t → Step e P t u → Reach e P s u
