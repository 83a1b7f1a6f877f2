-- ===== src/Server/Serve/Pipeline.antt =====
-- Requests that are sent one after the other, without a wait for the replies.
use mathlib.Core.List.{append-nil, append_assoc}
use rediqueue.Base.{
  ℕ, zero, suc, ◌+◌, ◌≡◌, refl, ap, sym, ◌∙◌, String, Bool, true, false, List, [], ◌∷◌, ◌++◌,
  Option, none, some, length, All, if◌then◌else◌, arith,
}
use rediqueue.Reply.{Frame}
use rediqueue.Session.{World}
use rediqueue.Session.Run.{Outcome, returned, waiting, panic}
use rediqueue.Server.{dispatch}
use rediqueue.Server.Proto.{Bytes, read_array}
use rediqueue.Server.RoundTrip.{request_bytes, Sendable, read_array-request_bytes}
use rediqueue.Server.Wire.{wire, wire_all}
use rediqueue.Server.Serve.{
  Hosts, later, Stop, closed_peer, panicked, blocked, Conn, flush_peer, after_dispatch, after_read,
  serve_peer,
}

-- The bytes of some requests, and what follows them.
unfoldable pub requests_bytes : List (List String) → Bytes → Bytes
unfolding request_bytes
requests_bytes [] rest = rest
requests_bytes (args ∷ reqs) rest = request_bytes args ++ requests_bytes reqs rest

-- What comes of some requests, with no bytes: the replies that are delivered, in their order, the state behind, the
-- requests that are not looked at, and why, if there is a reason.
pub record Exchange : Type 0 where
  pub replies : List Frame
  pub world : World
  pub unread : List (List String)
  pub stop : Option Stop

-- A world whose replies are delivered.
abbrev pub emptied : World → World
emptied w = record w { peer = record w.peer { out = [] } }

abbrev pub prefixed : List Frame → Exchange → Exchange
prefixed fs s = record s { replies = fs ++ s.replies }

-- The replies of a request are delivered when it is done; a peer that is closed then is served no more. A request that
-- waits or panics delivers nothing.
abbrev pub answered : Outcome → World → List (List String) → (World → Exchange) → Exchange
answered (returned broadcast w) before reqs next =
    if w.peer.closed
    then record { replies = w.peer.out; world = emptied w; unread = reqs; stop = some closed_peer }
    else prefixed w.peer.out (next (emptied w))
answered (waiting cmd timeout w) before reqs next = record {
  replies = [];
  world = w;
  unread = reqs;
  stop = some (blocked cmd timeout);
}
answered panic before reqs next = record {
  replies = [];
  world = before;
  unread = reqs;
  stop = some panicked;
}

-- The requests given to `dispatch` one by one.
unfoldable pub answer_all : Hosts → List (List String) → World → Exchange
answer_all hs [] w = record { replies = []; world = w; unread = []; stop = none }
answer_all hs (args ∷ reqs) w =
    answered (dispatch (hs 0) args w) w reqs (answer_all (later hs) reqs)

-- The hosts behind some requests.
abbrev pub later_by : ℕ → Hosts → Hosts
later_by zero hs = hs
later_by (suc n) hs = later_by n (later hs)

-- The connection behind an exchange: the replies are sent behind what was sent, and the requests that are not looked at are
-- still to be read.
abbrev pub conn_of : Exchange → Bytes → Bytes → Conn
conn_of s sent rest = record {
  rd = requests_bytes s.unread rest;
  sent = sent ++ wire_all s.replies;
  world = s.world;
}

-- An exchange that has stopped ends the connection; behind another one `k` goes on.
abbrev pub ended : Option Stop → Conn → (Conn → Option (Conn × Stop)) → Option (Conn × Stop)
ended none c k = k c
ended (some stop) c k = some (c, stop)

abbrev pub closing : Exchange → Bytes → Bytes → (Conn → Option (Conn × Stop)) → Option (Conn × Stop)
closing s sent rest k = ended s.stop (conn_of s sent rest) k

wire_all-append : (fs gs : List Frame) → wire_all fs ++ wire_all gs ≡ wire_all (fs ++ gs)
unfolding wire_all
wire_all-append [] gs = refl
wire_all-append (f ∷ fs) gs =
    append_assoc (wire f) (wire_all fs) (wire_all gs)
    ∙ ap (λ b. wire f ++ b) (wire_all-append fs gs)

-- The replies of one request more.
closing-prefixed :
    (fs : List Frame) (s : Exchange) (sent rest : Bytes) (k : Conn → Option (Conn × Stop))
    → closing s (sent ++ wire_all fs) rest k ≡ closing (prefixed fs s) sent rest k
closing-prefixed fs s sent rest k =
    ap
      (λ b.
        ended s.stop (record { rd = requests_bytes s.unread rest; sent = b; world = s.world }) k)
      (append_assoc sent (wire_all fs) (wire_all s.replies)
        ∙ ap (λ b. sent ++ b) (wire_all-append fs s.replies))

closing-if :
    (b : Bool) (s s' : Exchange) (sent rest : Bytes) (k : Conn → Option (Conn × Stop))
    (x y : Option (Conn × Stop))
    → x ≡ closing s sent rest k
    → y ≡ closing s' sent rest k
    → (if b then x else y) ≡ closing (if b then s else s') sent rest k
closing-if true s s' sent rest k x y p q = p
closing-if false s s' sent rest k x y p q = q

-- Nothing more is sent.
sent-nothing :
    (c : Conn) (rd : Bytes)
    → c.rd ≡ rd
    → c ≡ record { rd = rd; sent = c.sent ++ []; world = c.world }
sent-nothing c rd e =
    ap (λ rd. record { rd = rd; sent = c.sent; world = c.world }) e
    ∙ ap (λ b. record { rd = rd; sent = b; world = c.world }) (sym (append-nil c.sent))

-- One round of the loop, where the rounds behind it do what is described.
round-answered :
    (o : Outcome) (reqs : List (List String)) (rest : Bytes) (c : Conn) (next : World → Exchange)
    (more k : Conn → Option (Conn × Stop))
    → c.rd ≡ requests_bytes reqs rest
    → ((c' : Conn)
        → c'.rd ≡ requests_bytes reqs rest
        → more c' ≡ closing (next c'.world) c'.sent rest k)
    → after_dispatch o c more ≡ closing (answered o c.world reqs next) c.sent rest k
unfolding after_dispatch flush_peer wire_all
round-answered (returned broadcast w) reqs rest c next more k e same =
    closing-if w.peer.closed _ _ c.sent rest k _ _
      (ap (λ rd. some (flush_peer rd c.sent w, closed_peer)) e)
      (same (flush_peer c.rd c.sent w) e
        ∙ closing-prefixed w.peer.out (next (emptied w)) c.sent rest k)
round-answered (waiting cmd timeout w) reqs rest c next more k e same =
    ap (λ c. some (c, blocked cmd timeout)) (sent-nothing (record c { world = w }) _ e)
round-answered panic reqs rest c next more k e same =
    ap (λ c. some (c, panicked)) (sent-nothing c _ e)

-- The loop of a connection reads a run of requests, sent with no wait for the replies and with any bytes after them, as
-- they were sent, where the number and the lengths of the arguments of each fit an `int`, and gives them to `dispatch`
-- one by one. The replies of each are sent behind those of the ones before. Behind one that closes the peer, once its
-- replies are sent, and at one that waits or panics, the loop stops and leaves the rest unread; otherwise it goes on with
-- the bytes after the run.
pub serve_peer-requests_bytes :
    (n : ℕ) (hs : Hosts) (reqs : List (List String)) (rest : Bytes) (c : Conn)
    → All Sendable reqs
    → c.rd ≡ requests_bytes reqs rest
    → serve_peer (length reqs + n) hs c
      ≡ closing (answer_all hs reqs c.world) c.sent rest (serve_peer n (later_by (length reqs) hs))
unfolding serve_peer answer_all requests_bytes wire_all
serve_peer-requests_bytes n hs [] rest c h e =
    ap (λ m. serve_peer m hs c) (ground arith) ∙ ap (serve_peer n hs) (sent-nothing c rest e)
serve_peer-requests_bytes n hs (args ∷ reqs) rest c (h, hs') e =
    let count : suc (length reqs) + n ≡ suc (length reqs + n) = ground arith in
    let read : read_array c.rd ≡ some (args, requests_bytes reqs rest) =
      ap read_array e ∙ read_array-request_bytes args (requests_bytes reqs rest) h in
    ap (λ m. serve_peer m hs c) count
    ∙ ap (λ o. after_read (hs 0) o c (serve_peer (length reqs + n) (later hs))) read
    ∙ round-answered (dispatch (hs 0) args c.world) reqs rest
        (record c { rd = requests_bytes reqs rest }) (answer_all (later hs) reqs) _ _ refl
        (λ c' e'. serve_peer-requests_bytes n (later hs) reqs rest c' hs' e')
