-- ===== src/Server/Peers.antt =====
-- The connections that `serve` of server/server.go accepts: the map `peers` and the counter `infoConns` of type Server.
use rediqueue.Base.{ℕ, suc, ◌+◌, ◌≡◌, refl, [], ◌∷◌, none, some, length, arith, nat_eq}
use rediqueue.Base.Dict.{Dict, empty, lookup, insert, delete, lookup-insert, lookup-delete}

-- A value of net.Conn stands as a number.
pub record Connections : Type 0 where
  pub peers : Dict {0, 0} ℕ Unit
  pub info_conns : ℕ

-- NewServer
abbrev pub no_connections : Connections
no_connections = record { peers = empty; info_conns = 0 }

-- The goroutine of a connection, before servePeer.
unfoldable pub accept_conn : ℕ → Connections → Connections
accept_conn conn s = record s { peers = insert s.peers conn tt; info_conns = suc s.info_conns }

-- The same goroutine, when servePeer has returned.
unfoldable pub leave_conn : ℕ → Connections → Connections
leave_conn conn s = record s { peers = delete s.peers conn }

-- ClientsLen
abbrev pub clients_len : Connections → ℕ
clients_len s = length s.peers

-- TotalConnections
abbrev pub total_connections : Connections → ℕ
total_connections s = s.info_conns

-- What a server goes through, with the number of connections that are gone: Accept gives a value that no open connection
-- has, and servePeer returns for an open connection.
pub data Served : ℕ → Connections → Type 0 where
  started : Served 0 no_connections
  accepted :
      (n conn : ℕ) (s : Connections)
      → lookup s.peers conn ≡ none
      → Served n s
      → Served n (accept_conn conn s)
  left :
      (n conn : ℕ) (s : Connections)
      → lookup s.peers conn ≡ some tt
      → Served n s
      → Served (suc n) (leave_conn conn s)

-- Each connection is in the map once.
abbrev Once : Dict {0, 0} ℕ Unit → Type 0
Once [] = Unit
Once ((k, u) ∷ m) = (lookup m k ≡ none) × Once m

insert-Once : (m : Dict {0, 0} ℕ Unit) (k : ℕ) → Once m → Once (insert m k tt)
unfolding lookup insert
insert-Once [] k o = (refl, tt)
insert-Once ((j, u) ∷ m) k (apart, o) =
    ground (arith, nat_eq.beq_iff j k, lookup-insert m k j tt, insert-Once m k o, apart)

delete-Once : (m : Dict {0, 0} ℕ Unit) (k : ℕ) → Once m → Once (delete m k)
unfolding lookup delete
delete-Once [] k o = tt
delete-Once ((j, u) ∷ m) k (apart, o) =
    ground (arith, lookup-delete m k j, delete-Once m k o, apart)

length-insert :
    (m : Dict {0, 0} ℕ Unit) (k : ℕ) → lookup m k ≡ none → length (insert m k tt) ≡ suc (length m)
unfolding lookup insert
length-insert [] k fresh = refl
length-insert ((j, u) ∷ m) k fresh = ground (arith, length-insert m k)

delete-absent :
    (m : Dict {0, 0} ℕ Unit) (k : ℕ) → lookup m k ≡ none → length (delete m k) ≡ length m
unfolding lookup delete
delete-absent [] k gone = refl
delete-absent ((j, u) ∷ m) k gone = ground (arith, delete-absent m k)

length-delete :
    (m : Dict {0, 0} ℕ Unit) (k : ℕ)
    → Once m
    → lookup m k ≡ some tt
    → suc (length (delete m k)) ≡ length m
unfolding lookup delete
length-delete [] k o there = ground arith
length-delete ((j, u) ∷ m) k (apart, o) there =
    ground (arith, nat_eq.beq_iff j k, delete-absent m k, length-delete m k o, apart)

Served-Once : (n : ℕ) (s : Connections) → Served n s → Once s.peers
unfolding accept_conn leave_conn
Served-Once _ _ started = tt
Served-Once _ _ (accepted n conn s fresh way) = insert-Once s.peers conn (Served-Once n s way)
Served-Once _ _ (left n conn s there way) = delete-Once s.peers conn (Served-Once n s way)

-- Whatever connections come and go, in any order, TotalConnections is the connections that ClientsLen counts, with those
-- that are gone.
pub clients_len-Served :
    (n : ℕ) (s : Connections) → Served n s → clients_len s + n ≡ total_connections s
unfolding accept_conn leave_conn
clients_len-Served _ _ started = refl
clients_len-Served _ _ (accepted n conn s fresh way) =
    omega (arith, length-insert s.peers conn fresh, clients_len-Served n s way)
clients_len-Served _ _ (left n conn s there way) =
    omega
      (arith, length-delete s.peers conn (Served-Once n s way) there, clients_len-Served n s way)
