-- ===== src/Lib.antt =====
-- rediqueue: a small Redis server in Go, with lists, sets, transactions and blocking pops, held in memory.
--
-- A request comes in as an array of texts (server/proto.go), `dispatch` of server/server.go finds the command's
-- handler in the table that `start` of rediqueue.go has filled, and the handler checks its arguments and the
-- login, and gives a callback to `withTx` or `blocking` of redis.go. The callback runs under the server's lock
-- on the databases, or is queued until EXEC. Replies are written to the peer's buffer.
--
--   * Base: lists, texts, 64-bit integers, association lists, and tests into Bool, on the native numbers.
--   * Db (db.go, and RedisDB of rediqueue.go): the record RedisDb has the maps keys, listKeys, setKeys and
--     keyVersion; each method is a function that returns the database after it. `none` is a panic. Db/Lists and
--     Db/Sets hold the list and the set methods. Db/Keyspace is the abstract view, in which a key holds nothing,
--     a list or a set; Db/Refine and Db/RefineSets relate the methods to it.
--   * Reply: the Write methods of the peer, as values of Frame, and the messages of redis.go.
--   * Range (redisRange of redis.go) and Keys (keys.go, matchKeys).
--   * Cmd (cmd_list.go, cmd_set.go, cmd_generic.go, cmd_server.go): what each command's callback does to a
--     database and writes. Cmd/ListSpec, Cmd/SetSpec, Cmd/Spop and Cmd/KeysSpec say what commands promise over the
--     abstract view; Db/Moves has MOVE, from one database to another.
--   * Session (rediqueue.go): connCtx, Peer and RediQueue; Session/Run runs callbacks on them and has withTx and
--     blocking. A callback, a closure in the source, is a value of TxCmd that holds what it captures.
--   * Handlers (cmd_*.go): the functions cmdX up to the call of withTx or blocking.
--   * Server (server/server.go, server/proto.go): the table, Register and dispatch; Server/Proto reads requests
--     from bytes and Server/Wire writes replies to them; Server/Serve is the loop of servePeer over the bytes of
--     one connection; Server/System has any number of connections on one server, as a relation of steps, with
--     the loop of blocking (redis.go): what a wake-up and the timeout do to a command that waits.
--     Server/Peers has the connections that `serve` counts.
--   * Direct (direct.go): the methods for Go code in the same process; Direct/Selected has those of RediQueue.
--   * Dump (rediqueue.go): the selected database as a text.
--   * Handlers/Rules: what is to be shown of a handler's few ways to end, for it to hold of every handler; Guard
--     and Sound are two cases of it.
--   * Sound: callback by callback, then handler by handler, that a valid database stays valid, nothing panics and
--     one reply is written; Sound/Reach takes it to every state that the steps of Server/System reach.
--   * Guard and Exec: what holds of every request without a login and in a transaction, of WATCH and EXEC, and
--     (Exec/Wakes) of a push that another connection waits for. Cmd/Waits is what BLPOP and BRPOP promise in one try.
--   * Tests: runs on small inputs.
--
-- The native numbers have no bound; `int` is ℤ with its wrap-around at 64 bits written out (Base/Int), and a
-- key's version wraps around at 2 ^ 64. Loops are structural recursion over lists and over counts; SPOP and
-- SRANDMEMBER recurse on the count that their loops count down. The loop of servePeer takes a number of rounds as
-- its fuel: each round reads a byte at least, so one more than the bytes of the input is enough (Server/Serve/Fuel).
--
-- Parameters, since they are not this repository's code: the expressions of package regexp, the order in which
-- Go goes through a map, the numbers of package math/rand (the records Env and Host), and the verb %q of package fmt
-- (the argument `quote` of Dump).
--
-- Not modelled: the listener, sockets and goroutines themselves (a callback is one atomic step, as under the lock,
-- and a wake-up may come at any time), the allocation of the length that a bulk string announces, and the
-- sum of that length and 2, which wraps around at the two greatest of `int` (proto.go:75),
-- the case of characters outside ASCII in strings.ToUpper and strings.ToLower (texts are bytes here), the random order
-- in which EXEC goes through the watched keys (only which empty databases are made can depend on it),
-- Load and Save (encoding/gob), the getters of addresses, SetTime and formatFloat, which nothing uses, and the test
-- helpers.
pub mod Base
pub mod Db
pub mod Reply
pub mod Range
pub mod Keys
pub mod Cmd
pub mod Session
pub mod Sound
pub mod Handlers
pub mod Server
pub mod Direct
pub mod Dump
pub mod Guard
pub mod Exec
pub mod Tests
