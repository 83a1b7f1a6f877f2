-- ===== src/Tests/Dumps.antt =====
-- Dump, the methods on the selected database and the counters of connections on small inputs.
use rediqueue.Base.{◌≡◌, refl, [], ◌∷◌, Option, some, Bool, true, false, ◌>>=◌}
use rediqueue.Base.Int.{ℤ, pos}
use rediqueue.Base.Dict.{lookup, insert, delete}
use rediqueue.Base.Decimal.{decimal}
use rediqueue.Db.{all_keys, t, exists}
use rediqueue.Db.Lists.{list_push}
use rediqueue.Db.Sets.{set_members}
use rediqueue.Session.{RediQueue, db_of, put_db}
use rediqueue.Direct.{direct_select, direct_push, on_direct}
use rediqueue.Direct.Selected.{selected_push, selected_exists}
use rediqueue.Dump.{dump, dump_keys, dump_key, dump_values, dump_value}
use rediqueue.Server.Peers.{
  Connections, no_connections, accept_conn, leave_conn, clients_len, total_connections,
}
use rediqueue.Tests.Dbs.{two_keys}

abbrev queue : RediQueue
queue = record { password = ""; dbs = (pos 0, two_keys) ∷ []; selected_db = pos 0 }

dumped : (dump (λ s. s) queue).1 ≡ "- l\n   a\n   b\n   a\n- s\n   x\n"
unfolding dump dump_keys dump_key dump_values dump_value db_of put_db all_keys t set_members lookup
    insert
dumped = refl

-- 61 bytes: the suffix has 7 of the 60.
cut :
    dump_value (λ s. s) "0123456789012345678901234567890123456789012345678901234567890"
    ≡ "01234567890123456789012345678901234567890123456789012...(61)"
unfolding dump_value decimal
cut = refl

abbrev one_of_two : Connections
one_of_two = leave_conn 4 (accept_conn 5 (accept_conn 4 no_connections))

counted : (total_connections one_of_two ≡ 2) × (clients_len one_of_two ≡ 1)
unfolding accept_conn leave_conn insert delete
counted = (refl, refl)

-- A push goes to the selected database, and is seen from there alone.
abbrev seen_in : ℤ → Option Bool
seen_in i =
    selected_push "m" ("a" ∷ []) (direct_select (pos 3) queue)
    >>= (λ p. selected_exists "m" (direct_select i p.0) >>= (λ q. some q.1))

selected : (seen_in (pos 3) ≡ some true) × (seen_in (pos 0) ≡ some false)
unfolding selected_push selected_exists on_direct direct_push db_of put_db list_push exists lookup
    insert t
selected = (refl, refl)
