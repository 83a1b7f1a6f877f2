-- ===== src/Sound/Move.antt =====
-- `move` of db.go between two databases keeps both valid.
use rediqueue.Base.{◌≢◌, String, Option, none, some, ap, Returns, Returns-map, []}
use rediqueue.Db.{RedisDb, move}
use rediqueue.Db.Keyspace.{Value, list, Keyspace}
use rediqueue.Db.Moves.{Moves, move_at, move-Moves}
use rediqueue.Sound.{Full, Valid, Full-remove, Full-put_value}

move_at-Full :
    (ks js : Keyspace) (key : String) (o p : Option Value)
    → o ≢ some (list [])
    → Full ks
    → Full js
    → Full (move_at ks js key o p).0 × Full (move_at ks js key o p).1
move_at-Full ks js key none none h fk fj = (fk, fj)
move_at-Full ks js key none (some u) h fk fj = (fk, fj)
move_at-Full ks js key (some v) (some u) h fk fj = (fk, fj)
move_at-Full ks js key (some v) none h fk fj =
    (Full-remove ks key fk, Full-put_value js key v (λ e. h (ap some e)) fj)

pub move-Valid :
    (db to : RedisDb) (key : String)
    → Valid db
    → Valid to
    → Returns (move db key to) (λ p. Valid p.0 × Valid p.1)
unfolding Valid
move-Valid db to key (ks, r, fk) (js, s, fj) =
    let full = move_at-Full ks js key (ks key) (js key) (fk key) fk fj in
    Returns-map (Moves (move_at ks js key (ks key) (js key))) (λ p. Valid p.0 × Valid p.1) _
      (λ p q. ((_, q.0, full.0), (_, q.1, full.1))) (move-Moves db to ks js key r s)
