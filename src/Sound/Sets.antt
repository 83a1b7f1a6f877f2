-- ===== src/Sound/Sets.antt =====
-- The callbacks of cmd_set.go for one set or two keep a valid database valid and write one reply each.
use rediqueue.Base.{
  ℕ, ◌≡◌, refl, ap, ◌∙◌, String, true, false, List, [], ◌∷◌, Option, none, some, arith, string_eq,
  Returns, Returns-bind, Returns-map, ◌==◌, ◌>>=◌, not,
}
use rediqueue.Base.Int.{pos, int_eq}
use rediqueue.Reply.{Frame, int}
use rediqueue.Db.{RedisDb, SetKey, exists, t}
use rediqueue.Db.Keyspace.{Value, list, set, Keyspace, Represents, tag_of, list_part, set_part}
use rediqueue.Db.RefineSets.{put_set, set_add-Represents, set_rem-Represents}
use rediqueue.Db.Sets.{set_add, set_rem, set_members, set_is_member, is_foreign}
use rediqueue.Cmd.Framing.{owed, IsReply}
use rediqueue.Cmd.Lists.{reply}
use rediqueue.Cmd.Sets.{sadd, scard, sismember, smembers, smove, srem}
use rediqueue.Sound.{
  Full, Valid, Sound, reply-Sound, Full-remove, Full-put-set, write_all-Sound, if-Sound,
}

Full-put_set_or_remove : (ks : Keyspace) (k : String) (s : SetKey) → Full ks → Full (put_set ks k s)
Full-put_set_or_remove ks k [] full = Full-remove ks k full
Full-put_set_or_remove ks k (e ∷ s) full = Full-put-set ks k (e ∷ s) full

-- The test of the type, on the view.
is_foreign-at :
    (db : RedisDb) (ks : Keyspace) (k : String) (o : Option Value)
    → Represents db ks
    → ks k ≡ o
    → is_foreign db k ≡ false
    → list_part o ≡ none
unfolding exists t
is_foreign-at db ks k none r e own = refl
is_foreign-at db ks k (some (set s)) r e own = refl
is_foreign-at db ks k (some (list l)) r e own =
    let wrong : true ≡ false = rw (r.tags k ∙ ap tag_of e) at own in cc

-- What is left is valid, and holds no list where there was none.
abbrev Kept : Keyspace → RedisDb × ℕ → Type 0
Kept ks p =
    (js : Keyspace) × Represents p.0 js
    × Full js
    × ((j : String) → list_part (ks j) ≡ none → list_part (js j) ≡ none)

-- `setRem` at a key of any kind.
set_rem-at :
    (db : RedisDb) (ks : Keyspace) (k : String) (fields : List String) (o : Option Value)
    → Represents db ks
    → Full ks
    → ks k ≡ o
    → Returns (set_rem db k fields) (Kept ks)
unfolding set_rem
set_rem-at db ks k fields none r full e =
    rw (r.sets k ∙ ap set_part e, set_rem) (ks, r, full, (λ j h. h))
set_rem-at db ks k fields (some (list l)) r full e =
    rw (r.sets k ∙ ap set_part e, set_rem) (ks, r, full, (λ j h. h))
set_rem-at db ks k fields (some (set s)) r full e =
    Returns-map _ (Kept ks) _
      (λ p q.
        (put_set ks k q.0, q.1, Full-put_set_or_remove ks k q.0 full, put_set-list_part ks k q.0))
      (set_rem-Represents db ks k r fields e)
  where
    put_set-list_part :
        (ks : Keyspace) (k : String) (s : SetKey) (j : String)
        → list_part (ks j) ≡ none
        → list_part (put_set ks k s j) ≡ none
    put_set-list_part ks k [] j e = ground arith
    put_set-list_part ks k (x ∷ s) j e = ground arith

pub set_rem-Valid :
    (db : RedisDb) (k : String) (fields : List String)
    → Valid db
    → Returns (set_rem db k fields) (λ p. Valid p.0)
unfolding Valid
set_rem-Valid db k fields (ks, r, full) =
    Returns-map _ (λ p. Valid p.0) _ (λ p q. (q.0, q.1, q.2))
      (set_rem-at db ks k fields (ks k) r full refl)

set_add-Valid :
    (db : RedisDb) (ks : Keyspace) (k : String) (elems : List String)
    → Represents db ks
    → Full ks
    → list_part (ks k) ≡ none
    → Valid (set_add db k elems).0
unfolding Valid
set_add-Valid db ks k elems r full e =
    (_, (set_add-Represents db ks k r elems e).1, Full-put-set ks k _ full)

pub sadd-Sound :
    (key : String) (elems : List String) (db : RedisDb) → Valid db → Sound (sadd key elems db)
unfolding sadd owed Valid
sadd-Sound key elems db (ks, r, full) =
    if-Sound (is_foreign db key) _ _ (λ other. reply-Sound db _ refl (ks, r, full))
      (λ own.
        reply-Sound _ _ refl
          (set_add-Valid db ks key elems r full (is_foreign-at db ks key (ks key) r refl own)))

pub scard-Sound : (key : String) (db : RedisDb) → Valid db → Sound (scard key db)
unfolding scard owed
scard-Sound key db v =
    if-Sound (not (exists db key)) _ _ (λ e. reply-Sound db _ refl v)
      (λ e.
        if-Sound (not (t db key == "set")) _ _ (λ e. reply-Sound db _ refl v)
          (λ e. reply-Sound db _ refl v))

pub sismember-Sound :
    (key value : String) (db : RedisDb) → Valid db → Sound (sismember key value db)
unfolding sismember owed
sismember-Sound key value db v =
    if-Sound (not (exists db key)) _ _ (λ e. reply-Sound db _ refl v)
      (λ e.
        if-Sound (not (t db key == "set")) _ _ (λ e. reply-Sound db _ refl v)
          (λ e.
            if-Sound (set_is_member db key value) _ _ (λ e. reply-Sound db _ refl v)
              (λ e. reply-Sound db _ refl v)))

pub smembers-Sound : (key : String) (db : RedisDb) → Valid db → Sound (smembers key db)
unfolding smembers owed
smembers-Sound key db v =
    if-Sound (not (exists db key)) _ _ (λ e. reply-Sound db _ refl v)
      (λ e.
        if-Sound (not (t db key == "set")) _ _ (λ e. reply-Sound db _ refl v)
          (λ e. write_all-Sound db (set_members db key) v))

removed-Sound :
    (key : String) (fields : List String) (db : RedisDb)
    → Valid db
    → Sound (do (db', removed) ← set_rem db key fields; reply db' (int (pos removed)))
unfolding Sound owed
removed-Sound key fields db v =
    Returns-bind (λ p. Valid p.0) (λ res. Valid res.0 × IsReply res.1) _ _
      (set_rem-Valid db key fields v) (λ p w. (w, refl))

pub srem-Sound :
    (key : String) (fields : List String) (db : RedisDb) → Valid db → Sound (srem key fields db)
unfolding srem owed
srem-Sound key fields db v =
    if-Sound (not (exists db key)) _ _ (λ e. reply-Sound db _ refl v)
      (λ e.
        if-Sound (not (t db key == "set")) _ _ (λ e. reply-Sound db _ refl v)
          (λ e. removed-Sound key fields db v))

moved-Sound :
    (src dst elem : String) (db : RedisDb) (ks : Keyspace)
    → Represents db ks
    → Full ks
    → list_part (ks dst) ≡ none
    → Sound (do
      (db', removed) ← set_rem db src (elem ∷ [])
      reply (set_add db' dst (elem ∷ [])).0 (int (pos 1)))
unfolding Sound owed
moved-Sound src dst elem db ks r full e =
    Returns-bind {B = RedisDb × List Frame} (Kept ks) (λ res. Valid res.0 × IsReply res.1) _ _
      (set_rem-at db ks src (elem ∷ []) (ks src) r full refl)
      (λ p (js, q, whole, keeps).
        (set_add-Valid p.0 js dst (elem ∷ []) q whole (keeps dst e), refl))

pub smove-Sound : (src dst elem : String) (db : RedisDb) → Valid db → Sound (smove src dst elem db)
unfolding smove owed Valid
smove-Sound src dst elem db (ks, r, full) =
    let v : Valid db = (ks, r, full) in
    if-Sound (not (exists db src)) _ _ (λ e. reply-Sound db _ refl v)
      (λ e.
        if-Sound (not (t db src == "set")) _ _ (λ e. reply-Sound db _ refl v)
          (λ e.
            if-Sound (is_foreign db dst) _ _ (λ e. reply-Sound db _ refl v)
              (λ own.
                if-Sound (not (set_is_member db src elem)) _ _ (λ e. reply-Sound db _ refl v)
                  (λ e.
                    moved-Sound src dst elem db ks r full
                      (is_foreign-at db ks dst (ks dst) r refl own)))))
