-- ===== src/Exec/Watch.antt =====
-- EXEC and the versions of the watched keys.
use rediqueue.Base.{
  ℕ, ◌+◌, ◌≡◌, ◌↔◌, refl, ap, ◌∙◌, Bool, true, false, Bool-cases, String, List, [], ◌∷◌, ◌++◌, none,
  some, inl, inr, ◌==◌, string_eq, length, ◌^◌, ltb, ◌<◌, arith, All,
}
use rediqueue.Base.Int.{ℤ, pos, int_eq}
use rediqueue.Base.Dict.{Dict, lookup, lookup-insert, lookup-cons}
use rediqueue.Reply.{array}
use rediqueue.Db.{RedisDb, version}
use rediqueue.Session.{
  World, RediQueue, DbKey, key_eq, TxCmd, db_of, put_db, get_ctx, put_ctx, handle_auth,
}
use rediqueue.Session.Run.{Host, Outcome, returned, waiting, panic}
use rediqueue.Cmd.Lists.{LeftRight, push_each}
use rediqueue.Cmd.Versions.{push_each-version}
use rediqueue.Handlers.{authed}
use rediqueue.Handlers.Transactions.{touch_db, touch_watched, watch_failed, cmd_exec}

touch_db-db_of : (m : RediQueue) (key : DbKey) (i : ℤ) → db_of (touch_db m key) i ≡ db_of m i
unfolding db_of put_db
touch_db-db_of m key i = elim (Bool-cases (key.db == i)) [
  | inl same ↦
      rw (lookup-insert m.dbs key.db i (db_of m key.db), same)
        (ap (db_of m) ((int_eq.beq_iff key.db i).0 same))
  | inr other ↦ rw (lookup-insert m.dbs key.db i (db_of m key.db), other) refl
]

touch_watched-db_of :
    (m : RediQueue) (watched : Dict DbKey ℕ) (i : ℤ) → db_of (touch_watched m watched) i ≡ db_of m i
unfolding touch_watched
touch_watched-db_of m [] i = refl
touch_watched-db_of m ((key, v) ∷ watched) i =
    elim (Bool-cases (ltb v (version (db_of m key.db) key.key))) [
      | inl newer ↦ rw newer (touch_db-db_of m key i)
      | inr same ↦ rw same (touch_watched-db_of (touch_db m key) watched i ∙ touch_db-db_of m key i)
    ]

-- The version of the key is the one that was seen, or an older one.
abbrev pub Fresh : RediQueue → DbKey × ℕ → Type 0
Fresh m (key, v) = ltb v (version (db_of m key.db) key.key) ≡ false

pub watch_failed-Fresh :
    (m : RediQueue) (watched : Dict DbKey ℕ)
    → (watch_failed m watched ≡ false) ↔ All (Fresh m) watched
unfolding watch_failed
watch_failed-Fresh m [] = (λ e. tt, λ p. refl)
watch_failed-Fresh m ((key, v) ∷ watched) =
    elim (Bool-cases (ltb v (version (db_of m key.db) key.key))) [
      | inl newer ↦ rw newer (λ e. cc, λ p. cc)
      | inr same ↦ rw same (
        λ e. (refl, (watch_failed-Fresh m watched).0 e),
        λ p. (watch_failed-Fresh m watched).1 p.1,
      )
    ]

pub watch_failed-lookup :
    (m : RediQueue) (watched : Dict DbKey ℕ) (key : DbKey) (v : ℕ)
    → lookup watched key ≡ some v
    → v < version (db_of m key.db) key.key
    → watch_failed m watched ≡ true
unfolding watch_failed lookup
watch_failed-lookup m [] key v e newer = cc
watch_failed-lookup m ((j, u) ∷ watched) key v e newer = elim (lookup-cons watched j key u v e) [
  | inl (same, seen) ↦
      let here : ltb u (version (db_of m j.db) j.key) ≡ true =
        ground (arith, newer, seen, ap (λ k. version (db_of m k.db) k.key) same) in
      rw here refl
  | inr later ↦ elim (Bool-cases (ltb u (version (db_of m j.db) j.key))) [
    | inl newer_here ↦ rw newer_here refl
    | inr old ↦ rw old (watch_failed-lookup m watched key v later newer)
  ]
]

-- EXEC has been refused: the reply is an empty array, the transaction is over, no key is watched any more, and
-- every database is as it was.
abbrev pub Aborted : World → Outcome → Type 0
Aborted w (returned broadcast w') =
    (w'.peer.out ≡ w.peer.out ++ array (pos 0) ∷ [])
    × ((get_ctx w').transaction ≡ none)
    × ((get_ctx w').watch ≡ [])
    × ((i : ℤ) → db_of w'.queue i ≡ db_of w.queue i)
Aborted w (waiting cmd timeout w') = ⊥
Aborted w panic = ⊥

-- The password is not asked for, or has been given.
abbrev pub Admitted : World → Type 0
Admitted w = (handle_auth w).0 ≡ true

authed-at :
    (P : Outcome → Type 0) (k : World → Outcome) (w : World) (a e : Bool)
    → (w.queue.password == "") ≡ a
    → (get_ctx w).authenticated ≡ e
    → Admitted w
    → P (k w)
    → P (k (put_ctx w (get_ctx w)))
    → P (authed w k)
unfolding authed handle_auth
authed-at P k w true e ha he ok p q = rw ha p
authed-at P k w false true ha he ok p q = rw (ha, he) q
authed-at P k w false false ha he ok p q = cc

pub authed-Admitted :
    (P : Outcome → Type 0) (k : World → Outcome) (w : World)
    → Admitted w
    → P (k w)
    → P (k (put_ctx w (get_ctx w)))
    → P (authed w k)
authed-Admitted P k w = authed-at P k w _ _ refl refl

-- EXEC of a clean transaction of which a watched key has a greater version than it was watched at, with the password
-- given or not asked for: the reply is an empty array, the transaction is over, no key is watched any more, and every
-- database is as it was.
pub exec-Aborted :
    (h : Host) (cmd : String) (w : World) (cbs : List TxCmd)
    → Admitted w
    → (get_ctx w).transaction ≡ some cbs
    → (get_ctx w).dirty_transaction ≡ false
    → watch_failed w.queue (get_ctx w).watch ≡ true
    → Aborted w (cmd_exec h cmd [] w)
unfolding cmd_exec
exec-Aborted h cmd w cbs ok queued clean failed =
    authed-Admitted (Aborted w) _ w ok
      (rw (queued, clean, failed) (refl, refl, refl, touch_watched-db_of w.queue (get_ctx w).watch))
      (rw (queued, clean, failed) (refl, refl, refl, touch_watched-db_of w.queue (get_ctx w).watch))

-- Where `key` was watched at the version that the database had, and LPUSH or RPUSH of at least one value has since
-- been done to that key, EXEC is refused, however the rest of the connection's state is (`Admitted`, a clean
-- transaction with any commands), as long as the 64-bit version does not wrap around.
pub watched_push-Aborted :
    (h : Host) (cmd : String) (w : World) (cbs : List TxCmd) (lr : LeftRight) (key : DbKey)
    (db : RedisDb) (v : String) (vs : List String)
    → Admitted w
    → (get_ctx w).transaction ≡ some cbs
    → (get_ctx w).dirty_transaction ≡ false
    → lookup (get_ctx w).watch key ≡ some (version db key.key)
    → db_of w.queue key.db ≡ (push_each lr db key.key (v ∷ vs) 0).0
    → version db key.key + length (v ∷ vs) < 2 ^ 64
    → Aborted w (cmd_exec h cmd [] w)
watched_push-Aborted h cmd w cbs lr key db v vs ok queued clean watched now small =
    exec-Aborted h cmd w cbs ok queued clean (
      watch_failed-lookup w.queue (get_ctx w).watch key (version db key.key) watched (
        omega (
          arith,
          ap (λ d. version d key.key) now,
          push_each-version lr key.key (v ∷ vs) db 0 small,
        )))
