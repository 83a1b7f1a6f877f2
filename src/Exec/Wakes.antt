-- ===== src/Exec/Wakes.antt =====
-- A push of cmd_list.go wakes a blocked pop, which then gets an element: `withTx` broadcasts, and the loop of `blocking`
-- tries again.
use rediqueue.Base.{
  ◌≡◌, ◌≢◌, refl, sym, ap, subst, ◌∙◌, String, true, false, List, [], ◌∷◌, ◌++◌, none, some, get_or,
  string_eq, eq_iff, ◌>>=◌, All, arith, length,
}
use rediqueue.Base.Int.{ℤ, pos, int_eq, int_beq_iff}
use rediqueue.Base.Dict.{lookup, insert, lookup-insert}
use rediqueue.Reply.{Frame, array, bulk, int}
use rediqueue.Db.{RedisDb, new_redis_db}
use rediqueue.Db.Keyspace.{list, Keyspace, Represents, put}
use rediqueue.Cmd.Lists.{LeftRight, left, right, Result, xpush}
use rediqueue.Cmd.Blocking.{Attempt, bxpop}
use rediqueue.Cmd.ListSpec.{Keeps, pushed, xpush_at, end_of, of_reversed}
use mathlib.Core.List.{reverse, reverse-cons, reverse-reverse, append-nil}
use rediqueue.Cmd.Push.{xpush-Keeps}
use rediqueue.Cmd.Waits.{Answer, KeepsTry, given_at, bxpop_at, bxpop-Keeps, bxpop_at-behind}
use rediqueue.Session as T
use rediqueue.Session.{
  World, RediQueue, Peer, TxCmd, BlockCmd, on_selected, ConnCtx, new_ctx, db_of, put_db, get_ctx,
  put_ctx, write,
}
use rediqueue.Session.Run.{
  Host, Outcome, returned, waiting, panic, or_panic, after_try, try_block, run_block, run_cb,
  run_db, with_tx, on_db,
}
use rediqueue.Handlers.Lists.{cmd_xpush}
use rediqueue.Sound.{Full-put_some}
use rediqueue.Sound.Lists.{pushed-some}
use rediqueue.Server.System.{wake}
use rediqueue.Exec.Watch.{Admitted, authed-Admitted}

db_of-put_db : (m : RediQueue) (i : ℤ) (db : RedisDb) → db_of (put_db m i db) i ≡ db
unfolding db_of put_db
db_of-put_db m i db =
    let found : lookup (insert m.dbs i db) i ≡ some db =
      ground (arith, lookup-insert m.dbs i i db, int_beq_iff i i) in
    ap (λ o. get_or o (new_redis_db i)) found

-- The command is done, and has written these frames behind `out`.
abbrev pub Done : List Frame → List Frame → Outcome → Type 0
Done out frames (returned broadcast w) = w.peer.out ≡ out ++ frames
Done out frames (waiting cmd timeout w) = ⊥
Done out frames panic = ⊥

tried-Done :
    (cmd : BlockCmd) (timeout : ℤ) (w : World) (i : ℤ) (a : Attempt) (p : Answer)
    → KeepsTry a p
    → p.2 ≡ true
    → Done w.peer.out p.1 (
        after_try cmd timeout (do
          (db, frames, finished) ← a
          some (write frames (record w { queue = put_db w.queue i db }), finished)))
tried-Done cmd timeout w i none p k done = absurd k
tried-Done cmd timeout w i (some (db, frames, true)) p (r, e, f) done =
    ap (λ fs. w.peer.out ++ fs) e
tried-Done cmd timeout w i (some (db, frames, false)) p (r, e, f) done = cc

-- A round of the loop of a blocked pop on a database with this view.
wake-Done :
    (side : LeftRight) (keys : List String) (timeout : ℤ) (w : World) (db : RedisDb) (js : Keyspace)
    (p : Answer)
    → db_of w.queue (get_ctx w).selected_db ≡ db
    → Represents db js
    → ((k : String) → js k ≢ some (list []))
    → bxpop_at side js keys ≡ p
    → p.2 ≡ true
    → Done w.peer.out p.1 (wake (T.bxpop side keys) timeout w)
unfolding wake try_block run_block
wake-Done side keys timeout w db js p here r full e done =
    tried-Done (T.bxpop side keys) timeout w (get_ctx w).selected_db
      (bxpop side keys (db_of w.queue (get_ctx w).selected_db)) p
      (subst (λ q. KeepsTry (bxpop side keys (db_of w.queue (get_ctx w).selected_db)) q) e
        (subst (λ d. KeepsTry (bxpop side keys d) (bxpop_at side js keys)) (sym here)
          (bxpop-Keeps side db js r keys full)))
      done

abbrev last : String → List String → String
last v [] = v
last v (a ∷ args) = last a args

-- What a pop at an end gets of the values that were pushed at an end: the first of them, or the last one at the same end.
abbrev pub taken : LeftRight → LeftRight → String → List String → String
taken left left v args = last v args
taken right right v args = last v args
taken left right v args = v
taken right left v args = v

reverse-last :
    (v : String) (args : List String)
    → (rest : List String) × (reverse (v ∷ args) ≡ last v args ∷ rest)
reverse-last v [] = ([], refl)
reverse-last v (a ∷ args) =
    let (rest, e) = reverse-last a args in
    (rest ++ v ∷ [], reverse-cons v (a ∷ args) ∙ ap (λ l. l ++ v ∷ []) e)

end_of-pushed :
    (lr side : LeftRight) (v : String) (args : List String)
    → (rest : List String) × (end_of side (pushed lr (v ∷ args) [])
        ≡ some (taken lr side v args, rest))
end_of-pushed left left v args =
    let (rest, e) = reverse-last v args in
    (rest, ap (end_of left) (append-nil (reverse (v ∷ args)) ∙ e))
end_of-pushed left right v args = (
  reverse args,
  ap of_reversed (ap reverse (append-nil (reverse (v ∷ args))) ∙ reverse-reverse (v ∷ args)),
)
end_of-pushed right left v args = (args, refl)
end_of-pushed right right v args =
    let (rest, e) = reverse-last v args in (reverse rest, ap of_reversed e)

-- The handler has returned with a broadcast, and the next round of the blocked pop of the other connection is done.
abbrev pub Wakes : Peer → LeftRight → List String → ℤ → List Frame → Outcome → Type 0
Wakes peer side keys timeout frames (returned broadcast w) =
    (broadcast ≡ true)
    × Done peer.out frames (wake (T.bxpop side keys) timeout (record w { peer = peer }))
Wakes peer side keys timeout frames (waiting cmd timeout' w) = ⊥
Wakes peer side keys timeout frames panic = ⊥

module _ (lr side : LeftRight) (key v : String) (args before after : List String) (peer : Peer)
    (timeout : ℤ) (w : World) (ks : Keyspace)
    (r : Represents (db_of w.queue (get_ctx w).selected_db) ks)
    (full : (k : String) → ks k ≢ some (list [])) (gone : ks key ≡ none)
    (passed : All (λ k. (ks k ≡ none) × (key ≢ k)) before)
    (same : (get_or peer.ctx new_ctx).selected_db ≡ (get_ctx w).selected_db) where
  abbrev js : Keyspace
  js = put ks key (list (pushed lr (v ∷ args) []))

  abbrev frames : List Frame
  frames = array (pos 2) ∷ bulk key ∷ bulk (taken lr side v args) ∷ []

  passed_by : (l : List String) → All (λ k. (ks k ≡ none) × (key ≢ k)) l → All (λ k. js k ≡ none) l
  passed_by [] p = tt
  passed_by (k ∷ l) ((absent, other), p) =
      (ground (arith, absent, other, eq_iff key k), passed_by l p)

  -- The server behind the push.
  after_push-Wakes :
      (w' : World) (o : Result)
      → Keeps o (js, int (pos (length (pushed lr (v ∷ args) []))) ∷ [])
      → Wakes peer side (before ++ (key ∷ after)) timeout frames (
          or_panic true (do
            (db, fs) ← o
            some (write fs (record w' { queue = put_db w.queue (get_ctx w).selected_db db }))))
  after_push-Wakes w' none k = absurd k
  after_push-Wakes w' (some (db, fs)) (r', e) =
      let i = (get_ctx w).selected_db in
      let (rest, ended) = end_of-pushed lr side v args in
      (
        refl,
        wake-Done side (before ++ (key ∷ after)) timeout
            (record (write fs (record w' { queue = put_db w.queue i db })) { peer = peer }) db js
            (given_at js key (some (taken lr side v args, rest)))
            (ap (db_of (put_db w.queue i db)) same ∙ db_of-put_db w.queue i db) r'
            (Full-put_some ks key (pushed lr (v ∷ args) []) (pushed-some lr v args []) full)
            (bxpop_at-behind side js before key after (pushed lr (v ∷ args) [])
              (passed_by before passed) (ground (arith, eq_iff key key)) _
              (ap (given_at js key) ended))
            refl,
      )

  pushed_alone :
      Keeps
        (xpush lr key (v ∷ args) (db_of w.queue (get_ctx w).selected_db))
        (js, int (pos (length (pushed lr (v ∷ args) []))) ∷ [])
  pushed_alone =
      subst
        (λ o.
          Keeps (xpush lr key (v ∷ args) (db_of w.queue (get_ctx w).selected_db))
            (xpush_at lr ks key (v ∷ args) o))
        gone (xpush-Keeps lr (db_of w.queue (get_ctx w).selected_db) ks key v args r)

  -- LPUSH or RPUSH of at least one value to a missing key, outside a transaction and with the password given or not asked
  -- for, broadcasts. A connection with the same selected database that waits in BLPOP or BRPOP for this key, behind keys
  -- that are missing and before any others, is then done in its next round: it is given the key and the pushed value at
  -- its end, whatever its timeout is.
  pub xpush-Wakes :
      (h : Host) (cmd : String)
      → Admitted w
      → (get_ctx w).transaction ≡ none
      → Wakes peer side
          (before ++ (key ∷ after))
          timeout
          frames
          (cmd_xpush lr h cmd (key ∷ v ∷ args) w)
  unfolding cmd_xpush with_tx run_cb on_db run_db
  xpush-Wakes h cmd ok idle =
      authed-Admitted (Wakes peer side (before ++ (key ∷ after)) timeout frames) _ w ok
        (rw idle (after_push-Wakes (put_ctx w (get_ctx w)) _ pushed_alone))
        (rw idle (after_push-Wakes (put_ctx w (get_ctx w)) _ pushed_alone))
