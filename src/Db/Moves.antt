-- ===== src/Db/Moves.antt =====
-- MOVE on the abstract views of two databases.
use rediqueue.Base.{
  ◌≡◌, refl, ap, ◌∙◌, String, Bool, true, false, Option, none, some, arith, eq_iff, string_eq,
  Returns, Returns-bind, ◌>>=◌, if◌then◌else◌,
}
use rediqueue.Base.Dict.{insert, lookup-insert}
use rediqueue.Db.{RedisDb, exists, t, bump, del, move, move_value}
use rediqueue.Db.Keyspace.{Value, list, set, Keyspace, Represents, put, remove, tag_of}
use rediqueue.Db.Refine.{del-Represents, bump-Represents}

-- The two views afterwards, and whether the key was moved: only where it is there, and not in the other database.
abbrev pub move_at :
    Keyspace → Keyspace → String → Option Value → Option Value → Keyspace × Keyspace × Bool
move_at ks js key (some v) none = (remove ks key, put js key v, true)
move_at ks js key none there = (ks, js, false)
move_at ks js key (some v) (some u) = (ks, js, false)

abbrev pub Moves : Keyspace × Keyspace × Bool → RedisDb × RedisDb × Bool → Type 0
Moves v p = Represents p.0 v.0 × Represents p.1 v.1 × (p.2 ≡ v.2)

is_there :
    (db : RedisDb) (ks : Keyspace) (k : String) (v : Value)
    → Represents db ks
    → ks k ≡ some v
    → exists db k ≡ true
unfolding exists
is_there db ks k (list l) r e = rw (r.tags k ∙ ap tag_of e) refl
is_there db ks k (set s) r e = rw (r.tags k ∙ ap tag_of e) refl

is_absent :
    (db : RedisDb) (ks : Keyspace) (k : String)
    → Represents db ks
    → ks k ≡ none
    → exists db k ≡ false
unfolding exists
is_absent db ks k r e = rw (r.tags k ∙ ap tag_of e) refl

if_true :
    {A : Type 0} (P : A → Type 0) (b : Bool) (x y : A) → b ≡ true → P x → P (if b then x else y)
if_true P true x y e p = p
if_true P false x y e p = cc

if_false :
    {A : Type 0} (P : A → Type 0) (b : Bool) (x y : A) → b ≡ false → P y → P (if b then x else y)
if_false P true x y e p = cc
if_false P false x y e p = p

module _ (db to : RedisDb) (ks js : Keyspace) (key : String) (r : Represents db ks)
    (s : Represents to js) where
  -- On databases that the views represent, the value of a key that `to` does not have is written there.
  move_value-Represents :
      (v : Value)
      → ks key ≡ some v
      → js key ≡ none
      → Returns
          (move_value db key (record to { keys = insert to.keys key (t db key) }) (t db key))
          (λ to'. Represents to' (put js key v))
  unfolding move_value t
  move_value-Represents (list l) e f =
      rw (r.tags key ∙ ap tag_of e, move_value, t)
        (record {
          tags = λ j. lookup-insert to.keys key j _ ∙ ground (arith, s.tags j, r.tags key);
          lists = λ j. ground (arith, s.lists j, r.lists key, lookup-insert to.list_keys key j l);
          sets = λ j. ground (arith, s.sets j, s.sets key, eq_iff key j);
        })
  move_value-Represents (set m) e f =
      rw (r.tags key ∙ ap tag_of e, move_value, t)
        (record {
          tags = λ j. lookup-insert to.keys key j _ ∙ ground (arith, s.tags j, r.tags key);
          lists = λ j. ground (arith, s.lists j, s.lists key, eq_iff key j);
          sets = λ j. ground (arith, s.sets j, r.sets key, lookup-insert to.set_keys key j m);
        })

  moved-Moves :
      (v : Value)
      → ks key ≡ some v
      → js key ≡ none
      → Returns
          (do
            to' ← move_value db key (record to { keys = insert to.keys key (t db key) }) (t db key)
            db' ← del db key
            some (db', bump to' key, true))
          (Moves (remove ks key, put js key v, true))
  moved-Moves v e f =
      Returns-bind {B = RedisDb × RedisDb × Bool} (λ to'. Represents to' (put js key v))
        (Moves (remove ks key, put js key v, true)) _ _ (move_value-Represents v e f)
        (λ to' q.
          Returns-bind {B = RedisDb × RedisDb × Bool} (λ db'. Represents db' (remove ks key))
            (Moves (remove ks key, put js key v, true)) _ _ (del-Represents db ks key r)
            (λ db' p. (p, bump-Represents key q, refl)))

  move-at :
      (o p : Option Value)
      → ks key ≡ o
      → js key ≡ p
      → Returns (move db key to) (Moves (move_at ks js key o p))
  unfolding move
  move-at (some v) none e f =
      let P = λ (m : Option (RedisDb × RedisDb × Bool)).
        Returns m (Moves (remove ks key, put js key v, true)) in
      if_false P (exists to key) _ _ (is_absent to js key s f)
        (if_true P (exists db key) _ _ (is_there db ks key v r e) (moved-Moves v e f))
  move-at none none e f =
      let P = λ (m : Option (RedisDb × RedisDb × Bool)). Returns m (Moves (ks, js, false)) in
      if_false P (exists to key) _ _ (is_absent to js key s f)
        (if_false P (exists db key) _ _ (is_absent db ks key r e) (r, s, refl))
  move-at none (some u) e f =
      let P = λ (m : Option (RedisDb × RedisDb × Bool)). Returns m (Moves (ks, js, false)) in
      if_true P (exists to key) _ _ (is_there to js key u s f) (r, s, refl)
  move-at (some v) (some u) e f =
      let P = λ (m : Option (RedisDb × RedisDb × Bool)). Returns m (Moves (ks, js, false)) in
      if_true P (exists to key) _ _ (is_there to js key u s f) (r, s, refl)

  -- On two databases that the views represent, `move` takes a key with its value from the one to the other, whatever it
  -- holds, where the other has no such key, and says so; where the key is missing or the other one has it, nothing
  -- changes. It does not panic, and touches no other key.
  pub move-Moves : Returns (move db key to) (Moves (move_at ks js key (ks key) (js key)))
  move-Moves = move-at (ks key) (js key) refl refl
