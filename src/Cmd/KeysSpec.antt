-- ===== src/Cmd/KeysSpec.antt =====
-- What DEL and EXISTS of cmd_generic.go promise over the abstract view.
use rediqueue.Base.{
  ℕ, ◌+◌, ◌≡◌, refl, ap, ◌∙◌, String, Bool-cases, inl, inr, List, [], ◌∷◌, Option, none, some,
  is_some, ◌==◌, if◌then◌else◌, string_eq, eq_iff, arith, Returns, Returns-bind, Returns-map,
}
use rediqueue.Base.Int.{pos}
use rediqueue.Reply.{Frame, int}
use rediqueue.Db.{RedisDb, exists}
use rediqueue.Db.Keyspace.{Value, list, set, Keyspace, Represents, remove, tag_of}
use rediqueue.Db.Members.{listed}
use rediqueue.Db.Refine.{del-Represents}
use rediqueue.Db.RefineSets.{Represents-ext}
use rediqueue.Cmd.ListSpec.{Keeps}
use rediqueue.Cmd.Keys.{del_each, del_keys, count_existing, exists_keys}

-- The view without the keys of the list.
abbrev pub without : Keyspace → List String → Keyspace
without ks args j = if listed args j then none else ks j

-- How many of the list hold something.
abbrev pub holding : Keyspace → List String → ℕ
holding ks [] = 0
holding ks (k ∷ args) = (if is_some (ks k) then 1 else 0) + holding ks args

-- The same, with a key that comes again counted once, at its last place.
abbrev pub holding_once : Keyspace → List String → ℕ
holding_once ks [] = 0
holding_once ks (k ∷ args) =
    (if listed args k then 0 else if is_some (ks k) then 1 else 0) + holding_once ks args

exists-at :
    (db : RedisDb) (ks : Keyspace) (k : String) (o : Option Value)
    → Represents db ks
    → ks k ≡ o
    → exists db k ≡ is_some o
unfolding exists
exists-at db ks k none r e = rw (r.tags k ∙ ap tag_of e) refl
exists-at db ks k (some (list l)) r e = rw (r.tags k ∙ ap tag_of e) refl
exists-at db ks k (some (set s)) r e = rw (r.tags k ∙ ap tag_of e) refl

-- A key that is taken out counts no more, wherever it comes again.
holding_once-remove :
    (ks : Keyspace) (k : String) (args : List String)
    → holding_once ks (k ∷ args)
      ≡ (if is_some (ks k) then 1 else 0) + holding_once (remove ks k) args
holding_once-remove ks k [] = refl
holding_once-remove ks k (j ∷ args) = elim (Bool-cases (j == k)) [
  | inl same ↦ rw ((eq_iff j k).0 same) (ground (arith, eq_iff k k, holding_once-remove ks k args))
  | inr other ↦ ground (arith, eq_iff k j, eq_iff j k, other, holding_once-remove ks k args)
]

without-remove :
    (ks : Keyspace) (k : String) (args : List String) (j : String)
    → without (remove ks k) args j ≡ without ks (k ∷ args) j
without-remove ks k args j = ground arith

-- Behind the loop of DEL, from a count on.
abbrev Deleted : Keyspace → List String → ℕ → RedisDb × ℕ → Type 0
Deleted ks args n p = Represents p.0 (without ks args) × (p.1 ≡ n + holding_once ks args)

del_each-Keeps :
    (ks : Keyspace) (args : List String) (n : ℕ) (db : RedisDb)
    → Represents db ks
    → Returns (del_each db args n) (Deleted ks args n)
unfolding del_each
del_each-Keeps ks [] n db r = (r, omega arith)
del_each-Keeps ks (k ∷ args) n db r =
    Returns-bind {B = RedisDb × ℕ} (λ db'. Represents db' (remove ks k)) (Deleted ks (k ∷ args) n) _
      _ (del-Represents db ks k r)
      (λ db' q.
        let m = if exists db k then n + 1 else n in
        Returns-map {A = RedisDb × ℕ} (Deleted (remove ks k) args m) (Deleted ks (k ∷ args) n) _
          (λ p w. (
            Represents-ext (without-remove ks k args) w.0,
            w.1 ∙ ground (arith, exists-at db ks k (ks k) r refl, holding_once-remove ks k args),
          ))
          (del_each-Keeps (remove ks k) args m db' q))

count_existing-holding :
    (db : RedisDb) (ks : Keyspace) (args : List String)
    → Represents db ks
    → count_existing db args ≡ holding ks args
unfolding count_existing
count_existing-holding db ks [] r = refl
count_existing-holding db ks (k ∷ args) r =
    rw (exists-at db ks k (ks k) r refl, count_existing-holding db ks args r) refl

-- On a database that the view represents, DEL takes each of its keys out, whatever it holds, and no other key, and replies
-- with the number of keys that were there, each counted once; EXISTS replies with the number of its arguments that are
-- keys, repeated ones counted again, and changes nothing.
pub del_keys-Keeps :
    (db : RedisDb) (ks : Keyspace) (args : List String)
    → Represents db ks
    → Keeps (del_keys args db) (without ks args, int (pos (holding_once ks args)) ∷ [])
      × Keeps (exists_keys args db) (ks, int (pos (holding ks args)) ∷ [])
unfolding del_keys exists_keys
del_keys-Keeps db ks args r = (
  Returns-bind {B = RedisDb × List Frame} (Deleted ks args 0) _ _ _ (del_each-Keeps ks args 0 db r)
      (λ p w. (w.0, ap (λ n. int (pos n) ∷ []) (w.1 ∙ omega arith))),
  (r, ap (λ n. int (pos n) ∷ []) (count_existing-holding db ks args r)),
)
