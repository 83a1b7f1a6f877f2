-- ===== src/Db/RefineSets.antt =====
-- The pops, the set operations, RENAME and MOVE on the abstract view.
use rediqueue.Base.{
  ◌≡◌, ◌≢◌, refl, ap, ◌∙◌, String, List, [], ◌∷◌, ◌++◌, Option, none, some, string_eq, eq_iff,
  arith, ℕ, ◌+◌, length, ◌||◌, ◌&&◌, not, Returns, Returns-bind, Returns-map, bind-none,
}
use rediqueue.Base.Dict.{lookup-insert, empty, insert}
use rediqueue.Db.{RedisDb, SetKey, t, bump, del, rename, rename_value}
use rediqueue.Db.Lists.{list_lpop, list_pop, unsnoc}
use rediqueue.Db.Sets.{member, set_set, set_add, add_all, set_rem, remove_all, store_set_or_del}
use rediqueue.Db.Members.{
  listed, fresh_in, held_in, add_all_lem, add_all-fresh_in, remove_all_lem, remove_all-held_in,
}
use rediqueue.Db.Keyspace.{
  Value, list, set, Keyspace, Represents, put, remove, tag_of, list_part, set_part,
}
use rediqueue.Db.Refine.{
  put_list, del-Represents, bump-Represents, store_or_del-Represents, store_bump_or_del-Represents,
}

pub Represents-ext :
    {db : RedisDb} {ks js : Keyspace}
    → ((k : String) → ks k ≡ js k)
    → Represents db ks
    → Represents db js
Represents-ext h r = record {
  tags = λ k. r.tags k ∙ ap tag_of (h k);
  lists = λ k. r.lists k ∙ ap list_part (h k);
  sets = λ k. r.sets k ∙ ap set_part (h k);
}

pub unsnoc-append : (l : List String) (x : String) → unsnoc (l ++ x ∷ []) ≡ some (l, x)
unfolding unsnoc
unsnoc-append [] x = refl
unsnoc-append (y ∷ l) x = rw (unsnoc-append l x, unsnoc)

pub unsnoc-some :
    (l : List String) → l ≢ [] → (front : List String) × (x : String) × (l ≡ front ++ x ∷ [])
unsnoc-some [] h = absurd (h refl)
unsnoc-some (x ∷ []) h = ([], x, refl)
unsnoc-some (x ∷ y ∷ l) h =
    let (front, z, e) = unsnoc-some (y ∷ l) (λ p. cc) in (x ∷ front, z, ap (λ m. x ∷ m) e)

module _ (db : RedisDb) (ks : Keyspace) (k : String) (r : Represents db ks) where
  -- Popping on the left returns the first element and keeps the others.
  pub list_lpop-Represents :
      (x : String) (l : List String)
      → ks k ≡ some (list (x ∷ l))
      → Returns (list_lpop db k) (λ p. (p.1 ≡ x) × Represents p.0 (put_list ks k l))
  unfolding list_lpop
  list_lpop-Represents x l e =
      rw (r.lists k ∙ ap list_part e, list_lpop)
        (Returns-bind (λ db'. Represents db' (put_list ks k l)) _ _ _
          (store_or_del-Represents db ks k r e l) (λ db' q. (refl, bump-Represents k q)))

  -- Popping on the right returns the last element and keeps the others.
  pub list_pop-Represents :
      (l : List String) (x : String)
      → ks k ≡ some (list (l ++ x ∷ []))
      → Returns (list_pop db k) (λ p. (p.1 ≡ x) × Represents p.0 (put_list ks k l))
  unfolding list_pop
  list_pop-Represents l x e =
      rw (r.lists k ∙ ap list_part e, list_pop, unsnoc-append l x)
        (Returns-bind (λ db'. Represents db' (put_list ks k l)) _ _ _
          (store_bump_or_del-Represents db ks k r e l) (λ db' q. (refl, q)))

-- What a key holds as a set.
abbrev pub members : Option Value → SetKey
members none = empty
members (some (list l)) = empty
members (some (set s)) = s

-- An empty set is not kept.
abbrev pub put_set : Keyspace → String → SetKey → Keyspace
put_set ks k [] = remove ks k
put_set ks k (e ∷ s) = put ks k (set (e ∷ s))

-- The key holds a set of the members of `s` that are not among the given ones, and their number goes with it.
abbrev pub Removed : Keyspace → String → SetKey → List String → RedisDb × ℕ → Type 0
Removed ks k s fields p =
    (s' : SetKey) × Represents p.0 (put_set ks k s')
    × ((e : String) → member s' e ≡ (member s e && not (listed fields e)))
    × (p.1 ≡ held_in s fields)

module _ (db : RedisDb) (ks : Keyspace) (k : String) (r : Represents db ks) where
  pub set_set-Represents :
      (s : SetKey) → list_part (ks k) ≡ none → Represents (set_set db k s) (put ks k (set s))
  unfolding set_set
  set_set-Represents s e = record {
    tags = λ j. ground (arith, r.tags j, lookup-insert db.keys k j "set");
    lists = λ j. ground (arith, r.lists j, eq_iff k j);
    sets = λ j. ground (arith, r.sets j, lookup-insert db.set_keys k j s);
  }

  set_add-add_all :
      (elems : List String)
      → list_part (ks k) ≡ none
      → Represents (set_add db k elems).0 (put ks k (set (add_all (members (ks k)) elems).0))
        × ((set_add db k elems).1 ≡ (add_all (members (ks k)) elems).1)
  unfolding set_add
  set_add-add_all elems e = (
    record {
      tags = λ j.
          ground (arith, r.tags j, r.sets k, r.tags k, eq_iff k j, lookup-insert db.keys k j "set");
      lists = λ j. ground (arith, r.lists j, r.sets k, eq_iff k j);
      sets = λ j. ground (
        arith,
        r.sets j,
        r.sets k,
        lookup-insert db.set_keys k j (add_all (members (ks k)) elems).0,
      );
    },
    ground (arith, r.sets k),
  )

  -- On a database that the view represents, and where the key holds no list, `setAdd` makes the key hold a set with
  -- exactly the members it had and the given ones, also where there was none, and touches no other key. It returns the
  -- number of the given elements that were no members, each counted once, which is the number by which the set grows.
  pub set_add-Represents :
      (elems : List String)
      → list_part (ks k) ≡ none
      → (s : SetKey) × Represents (set_add db k elems).0 (put ks k (set s))
        × ((e : String) → member s e ≡ (member (members (ks k)) e || listed elems e))
        × ((set_add db k elems).1 ≡ fresh_in (members (ks k)) elems)
        × (length s ≡ (set_add db k elems).1 + length (members (ks k)))
  set_add-Represents elems e =
      let (r', n) = set_add-add_all elems e in
      let (same, grows) = add_all_lem (members (ks k)) elems in
      (
        (add_all (members (ks k)) elems).0,
        r',
        same,
        n ∙ add_all-fresh_in (members (ks k)) elems,
        omega (arith, grows, n),
      )

  pub store_set_or_del-Represents :
      {old : SetKey} (s : SetKey)
      → ks k ≡ some (set old)
      → Returns (store_set_or_del db k s) (λ db'. Represents db' (put_set ks k s))
  unfolding store_set_or_del
  store_set_or_del-Represents (x ∷ s) e = record {
    tags = λ j. ground (arith, r.tags j, r.tags k, eq_iff k j);
    lists = λ j. ground (arith, r.lists j, r.lists k, eq_iff k j);
    sets = λ j. ground (arith, r.sets j, lookup-insert db.set_keys k j (x ∷ s));
  }
  store_set_or_del-Represents [] e =
      Returns-map _ (λ db'. Represents db' (remove ks k)) _
        (λ db' q. Represents-ext {js = remove ks k} (λ j. ground arith) q)
        (del-Represents (record db { set_keys = insert db.set_keys k [] }) (put ks k (set [])) k
          (record {
            tags = λ j. ground (arith, r.tags j, r.tags k, eq_iff k j);
            lists = λ j. ground (arith, r.lists j, r.lists k, eq_iff k j);
            sets = λ j. ground (arith, r.sets j, lookup-insert db.set_keys k j []);
          }))

  set_rem-remove_all :
      (fields : List String) {s : SetKey}
      → ks k ≡ some (set s)
      → Returns (set_rem db k fields) (λ p.
        (p.1 ≡ (remove_all s fields).1) × Represents p.0 (put_set ks k (remove_all s fields).0))
  unfolding set_rem
  set_rem-remove_all fields {s} e =
      rw (r.sets k ∙ ap set_part e, set_rem)
        (Returns-bind (λ db'. Represents db' (put_set ks k (remove_all s fields).0)) _ _ _
          (store_set_or_del-Represents (remove_all s fields).0 e)
          (λ db' q. (refl, bump-Represents k q)))

  -- On a database that the view represents, and where the key holds a set, `setRem` leaves a set with exactly the members
  -- that are not among the given ones, deletes the key with none left, and touches no other key. It returns the number of
  -- the given elements that were members, each counted once, and does not panic.
  pub set_rem-Represents :
      (fields : List String) {s : SetKey}
      → ks k ≡ some (set s)
      → Returns (set_rem db k fields) (Removed ks k s fields)
  set_rem-Represents fields {s} e =
      Returns-map {A = RedisDb × ℕ}
        (λ p.
          (p.1 ≡ (remove_all s fields).1) × Represents p.0 (put_set ks k (remove_all s fields).0))
        (Removed ks k s fields) _
        (λ p q. (
          (remove_all s fields).0,
          q.1,
          remove_all_lem s fields,
          q.0 ∙ remove_all-held_in s fields,
        ))
        (set_rem-remove_all fields e)

  rename_value-Represents :
      (to : String) (v : Value)
      → ks to ≡ none
      → ks k ≡ some v
      → Returns
          (rename_value db k to (t db k))
          (λ db'. Represents (record db' { keys = insert db'.keys to (t db' k) }) (put ks to v))
  unfolding rename_value t
  rename_value-Represents to (list l) f e =
      rw (r.tags k ∙ ap tag_of e, rename_value, t)
        (record {
          tags = λ j. lookup-insert db.keys to j _ ∙ ground (arith, r.tags j, r.tags k);
          lists = λ j. ground (arith, r.lists j, r.lists k, lookup-insert db.list_keys to j l);
          sets = λ j. ground (arith, r.sets j, r.sets to, eq_iff to j);
        })
  rename_value-Represents to (set s) f e =
      rw (r.tags k ∙ ap tag_of e, rename_value, t)
        (record {
          tags = λ j. lookup-insert db.keys to j _ ∙ ground (arith, r.tags j, r.tags k);
          lists = λ j. ground (arith, r.lists j, r.lists to, eq_iff to j);
          sets = λ j. ground (arith, r.sets j, r.sets k, lookup-insert db.set_keys to j s);
        })

-- On a database that the view represents, `rename` of a key that is there to another one moves its value there, and
-- what the other key held is lost; it does not panic.
pub rename-Represents :
    (db : RedisDb) (ks : Keyspace) (from to : String) (v : Value)
    → Represents db ks
    → from ≢ to
    → ks from ≡ some v
    → Returns (rename db from to) (λ db'. Represents db' (remove (put ks to v) from))
unfolding rename
rename-Represents db ks from to v r ne e =
    Returns-bind (λ db'. Represents db' (remove ks to)) _ _ _ (del-Represents db ks to r)
      λ cleared q.
        Returns-bind {A = RedisDb} {B = RedisDb}
          (λ moved.
            Represents (record moved { keys = insert moved.keys to (t moved from) })
              (put (remove ks to) to v))
          (λ db'. Represents db' (remove (put ks to v) from))
          (rename_value cleared from to (t cleared from))
          (λ moved.
            del (bump (record moved { keys = insert moved.keys to (t moved from) }) to) from)
          (rename_value-Represents cleared (remove ks to) from q to v (ground (arith, eq_iff to to))
            (ground (arith, eq_iff to from)))
          λ moved p.
            Returns-map _ (λ db'. Represents db' (remove (put ks to v) from)) _
              (λ db' x.
                Represents-ext {ks = remove (put (remove ks to) to v) from}
                  {js = remove (put ks to v) from} (λ j. ground (arith, eq_iff to j)) x)
              (del-Represents _ _ from (bump-Represents to p))

-- On a database that the view represents, `rename` of a key to itself panics, whatever it holds.
pub rename_self :
    (db : RedisDb) (ks : Keyspace) (k : String) → Represents db ks → rename db k k ≡ none
unfolding rename
rename_self db ks k r =
    bind-none (λ db'. Represents db' (remove ks k)) _ _ (del-Represents db ks k r)
      λ cleared q. rw (q.tags k ∙ ap tag_of (gone k), t, rename_value) refl
  where
    gone : (k : String) → remove ks k k ≡ none
    gone k = ground (arith, eq_iff k k)
