-- ===== src/Db/Refine.antt =====
-- The operations of db.go act on the abstract view as they should, and do not panic.
use rediqueue.Base.{
  ◌≡◌, refl, ap, ◌∙◌, String, List, [], ◌∷◌, ◌++◌, Option, none, some, string_eq, eq_iff, arith,
  length, Returns, suc,
}
use rediqueue.Base.Dict.{lookup-insert, lookup-delete}
use rediqueue.Db.{RedisDb, bump, del}
use rediqueue.Db.Lists.{list_lpush, list_push, store_list, store_or_del, store_bump_or_del}
use rediqueue.Db.Keyspace.{Value, list, set, Keyspace, Represents, put, remove, tag_of, set_part}

-- What a key holds as a list: nothing where it is not there.
abbrev pub elements : Option Value → List String
elements none = []
elements (some (list l)) = l
elements (some (set s)) = []

-- An empty list is not kept.
abbrev pub put_list : Keyspace → String → List String → Keyspace
put_list ks k [] = remove ks k
put_list ks k (x ∷ l) = put ks k (list (x ∷ l))

module _ (db : RedisDb) (ks : Keyspace) (k : String) (r : Represents db ks) where
  del-at : (o : Option Value) → ks k ≡ o → Returns (del db k) (λ db'. Represents db' (remove ks k))
  unfolding del
  del-at none e =
      rw (r.tags k ∙ ap tag_of e, del)
        (record {
          tags = λ j. ground (arith, r.tags j, eq_iff k j);
          lists = λ j. ground (arith, r.lists j, eq_iff k j);
          sets = λ j. ground (arith, r.sets j, eq_iff k j);
        })
  del-at (some (list l)) e =
      rw (r.tags k ∙ ap tag_of e, del)
        (record {
          tags = λ j. ground (arith, r.tags j, lookup-delete db.keys k j);
          lists = λ j. ground (arith, r.lists j, lookup-delete db.list_keys k j);
          sets = λ j. ground (arith, r.sets j, eq_iff k j);
        })
  del-at (some (set l)) e =
      rw (r.tags k ∙ ap tag_of e, del)
        (record {
          tags = λ j. ground (arith, r.tags j, lookup-delete db.keys k j);
          lists = λ j. ground (arith, r.lists j, eq_iff k j);
          sets = λ j. ground (arith, r.sets j, lookup-delete db.set_keys k j);
        })

  -- On a database that the view represents, `del` takes the key out of the view, whatever it holds, and nothing else,
  -- and does not panic.
  pub del-Represents : Returns (del db k) (λ db'. Represents db' (remove ks k))
  del-Represents = del-at (ks k) refl

  pub list_lpush-Represents :
      (v : String)
      → set_part (ks k) ≡ none
      → Represents (list_lpush db k v).0 (put ks k (list (v ∷ elements (ks k))))
        × ((list_lpush db k v).1 ≡ suc (length (elements (ks k))))
  unfolding list_lpush
  list_lpush-Represents v e = (
    record {
      tags = λ j.
          ground
            (arith, r.tags j, r.lists k, r.tags k, eq_iff k j, lookup-insert db.keys k j "list");
      lists = λ j.
          ground
            (arith, r.lists j, r.lists k, lookup-insert db.list_keys k j (v ∷ elements (ks k)));
      sets = λ j. ground (arith, r.sets j, r.lists k, eq_iff k j);
    },
    ground (arith, r.lists k),
  )

  pub list_push-Represents :
      (vs : List String)
      → set_part (ks k) ≡ none
      → Represents (list_push db k vs).0 (put ks k (list (elements (ks k) ++ vs)))
        × ((list_push db k vs).1 ≡ length (elements (ks k) ++ vs))
  unfolding list_push
  list_push-Represents vs e = (
    record {
      tags = λ j.
          ground
            (arith, r.tags j, r.lists k, r.tags k, eq_iff k j, lookup-insert db.keys k j "list");
      lists = λ j.
          ground
            (arith, r.lists j, r.lists k, lookup-insert db.list_keys k j (elements (ks k) ++ vs));
      sets = λ j. ground (arith, r.sets j, r.lists k, eq_iff k j);
    },
    ground (arith, r.lists k),
  )

  -- A list that is there is replaced.
  pub store_list-Represents :
      {old : List String} (l : List String)
      → ks k ≡ some (list old)
      → Represents (store_list db k l) (put ks k (list l))
  store_list-Represents l e = record {
    tags = λ j. ground (arith, r.tags j, r.tags k, eq_iff k j);
    lists = λ j. ground (arith, r.lists j, lookup-insert db.list_keys k j l);
    sets = λ j. ground (arith, r.sets j, eq_iff k j);
  }

pub bump-Represents :
    {db : RedisDb} {ks : Keyspace} (k : String) → Represents db ks → Represents (bump db k) ks
unfolding bump
bump-Represents k r = record { tags = r.tags; lists = r.lists; sets = r.sets }

module _ (db : RedisDb) (ks : Keyspace) (k : String) (r : Represents db ks) {old : List String}
    (e : ks k ≡ some (list old)) where
  pub store_bump_or_del-Represents :
      (l : List String)
      → Returns (store_bump_or_del db k l) (λ db'. Represents db' (put_list ks k l))
  unfolding store_bump_or_del
  store_bump_or_del-Represents [] = del-Represents db ks k r
  store_bump_or_del-Represents (x ∷ l) =
      bump-Represents k (store_list-Represents db ks k r (x ∷ l) e)

  pub store_or_del-Represents :
      (l : List String) → Returns (store_or_del db k l) (λ db'. Represents db' (put_list ks k l))
  unfolding store_or_del
  store_or_del-Represents [] = del-Represents db ks k r
  store_or_del-Represents (x ∷ l) = store_list-Represents db ks k r (x ∷ l) e
