-- ===== src/Cmd/Index.antt =====
-- LINDEX and LSET keep what `ListSpec` promises.
use rediqueue.Base.{
  ℕ, ◌≡◌, refl, ap, ◌∙◌, String, List, [], ◌∷◌, Option, none, some, length, string_eq, arith, ◌≤◌,
  ◌<◌, set as set_elem, get_elem?-lt, get_or,
}
use rediqueue.Base.Int.{ℤ, pos, negsuc, IsInt, max_int}
use rediqueue.Db.{RedisDb}
use rediqueue.Db.Keyspace.{Value, list, set, Keyspace, Represents, tag_of, list_part}
use rediqueue.Db.Refine.{bump-Represents, store_list-Represents, elements}
use rediqueue.Cmd.Lists.{lindex, lset, list_index, write_index, set_index}
use rediqueue.Cmd.ListSpec.{Keeps, position, bulk_at, lindex_at, lset_at, written}

-- The arithmetic on `int` finds the position, from either end.
list_index_lem :
    (n : ℕ) (offset : ℤ) → n ≤ max_int → IsInt offset → list_index n offset ≡ position n offset
unfolding list_index
list_index_lem n (pos i) hn hi = ground arith
list_index_lem n (negsuc a) hn hi = ground arith

position-lt : (n : ℕ) (offset : ℤ) (i : ℕ) → position n offset ≡ some i → i < n
position-lt n (pos a) i e = ground arith
position-lt n (negsuc a) i e = ground arith

write_index-at :
    (db : RedisDb) (ks : Keyspace) (l : List String) (o : Option ℕ)
    → ((i : ℕ) → o ≡ some i → i < length l)
    → Represents db ks
    → Keeps (write_index db l o) (ks, bulk_at l o ∷ [])
unfolding write_index
write_index-at db ks l none h r = (r, refl)
write_index-at db ks l (some i) h r =
    let (x, e) = get_elem?-lt l i (h i refl) in rw (e, write_index) (r, refl)

module _ (db : RedisDb) (ks : Keyspace) (key : String) (r : Represents db ks) where
  lindex-at :
      (offset : ℤ) (o : Option Value)
      → ks key ≡ o
      → IsInt offset
      → length (elements o) ≤ max_int
      → Keeps (lindex key offset db) (lindex_at ks offset o)
  unfolding lindex
  lindex-at offset none e hi hl = rw (r.tags key ∙ ap tag_of e, lindex) (r, refl)
  lindex-at offset (some (set s)) e hi hl = rw (r.tags key ∙ ap tag_of e, lindex) (r, refl)
  lindex-at offset (some (list l)) e hi hl =
      rw
        (
          r.tags key ∙ ap tag_of e,
          lindex,
          r.lists key ∙ ap list_part e,
          list_index_lem (length l) offset hl hi,
        )
        (write_index-at db ks l (position (length l) offset) (position-lt (length l) offset) r)

  -- On a database that the view represents, LINDEX replies with the element at the offset, counted from the end where it is negative, and with
  -- nil outside the list or at a missing key; at a set it replies WRONGTYPE. Nothing changes. The length
  -- of the list and the offset are an `int`.
  pub lindex-Keeps :
      (offset : ℤ)
      → IsInt offset
      → length (elements (ks key)) ≤ max_int
      → Keeps (lindex key offset db) (lindex_at ks offset (ks key))
  lindex-Keeps offset = lindex-at offset (ks key) refl

  set_index-at :
      (l : List String) (value : String) (o : Option ℕ)
      → ks key ≡ some (list l)
      → Keeps (set_index db key value o) (written ks key l value o)
  unfolding set_index
  set_index-at l value none e = (r, refl)
  set_index-at l value (some i) e =
      rw (r.lists key ∙ ap list_part e)
        (bump-Represents key (store_list-Represents db ks key r (set_elem l i value) e), refl)

  lset-at :
      (index : ℤ) (value : String) (o : Option Value)
      → ks key ≡ o
      → IsInt index
      → length (elements o) ≤ max_int
      → Keeps (lset key index value db) (lset_at ks key index value o)
  unfolding lset
  lset-at index value none e hi hl = rw (r.tags key ∙ ap tag_of e, lset) (r, refl)
  lset-at index value (some (set s)) e hi hl = rw (r.tags key ∙ ap tag_of e, lset) (r, refl)
  lset-at index value (some (list l)) e hi hl =
      rw
        (
          r.tags key ∙ ap tag_of e,
          lset,
          ap (λ o. length (get_or o [])) (r.lists key ∙ ap list_part e),
          list_index_lem (length l) index hl hi,
        )
        (set_index-at l value (position (length l) index) e)

  -- On a database that the view represents, LSET writes the value at the index, counted from the end where it is
  -- negative, and nowhere else; outside the list, at a missing key and at a set it replies with an error and changes
  -- nothing. The length of the list and the index are an `int`.
  pub lset-Keeps :
      (index : ℤ) (value : String)
      → IsInt index
      → length (elements (ks key)) ≤ max_int
      → Keeps (lset key index value db) (lset_at ks key index value (ks key))
  lset-Keeps index value = lset-at index value (ks key) refl
