-- ===== src/Cmd/Versions.antt =====
-- The versions of keys, by which WATCH sees that a key has changed.
use rediqueue.Base.{
  ℕ, ◌+◌, ◌%◌, ◌^◌, ◌<◌, ◌≡◌, refl, ap, Bool-cases, String, List, [], ◌∷◌, ◌++◌, inl, inr, length,
  is_some, arith, ◌==◌, string_eq, if◌then◌else◌, beq_refl,
}
use rediqueue.Base.Dict.{lookup, lookup-insert}
use rediqueue.Db.{RedisDb, version, bump, list_at}
use rediqueue.Db.Lists.{tag_list, store_list, list_lpush, list_push}
use rediqueue.Cmd.Lists.{LeftRight, left, right, push_side, push_each}

tag_list-version : (db : RedisDb) (k j : String) → version (tag_list db k) j ≡ version db j
unfolding tag_list version
tag_list-version db k j = elim (Bool-cases (is_some (lookup db.list_keys k))) [
  | inl known ↦ rw known refl
  | inr new ↦ rw new refl
]

-- A write counts the version of its own key up, on 64 bits.
bump-version :
    (db : RedisDb) (k j : String)
    → version (bump db k) j ≡ (if k == j then (version db j + 1) % 2 ^ 64 else version db j)
unfolding version bump
bump-version db k j =
    rw (lookup-insert db.key_version k j ((version db k + 1) % 2 ^ 64))
      (elim (Bool-cases (k == j)) [
        | inl same ↦
            rw same (ap (λ i. (version db i + 1) % 2 ^ 64) ((string_eq.beq_iff k j).0 same))
        | inr other ↦ rw other refl
      ])

store_list-version :
    (db : RedisDb) (k : String) (l : List String) → version (store_list db k l) k ≡ version db k
unfolding version
store_list-version db k l = refl

push_side-version :
    (lr : LeftRight) (db : RedisDb) (k : String) (v : String)
    → version db k + 1 < 2 ^ 64
    → version (push_side lr db k v).0 k ≡ version db k + 1
unfolding push_side list_lpush list_push
push_side-version left db k v small = ground (
  arith,
  small,
  beq_refl k,
  bump-version (store_list (tag_list db k) k (v ∷ list_at db k)) k k,
  store_list-version (tag_list db k) k (v ∷ list_at db k),
  tag_list-version db k k,
)
push_side-version right db k v small = ground (
  arith,
  small,
  beq_refl k,
  bump-version (store_list (tag_list db k) k (list_at db k ++ v ∷ [])) k k,
  store_list-version (tag_list db k) k (list_at db k ++ v ∷ []),
  tag_list-version db k k,
)

pub push_each-version :
    (lr : LeftRight) (k : String) (vs : List String) (db : RedisDb) (n : ℕ)
    → version db k + length vs < 2 ^ 64
    → version (push_each lr db k vs n).0 k ≡ version db k + length vs
unfolding push_each
push_each-version lr k [] db n small = omega arith
push_each-version lr k (v ∷ vs) db n small =
    let step = push_side-version lr db k v (omega arith) in
    omega (
      arith,
      step,
      push_each-version lr k vs (push_side lr db k v).0 (push_side lr db k v).1
          (omega (arith, step)),
    )
