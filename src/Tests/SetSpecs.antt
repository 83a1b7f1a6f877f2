-- ===== src/Tests/SetSpecs.antt =====
-- The set commands, DEL, EXISTS and MOVE on a small database.
use rediqueue.Base.{
  String, List, ℕ, ap, ◌≢◌, arith, ◌≡◌, true, length, get_or, Option, not, ◌&&◌, refl, [], ◌∷◌,
  none, Returns,
}
use rediqueue.Base.Int.{pos, pos_part}
use rediqueue.Db.{new_redis_db, move}
use rediqueue.Db.Keyspace.{Keyspace, Represents, set, set_part}
use rediqueue.Db.Algebra.{any_list, is_list, in_set, in_any, in_all}
use rediqueue.Db.Moves.{Moves, move_at, move-Moves}
use rediqueue.Base.Dict.{lookup}
use rediqueue.Cmd.ListSpec.{Keeps}
use rediqueue.Cmd.Sets.{spop, sdiffstore, sinterstore, sunionstore, smove}
use rediqueue.Cmd.SetSpec.{Stores, store-Stores, SmoveKeeps, smove-Keeps}
use rediqueue.Cmd.Spop.{SpopKeeps, spop-Keeps}
use rediqueue.Cmd.Keys.{del_keys, exists_keys}
use rediqueue.Cmd.KeysSpec.{without, holding, holding_once, del_keys-Keeps}
use rediqueue.Reply.{int}
use rediqueue.Tests.Dbs.{two_keys, view, seen}

store-Stores_example :
    Stores
      (any_list view ("s" ∷ "m" ∷ []))
      (sdiffstore "l" ("s" ∷ "m" ∷ []) two_keys)
      view
      "l"
      (λ e. in_set (view "s") e && not (in_any view ("m" ∷ []) e))
    × Stores
        (is_list (view "s"))
        (sinterstore "l" ("s" ∷ "m" ∷ []) two_keys)
        view
        "l"
        (λ e. in_set (view "s") e && in_all view ("m" ∷ []) e)
    × Stores
        (any_list view ("s" ∷ "m" ∷ []))
        (sunionstore "l" ("s" ∷ "m" ∷ []) two_keys)
        view
        "l"
        (in_any view ("s" ∷ "m" ∷ []))
store-Stores_example = store-Stores two_keys view "l" seen "s" ("m" ∷ [])

smove-Keeps_example : SmoveKeeps (smove "s" "m" "x" two_keys) view "s" "m" "x" (view "s") (view "m")
smove-Keeps_example = smove-Keeps two_keys view "s" "m" "x" seen

has_member : view "s" ≢ Option.some (set [])
has_member e =
    let lengths : ◌≡◌ {A = ℕ} 1 0 = ap (λ o. length (get_or (set_part o) [])) e in
    omega (arith, lengths)

spop-Keeps_example :
    SpopKeeps (spop (λ i. i) "s" (pos 2) true two_keys) view "s" (pos_part (pos 2)) true (view "s")
spop-Keeps_example = spop-Keeps two_keys view "s" seen (λ i. i) (pos 2) true has_member

-- An empty database.
abbrev nothing : Keyspace
nothing k = none

empty_seen : Represents (new_redis_db (pos 1)) nothing
unfolding lookup
empty_seen = record { tags = λ k. refl; lists = λ k. refl; sets = λ k. refl }

move-Moves_example :
    Returns
      (move two_keys "l" (new_redis_db (pos 1)))
      (Moves (move_at view nothing "l" (view "l") (nothing "l")))
move-Moves_example = move-Moves two_keys (new_redis_db (pos 1)) view nothing "l" seen empty_seen

-- A key that comes twice and one that is missing.
abbrev named : List String
named = "s" ∷ "m" ∷ "s" ∷ []

del_keys-Keeps_example :
    Keeps (del_keys named two_keys) (without view named, int (pos (holding_once view named)) ∷ [])
    × Keeps (exists_keys named two_keys) (view, int (pos (holding view named)) ∷ [])
del_keys-Keeps_example = del_keys-Keeps two_keys view named seen

counts : (holding_once view named ≡ 1) × (holding view named ≡ 2)
counts = (refl, refl)
