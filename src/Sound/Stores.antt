-- ===== src/Sound/Stores.antt =====
-- SDIFF, SINTER, SUNION and their STORE forms (cmd_set.go) keep a valid database valid and write one reply each.
use rediqueue.Base.{
  suc, ◌+◌, ◌≡◌, refl, sym, ap, ◌∙◌, String, Bool, true, false, List, [], ◌∷◌, map, Option, none,
  some, length, arith, eq_iff, string_eq, Returns-bind, if◌then◌else◌,
}
use rediqueue.Base.Int.{int_eq}
use rediqueue.Base.Dict
use rediqueue.Base.Dict.{Dict, lookup}
use rediqueue.Reply.{Frame, bulk}
use rediqueue.Db.{RedisDb, SetKey}
use rediqueue.Db.Keyspace.{set, Represents, put, remove}
use rediqueue.Db.Refine.{del-Represents}
use rediqueue.Db.RefineSets.{set_set-Represents}
use rediqueue.Db.Sets.{
  is_foreign, SetResult, set_ok, wrong_type, no_keys, to_result, set_diff, set_inter, set_union,
}
use rediqueue.Cmd.Framing.{owed, owed-bulks, IsReply}
use rediqueue.Cmd.Sets.{
  write_set, store_result, sdiff, sdiffstore, sinter, sinterstore, sunion, sunionstore,
}
use rediqueue.Sound.{Valid, Sound, Full-remove, Full-put-set}

length-keys : (s : SetKey) → length (Dict.keys s) ≡ length s
length-keys [] = refl
length-keys ((k, u) ∷ s) = ap suc (length-keys s)

-- A result that is a set or ErrWrongType.
abbrev Given : SetResult → Type 0
Given no_keys = ⊥
Given wrong_type = Unit
Given (set_ok s) = Unit

write_set-Sound :
    (range : List String → List String) (db : RedisDb) (res : SetResult)
    → ((l : List String) → length (range l) ≡ length l)
    → Given res
    → Valid db
    → Sound (write_set range db res)
unfolding write_set owed Sound
write_set-Sound range db no_keys keeps g v = absurd g
write_set-Sound range db wrong_type keeps g v = (v, refl)
write_set-Sound range db (set_ok s) keeps g v = (
  v,
  ap (λ n. owed (n + 0) (map bulk (range (Dict.keys s))))
        (sym (keeps (Dict.keys s) ∙ length-keys s))
      ∙ owed-bulks 0 (range (Dict.keys s)),
)

store_result-Sound :
    (dest : String) (db : RedisDb) (res : SetResult)
    → Given res
    → Valid db
    → Sound (store_result dest db res)
unfolding store_result owed Sound Valid
store_result-Sound dest db no_keys g v = absurd g
store_result-Sound dest db wrong_type g v = (v, refl)
store_result-Sound dest db (set_ok s) g (ks, r, full) =
    Returns-bind {B = RedisDb × List Frame} (λ db'. Represents db' (remove ks dest))
      (λ res. Valid res.0 × IsReply res.1) _ _ (del-Represents db ks dest r)
      (λ db' q. (
        (
          put (remove ks dest) dest (set s),
          set_set-Represents db' (remove ks dest) dest q s (ground (arith, eq_iff dest dest)),
          Full-put-set (remove ks dest) dest s (Full-remove ks dest full),
        ),
        refl,
      ))

if-Given : (b : Bool) (res : SetResult) → Given res → Given (if b then wrong_type else res)
if-Given true res g = tt
if-Given false res g = g

to_result-Given : (o : Option SetKey) → Given (to_result o)
to_result-Given none = tt
to_result-Given (some s) = tt

set_diff-Given :
    (db : RedisDb) (key : String) (keys : List String) → Given (set_diff db (key ∷ keys))
unfolding set_diff
set_diff-Given db key keys = if-Given (is_foreign db key) _ (to_result-Given _)

set_inter-Given :
    (db : RedisDb) (key : String) (keys : List String) → Given (set_inter db (key ∷ keys))
unfolding set_inter
set_inter-Given db key keys = if-Given (is_foreign db key) _ tt

set_union-Given :
    (db : RedisDb) (key : String) (keys : List String) → Given (set_union db (key ∷ keys))
unfolding set_union
set_union-Given db key keys = if-Given (is_foreign db key) _ (to_result-Given _)

pub sdiff-Sound :
    (range : List String → List String) (key : String) (keys : List String) (db : RedisDb)
    → ((l : List String) → length (range l) ≡ length l)
    → Valid db
    → Sound (sdiff range (key ∷ keys) db)
unfolding sdiff
sdiff-Sound range key keys db keeps = write_set-Sound range db _ keeps (set_diff-Given db key keys)

pub sdiffstore-Sound :
    (dest key : String) (keys : List String) (db : RedisDb)
    → Valid db
    → Sound (sdiffstore dest (key ∷ keys) db)
unfolding sdiffstore
sdiffstore-Sound dest key keys db = store_result-Sound dest db _ (set_diff-Given db key keys)

pub sinter-Sound :
    (range : List String → List String) (key : String) (keys : List String) (db : RedisDb)
    → ((l : List String) → length (range l) ≡ length l)
    → Valid db
    → Sound (sinter range (key ∷ keys) db)
unfolding sinter
sinter-Sound range key keys db keeps =
    write_set-Sound range db _ keeps (set_inter-Given db key keys)

pub sinterstore-Sound :
    (dest key : String) (keys : List String) (db : RedisDb)
    → Valid db
    → Sound (sinterstore dest (key ∷ keys) db)
unfolding sinterstore
sinterstore-Sound dest key keys db = store_result-Sound dest db _ (set_inter-Given db key keys)

pub sunion-Sound :
    (range : List String → List String) (key : String) (keys : List String) (db : RedisDb)
    → ((l : List String) → length (range l) ≡ length l)
    → Valid db
    → Sound (sunion range (key ∷ keys) db)
unfolding sunion
sunion-Sound range key keys db keeps =
    write_set-Sound range db _ keeps (set_union-Given db key keys)

pub sunionstore-Sound :
    (dest key : String) (keys : List String) (db : RedisDb)
    → Valid db
    → Sound (sunionstore dest (key ∷ keys) db)
unfolding sunionstore
sunionstore-Sound dest key keys db = store_result-Sound dest db _ (set_union-Given db key keys)
