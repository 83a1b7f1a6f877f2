-- ===== src/Tests/Dbs.antt =====
-- The commands on a small database.
use rediqueue.Base.{
  String, ◌||◌, ◌+◌, length, not, ◌&&◌, Bool-cases, differ, inl, inr, subst, ◌≡◌, ◌≢◌, refl, [],
  ◌∷◌, none, some, arith, Returns, eq_iff, ◌==◌, string_eq, if◌then◌else◌,
}
use rediqueue.Base.Int.{pos, negsuc}
use rediqueue.Base.Dict.{lookup}
use rediqueue.Db.{SetKey, RedisDb, rename}
use rediqueue.Db.Sets.{set_add, member}
use rediqueue.Db.Members.{listed, fresh_in}
use rediqueue.Db.Keyspace.{list, set, Keyspace, Represents, put, remove, set_part}
use rediqueue.Db.RefineSets.{set_add-Represents, rename-Represents, rename_self, members}
use rediqueue.Db.Algebra.{
  Answers, any_list, in_set, in_any, in_all, is_list, set_diff-Answers, set_union-Answers,
  set_inter-Answers,
}
use rediqueue.Db.Sets.{set_diff, set_union, set_inter}
use rediqueue.Cmd.Lists.{
  linsert, left, right, xpush, xpop, rpoplpush, lindex, lset, lrange, ltrim, lrem,
}
use rediqueue.Cmd.ListSpec.{Keeps, xpush_at, xpop_at, rotated, lindex_at, lset_at}
use rediqueue.Cmd.Push.{xpush-Keeps}
use rediqueue.Cmd.Blocking.{bxpop}
use rediqueue.Cmd.Waits.{KeepsTry, bxpop_at, bxpop-Keeps}
use rediqueue.Cmd.Pop.{xpop-Keeps, rpoplpush-Keeps}
use rediqueue.Cmd.Index.{lindex-Keeps, lset-Keeps}
use rediqueue.Cmd.Slices.{lrange-Keeps, ltrim-Keeps, lrange_at, ltrim_at}
use rediqueue.Cmd.Insert.{linsert-Keeps, linsert_at, offset_of, after}
use rediqueue.Cmd.Remove.{lrem-Keeps, lrem_at}

-- A list at "l" and a set at "s".
abbrev pub two_keys : RedisDb
two_keys = record {
  id = pos 0;
  keys = ("l", "list") ∷ ("s", "set") ∷ [];
  list_keys = ("l", "a" ∷ "b" ∷ "a" ∷ []) ∷ [];
  set_keys = ("s", ("x", tt) ∷ []) ∷ [];
  key_version = ("l", 3) ∷ [];
}

abbrev pub view : Keyspace
view k =
    if "l" == k
    then some (list ("a" ∷ "b" ∷ "a" ∷ []))
    else if "s" == k
    then some (set (("x", tt) ∷ []))
    else none

pub seen : Represents two_keys view
unfolding lookup
seen = record {
  tags = λ k. ground (arith, eq_iff "l" k, eq_iff "s" k);
  lists = λ k. ground (arith, eq_iff "l" k, eq_iff "s" k);
  sets = λ k. elim (Bool-cases ("l" == k)) [
    | inl same ↦
        subst (λ j. lookup two_keys.set_keys j ≡ set_part (view j))
          ((string_eq.beq_iff "l" k).0 same) refl
    | inr other ↦
        rw other
          (elim (Bool-cases ("s" == k)) [ inl here ↦ rw here refl | inr gone ↦ rw gone refl ])
  ];
}

set_add-Represents_example :
    (s : SetKey) × Represents (set_add two_keys "s" ("y" ∷ "x" ∷ "y" ∷ [])).0 (put view "s" (set s))
    × ((e : String)
        → member s e ≡ (member (members (view "s")) e || listed ("y" ∷ "x" ∷ "y" ∷ []) e))
    × ((set_add two_keys "s" ("y" ∷ "x" ∷ "y" ∷ [])).1
        ≡ fresh_in (members (view "s")) ("y" ∷ "x" ∷ "y" ∷ []))
    × (length s ≡ (set_add two_keys "s" ("y" ∷ "x" ∷ "y" ∷ [])).1 + length (members (view "s")))
set_add-Represents_example = set_add-Represents two_keys view "s" seen ("y" ∷ "x" ∷ "y" ∷ []) refl

one_fresh : fresh_in (members (view "s")) ("y" ∷ "x" ∷ "y" ∷ []) ≡ 1
unfolding member lookup
one_fresh = refl

rename-Represents_example :
    Returns
      (rename two_keys "l" "s")
      (λ db'. Represents db' (remove (put view "s" (list ("a" ∷ "b" ∷ "a" ∷ []))) "l"))
rename-Represents_example =
    rename-Represents two_keys view "l" "s" (list ("a" ∷ "b" ∷ "a" ∷ [])) seen (differ "l" "s" refl)
      refl

rename_self_example : rename two_keys "l" "l" ≡ none
rename_self_example = rename_self two_keys view "l" seen

xpush-Keeps_example :
    Keeps
      (xpush left "l" ("c" ∷ "d" ∷ []) two_keys)
      (xpush_at left view "l" ("c" ∷ "d" ∷ []) (view "l"))
xpush-Keeps_example = xpush-Keeps left two_keys view "l" "c" ("d" ∷ []) seen

xpop-Keeps_example : Keeps (xpop right "l" two_keys) (xpop_at right view "l" (view "l"))
xpop-Keeps_example = xpop-Keeps two_keys view "l" seen right (λ e. cc)

view_full : (k : String) → view k ≢ some (list [])
view_full k = ground arith

bxpop-Keeps_example :
    KeepsTry
      (bxpop left ("m" ∷ "l" ∷ "s" ∷ []) two_keys)
      (bxpop_at left view ("m" ∷ "l" ∷ "s" ∷ []))
bxpop-Keeps_example = bxpop-Keeps left two_keys view seen ("m" ∷ "l" ∷ "s" ∷ []) view_full

rpoplpush-Keeps_example :
    Keeps (rpoplpush "l" "m" two_keys) (rotated view "l" "m" ("a" ∷ "b" ∷ []) "a")
rpoplpush-Keeps_example = rpoplpush-Keeps two_keys view "l" "m" seen ("a" ∷ "b" ∷ []) "a" refl refl

lindex-Keeps_example : Keeps (lindex "l" (negsuc 1) two_keys) (lindex_at view (negsuc 1) (view "l"))
lindex-Keeps_example = lindex-Keeps two_keys view "l" seen (negsuc 1) (ground arith) (omega arith)

lset-Keeps_example :
    Keeps (lset "l" (negsuc 0) "z" two_keys) (lset_at view "l" (negsuc 0) "z" (view "l"))
lset-Keeps_example = lset-Keeps two_keys view "l" seen (negsuc 0) "z" (ground arith) (omega arith)

lrange-Keeps_example :
    Keeps (lrange "l" (pos 1) (negsuc 0) two_keys) (lrange_at view (pos 1) (negsuc 0) (view "l"))
lrange-Keeps_example =
    lrange-Keeps two_keys view "l" seen (pos 1) (negsuc 0) (ground arith) (ground arith)
      (λ e. ground arith) (omega arith)

ltrim-Keeps_example :
    Keeps (ltrim "l" (pos 1) (pos 1) two_keys) (ltrim_at view "l" (pos 1) (pos 1) (view "l"))
ltrim-Keeps_example =
    ltrim-Keeps two_keys view "l" seen (pos 1) (pos 1) (ground arith) (ground arith)
      (λ e. ground arith) (omega arith)

lrem-Keeps_example :
    Keeps (lrem "l" (negsuc 0) "a" two_keys) (lrem_at view "l" (negsuc 0) "a" (view "l"))
lrem-Keeps_example =
    lrem-Keeps two_keys view "l" seen (negsuc 0) "a" (omega arith) (omega arith) (omega arith)

set_diff-Answers_example :
    Answers
      (any_list view ("s" ∷ "m" ∷ []))
      (set_diff two_keys ("s" ∷ "m" ∷ []))
      (λ e. in_set (view "s") e && not (in_any view ("m" ∷ []) e))
set_diff-Answers_example = set_diff-Answers two_keys view seen "s" ("m" ∷ [])

set_union-Answers_example :
    Answers
      (any_list view ("s" ∷ "l" ∷ []))
      (set_union two_keys ("s" ∷ "l" ∷ []))
      (in_any view ("s" ∷ "l" ∷ []))
set_union-Answers_example = set_union-Answers two_keys view seen "s" ("l" ∷ [])

set_inter-Answers_example :
    Answers
      (is_list (view "s"))
      (set_inter two_keys ("s" ∷ "m" ∷ []))
      (λ e. in_set (view "s") e && in_all view ("m" ∷ []) e)
set_inter-Answers_example = set_inter-Answers two_keys view seen "s" ("m" ∷ [])

linsert-Keeps_example :
    Keeps
      (linsert "l" (offset_of after) "b" "z" two_keys)
      (linsert_at view "l" after "b" "z" (view "l"))
linsert-Keeps_example = linsert-Keeps two_keys view "l" seen after "b" "z"

abbrev one_member : SetKey
one_member = ("x", tt) ∷ []
