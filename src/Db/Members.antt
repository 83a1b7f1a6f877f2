-- ===== src/Db/Members.antt =====
-- The members of the sets that the loops of setDiff, setInter and setUnion make.
use rediqueue.Base.{
  ℕ, ◌+◌, length, ◌≡◌, refl, ap, sym, ◌∙◌, Bool, false, not, ◌&&◌, ◌||◌, String, List, [], ◌∷◌,
  ◌==◌, string_eq, eq_iff, arith, if◌then◌else◌, Bool-cases, inl, inr,
}
use rediqueue.Base.Dict
use rediqueue.Base.Dict.{lookup, insert, delete, lookup-insert, lookup-delete}
use rediqueue.Db.{SetKey}
use rediqueue.Db.Sets.{member, add, copy_from, delete_from, keep_in, add_all, remove_all}

abbrev pub listed : List String → String → Bool
listed [] e = false
listed (x ∷ xs) e = x == e || listed xs e

member-add : (s : SetKey) (x e : String) → member (add s x) e ≡ (x == e || member s e)
unfolding member
member-add s x e =
    rw (lookup-insert s x e tt)
      (elim (Bool-cases (x == e)) [ inl same ↦ rw same refl | inr other ↦ rw other refl ])

member-delete : (s : SetKey) (x e : String) → member (delete s x) e ≡ (not (x == e) && member s e)
unfolding member
member-delete s x e =
    rw (lookup-delete s x e)
      (elim (Bool-cases (x == e)) [ inl same ↦ rw same refl | inr other ↦ rw other refl ])

pub listed-keys : (s : SetKey) (e : String) → listed (Dict.keys s) e ≡ member s e
unfolding member lookup
listed-keys [] e = refl
listed-keys ((x, u) ∷ s) e = elim (Bool-cases (x == e)) [
  | inl same ↦ rw same refl
  | inr other ↦ rw other (listed-keys s e)
]

pub member-copy_from :
    (s : SetKey) (es : List String) (e : String)
    → member (copy_from s es) e ≡ (member s e || listed es e)
unfolding copy_from
member-copy_from s [] e = ground arith
member-copy_from s (x ∷ es) e = ground (arith, member-copy_from (add s x) es e, member-add s x e)

pub member-delete_from :
    (s : SetKey) (es : List String) (e : String)
    → member (delete_from s es) e ≡ (member s e && not (listed es e))
unfolding delete_from
member-delete_from s [] e = ground arith
member-delete_from s (x ∷ es) e =
    ground (arith, member-delete_from (delete s x) es e, member-delete s x e)

pub member-keep_in :
    (s : SetKey) (es : List String) (other : SetKey) (e : String)
    → member (keep_in s es other) e ≡ (member s e && (not (listed es e) || member other e))
unfolding keep_in
member-keep_in s [] other e = ground arith
member-keep_in s (x ∷ es) other e = elim (Bool-cases (member other x)) [
  | inl kept ↦ rw kept (ground (arith, member-keep_in s es other e, kept, eq_iff x e))
  | inr gone ↦ rw gone (
      ground (arith, member-keep_in (delete s x) es other e, member-delete s x e, gone, eq_iff x e))
]

length-add : (s : SetKey) (x : String) → length (add s x) ≡ (if member s x then 0 else 1) + length s
unfolding member insert lookup
length-add [] x = refl
length-add ((y, u) ∷ s) x = elim (Bool-cases (y == x)) [
  | inl same ↦ rw same (omega arith)
  | inr other ↦ rw other (ground (arith, length-add s x))
]

-- The loop of `setAdd`: the members afterwards are those before and the given ones, and the number that is returned is the
-- number by which the set has grown, also where a member is given twice or was there.
pub add_all_lem :
    (s : SetKey) (elems : List String)
    → ((e : String) → member (add_all s elems).0 e ≡ (member s e || listed elems e))
      × (length (add_all s elems).0 ≡ (add_all s elems).1 + length s)
unfolding add_all
add_all_lem s [] = (λ e. ground arith, omega arith)
add_all_lem s (x ∷ elems) =
    let rest = add_all_lem (add s x) elems in
    (λ e. ground (arith, rest.0 e, member-add s x e), omega (arith, rest.1, length-add s x))

-- The loop of `setRem`: the members afterwards are those before that are not among the given ones.
pub remove_all_lem :
    (s : SetKey) (fields : List String) (e : String)
    → member (remove_all s fields).0 e ≡ (member s e && not (listed fields e))
unfolding remove_all
remove_all_lem s [] e = ground arith
remove_all_lem s (x ∷ fields) e = elim (Bool-cases (member s x)) [
  | inl there ↦ rw there (ground (arith, remove_all_lem (delete s x) fields e, member-delete s x e))
  | inr missing ↦ rw missing (ground (arith, remove_all_lem s fields e, missing, eq_iff x e))
]

-- How many of the elements are new to the set; one that comes again counts once, at its last place.
abbrev pub fresh_in : SetKey → List String → ℕ
fresh_in s [] = 0
fresh_in s (x ∷ elems) = (if member s x || listed elems x then 0 else 1) + fresh_in s elems

fresh_in-add :
    (s : SetKey) (x : String) (elems : List String)
    → fresh_in s (x ∷ elems) ≡ (if member s x then 0 else 1) + fresh_in (add s x) elems
fresh_in-add s x [] = ground arith
fresh_in-add s x (y ∷ elems) = elim (Bool-cases (y == x)) [
  | inl same ↦
      rw ((eq_iff y x).0 same)
        (ground (arith, eq_iff x x, member-add s x x, fresh_in-add s x elems))
  | inr other ↦
      ground (arith, eq_iff x y, eq_iff y x, other, member-add s x y, fresh_in-add s x elems)
]

-- The number that the loop of `setAdd` returns.
pub add_all-fresh_in : (s : SetKey) (elems : List String) → (add_all s elems).1 ≡ fresh_in s elems
unfolding add_all
add_all-fresh_in s [] = refl
add_all-fresh_in s (x ∷ elems) =
    ap (λ n. (if member s x then 0 else 1) + n) (add_all-fresh_in (add s x) elems)
    ∙ sym (fresh_in-add s x elems)

-- How many of the elements are in the set; one that comes again counts once, at its last place.
abbrev pub held_in : SetKey → List String → ℕ
held_in s [] = 0
held_in s (x ∷ fields) = (if member s x && not (listed fields x) then 1 else 0) + held_in s fields

held_in-delete :
    (s : SetKey) (x : String) (fields : List String)
    → held_in s (x ∷ fields) ≡ (if member s x then 1 else 0) + held_in (delete s x) fields
held_in-delete s x [] = ground arith
held_in-delete s x (y ∷ fields) = elim (Bool-cases (y == x)) [
  | inl same ↦
      rw ((eq_iff y x).0 same)
        (ground (arith, eq_iff x x, member-delete s x x, held_in-delete s x fields))
  | inr other ↦
      ground (arith, eq_iff x y, eq_iff y x, other, member-delete s x y, held_in-delete s x fields)
]

-- The number that the loop of `setRem` returns.
pub remove_all-held_in :
    (s : SetKey) (fields : List String) → (remove_all s fields).1 ≡ held_in s fields
unfolding remove_all
remove_all-held_in s [] = refl
remove_all-held_in s (x ∷ fields) = elim (Bool-cases (member s x)) [
  | inl there ↦
      rw there
        (ground (arith, remove_all-held_in (delete s x) fields, held_in-delete s x fields, there))
  | inr missing ↦ rw missing (ground (arith, remove_all-held_in s fields, missing))
]
