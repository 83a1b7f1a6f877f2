-- ===== src/Cmd/Insert.antt =====
-- LINSERT of cmd_list.go against what it promises.
use rediqueue.Base.{
  ℕ, suc, ◌-◌, ◌≡◌, refl, ap, ◌∙◌, false, Bool-cases, String, List, [], ◌∷◌, Option, none, some,
  length, ◌==◌, string_eq, nat_eq, arith, subst, if◌then◌else◌, get_or, inl, inr, ◌>>=◌,
}
use rediqueue.Base.Int.{ℤ, pos, negsuc}
use rediqueue.Reply.{int}
use rediqueue.Db.{RedisDb}
use rediqueue.Db.Keyspace.{Value, list, set, Keyspace, Represents, put, tag_of, list_part}
use rediqueue.Db.Refine.{store_list-Represents, bump-Represents}
use rediqueue.Cmd.Lists.{linsert, find_index, insert_at}
use rediqueue.Cmd.ListSpec.{Promise, Keeps, refused}

-- Where the value goes.
pub data Side : Type 0 where
  before after : Side

-- The `where` of the code.
abbrev pub offset_of : Side → ℤ
offset_of before = negsuc 0
offset_of after = pos 1

abbrev pub beside : Side → String → String → List String → List String
beside before x value l = value ∷ x ∷ l
beside after x value l = x ∷ value ∷ l

abbrev pub behind : String → Option (List String) → Option (List String)
behind x none = none
behind x (some l) = some (x ∷ l)

-- The value beside the first element that is the pivot.
abbrev pub inserted : Side → String → String → List String → Option (List String)
inserted side pivot value [] = none
inserted side pivot value (x ∷ l) =
    let rest = inserted side pivot value l in
    if x == pivot then some (beside side x value l) else behind x rest

abbrev inserted_code : Side → String → String → List String → Option (List String)
inserted_code side pivot value l = do
  i ← find_index pivot l
  some (insert_at (offset_of side) i value l)

inner_first : (n : ℕ) → (0 == suc (suc n) - 1) ≡ false
inner_first n = ground arith

last_suc : (i n : ℕ) → (suc i == suc (suc n) - 1) ≡ (i == suc n - 1)
last_suc i n = ground arith

insert_here :
    (side : Side) (x value : String) (l : List String)
    → insert_at (offset_of side) 0 value (x ∷ l) ≡ beside side x value l
unfolding insert_at
insert_here before x value l = refl
insert_here after x value [] = refl
insert_here after x value (y ∷ l) = rw (inner_first (length l)) refl

insert_later :
    (side : Side) (i : ℕ) (x y value : String) (l : List String)
    → insert_at (offset_of side) (suc i) value (x ∷ y ∷ l)
      ≡ x ∷ insert_at (offset_of side) i value (y ∷ l)
unfolding insert_at
insert_later before i x y value l = refl
insert_later after i x y value l =
    rw (last_suc i (length l)) (elim (Bool-cases (i == suc (length l) - 1)) [
      | inl last ↦ rw last refl
      | inr inner ↦ rw inner refl
    ])

all_later :
    (side : Side) (x y value : String) (l : List String) (o : Option ℕ)
    → ((o >>= (λ i. some (suc i))) >>= (λ i. some (insert_at (offset_of side) i value (x ∷ y ∷ l))))
      ≡ behind x (o >>= (λ i. some (insert_at (offset_of side) i value (y ∷ l))))
all_later side x y value l none = refl
all_later side x y value l (some i) = ap (λ m. some m) (insert_later side i x y value l)

-- The search and the splice put the value beside the first pivot.
inserted_lem :
    (side : Side) (pivot value : String) (l : List String)
    → inserted_code side pivot value l ≡ inserted side pivot value l
unfolding find_index
inserted_lem side pivot value [] = refl
inserted_lem side pivot value (x ∷ []) = elim (Bool-cases (x == pivot)) [
  | inl hit ↦ rw hit (ap (λ m. some m) (insert_here side x value []))
  | inr miss ↦ rw miss refl
]
inserted_lem side pivot value (x ∷ y ∷ l) = elim (Bool-cases (x == pivot)) [
  | inl hit ↦ rw hit (ap (λ m. some m) (insert_here side x value (y ∷ l)))
  | inr miss ↦ rw miss (
      all_later side x y value l (find_index pivot (y ∷ l))
      ∙ ap (behind x) (inserted_lem side pivot value (y ∷ l)))
]

abbrev pub spliced : Keyspace → String → Option (List String) → Promise
spliced ks key none = (ks, int (negsuc 0) ∷ [])
spliced ks key (some l) = (put ks key (list l), int (pos (length l)) ∷ [])

abbrev pub linsert_at : Keyspace → String → Side → String → String → Option Value → Promise
linsert_at ks key side pivot value none = (ks, int (pos 0) ∷ [])
linsert_at ks key side pivot value (some (list l)) = spliced ks key (inserted side pivot value l)
linsert_at ks key side pivot value (some (set s)) = refused ks

module _ (db : RedisDb) (ks : Keyspace) (key : String) (r : Represents db ks) where
  spliced-at :
      (side : Side) (pivot value : String) (l : List String) (o : Option ℕ)
      → ks key ≡ some (list l)
      → find_index pivot l ≡ o
      → Keeps
          (linsert key (offset_of side) pivot value db)
          (spliced ks key (o >>= (λ i. some (insert_at (offset_of side) i value l))))
  unfolding linsert
  spliced-at side pivot value l none e found =
      rw
        (
          r.tags key ∙ ap tag_of e,
          linsert,
          ap (λ m. get_or m []) (r.lists key ∙ ap list_part e),
          found,
        )
        (r, refl)
  spliced-at side pivot value l (some i) e found =
      let here = ap (λ m. get_or m []) (r.lists key ∙ ap list_part e) in
      rw (r.tags key ∙ ap tag_of e, linsert, here, found, here)
        (
          bump-Represents key
              (store_list-Represents db ks key r (insert_at (offset_of side) i value l) e),
          refl,
        )

  linsert-at :
      (side : Side) (pivot value : String) (o : Option Value)
      → ks key ≡ o
      → Keeps (linsert key (offset_of side) pivot value db) (linsert_at ks key side pivot value o)
  unfolding linsert
  linsert-at side pivot value none e = rw (r.tags key ∙ ap tag_of e, linsert) (r, refl)
  linsert-at side pivot value (some (set s)) e = rw (r.tags key ∙ ap tag_of e, linsert) (r, refl)
  linsert-at side pivot value (some (list l)) e =
      subst (λ o. Keeps (linsert key (offset_of side) pivot value db) (spliced ks key o))
        (inserted_lem side pivot value l) (spliced-at side pivot value l _ e refl)

  -- On a database that the view represents, LINSERT puts the value before or after the first element that is the pivot,
  -- keeps the others in their order, and replies with the new length; where no element is the pivot it replies -1 and
  -- changes nothing. At a missing key it replies 0 and at a set WRONGTYPE.
  pub linsert-Keeps :
      (side : Side) (pivot value : String)
      → Keeps
          (linsert key (offset_of side) pivot value db)
          (linsert_at ks key side pivot value (ks key))
  linsert-Keeps side pivot value = linsert-at side pivot value (ks key) refl
