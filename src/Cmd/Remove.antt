-- ===== src/Cmd/Remove.antt =====
-- LREM of cmd_list.go against what it promises.
use mathlib.Core.List.{reverse}
use rediqueue.Base.{
  ℕ, zero, suc, ◌+◌, ◌≡◌, refl, ap, ◌∙◌, String, List, [], ◌∷◌, Option, none, some, length, ◌==◌,
  string_eq, if◌then◌else◌, Returns-bind, arith, ◌≤◌, true, false, Bool-cases, inl, inr,
  reverse_slice, ltb,
}
use rediqueue.Base.Int.{ℤ, pos, negsuc, max_int, pos_part, neg_part, ltb_ℤ, add_int, neg_int}
use rediqueue.Base.Reverse.{reverse_slice_lem}
use rediqueue.Reply.{int}
use rediqueue.Db.{RedisDb}
use rediqueue.Db.Keyspace.{Value, list, set, Keyspace, Represents, tag_of, list_part}
use rediqueue.Db.Refine.{put_list, elements, store_bump_or_del-Represents}
use rediqueue.Cmd.Lists.{lrem, lrem_list, lrem_loop, to_delete_of}
use rediqueue.Cmd.ListSpec.{Promise, Keeps, refused}

-- The list without the first `n` elements that are the value, and how many there were.
abbrev pub without_first : ℕ → String → List String → List String × ℕ
without_first n value [] = ([], 0)
without_first zero value (x ∷ l) = (x ∷ l, 0)
without_first (suc n) value (x ∷ l) =
    let (kept, k) = without_first (if x == value then n else suc n) value l in
    if x == value then (kept, suc k) else (x ∷ kept, k)

-- LREM: a positive count removes from the head on, a negative one from the end, and 0 all.
abbrev pub removed : ℤ → String → List String → List String × ℕ
removed (pos zero) value l = without_first (length l) value l
removed (pos (suc n)) value l = without_first (suc n) value l
removed (negsuc n) value l =
    let (kept, k) = without_first (suc n) value (reverse l) in (reverse kept, k)

abbrev pub lrem_at : Keyspace → String → ℤ → String → Option Value → Promise
lrem_at ks key count value none = (ks, int (pos 0) ∷ [])
lrem_at ks key count value (some (list l)) =
    (put_list ks key (removed count value l).0, int (pos (removed count value l).1) ∷ [])
lrem_at ks key count value (some (set s)) = refused ks

to_delete_suc : (n : ℕ) → suc n ≤ max_int → add_int (pos (suc n)) (negsuc 0) ≡ pos n
unfolding add_int
to_delete_suc n h = ground arith

without_none : (value : String) (l : List String) → without_first zero value l ≡ (l, 0)
without_none value [] = refl
without_none value (x ∷ l) = refl

positive : (n : ℕ) → ltb 0 (suc n + 0) ≡ true
positive n = ground arith

lrem_loop_lem :
    (value : String) (n : ℕ) (l : List String)
    → n ≤ max_int
    → lrem_loop value (pos n) l ≡ without_first n value l
unfolding lrem_loop
lrem_loop_lem value zero [] h = refl
lrem_loop_lem value (suc n) [] h = refl
lrem_loop_lem value zero (x ∷ l) h =
    let rest : lrem_loop value (pos 0) l ≡ (l, 0) =
      lrem_loop_lem value zero l h ∙ without_none value l in
    elim (Bool-cases (x == value)) [
      | inl hit ↦ rw (hit, rest) refl
      | inr miss ↦ rw (miss, rest) refl
    ]
lrem_loop_lem value (suc n) (x ∷ l) h = elim (Bool-cases (x == value)) [
  | inl hit ↦ rw (hit, positive n, to_delete_suc n h, lrem_loop_lem value n l (omega arith)) refl
  | inr miss ↦ rw (miss, lrem_loop_lem value (suc n) l h) refl
]

to_delete_zero : (n : ℕ) → to_delete_of (pos 0) n ≡ pos n
unfolding to_delete_of
to_delete_zero n = refl

to_delete_pos : (n len : ℕ) → to_delete_of (pos (suc n)) len ≡ pos (suc n)
unfolding to_delete_of
to_delete_pos n len = ground arith

to_delete_neg : (n len : ℕ) → suc n ≤ max_int → to_delete_of (negsuc n) len ≡ pos (suc n)
unfolding to_delete_of neg_int
to_delete_neg n len h = ground arith

is_pos : (n : ℕ) → ltb_ℤ (pos n) (pos 0) ≡ false
is_pos n = ground arith

is_neg : (n : ℕ) → ltb_ℤ (negsuc n) (pos 0) ≡ true
is_neg n = ground arith

-- The loop, with its reversals, removes what the count asks for.
lrem_list_lem :
    (count : ℤ) (value : String) (l : List String)
    → pos_part count ≤ max_int
    → neg_part count ≤ max_int
    → length l ≤ max_int
    → lrem_list count value l ≡ removed count value l
unfolding lrem_list
lrem_list_lem (pos zero) value l hp hn hl =
    rw (to_delete_zero (length l)) (lrem_loop_lem value (length l) l hl)
lrem_list_lem (pos (suc n)) value l hp hn hl =
    rw (is_pos (suc n), to_delete_pos n (length l)) (lrem_loop_lem value (suc n) l hp)
lrem_list_lem (negsuc n) value l hp hn hl =
    rw
      (
        is_neg n,
        to_delete_neg n (length (reverse_slice l)) hn,
        reverse_slice_lem l,
        lrem_loop_lem value (suc n) (reverse l) hn,
      )
      (ap (λ kept. (kept, (without_first (suc n) value (reverse l)).1))
        (reverse_slice_lem (without_first (suc n) value (reverse l)).0))

module _ (db : RedisDb) (ks : Keyspace) (key : String) (r : Represents db ks) where
  lrem-at :
      (count : ℤ) (value : String) (o : Option Value)
      → ks key ≡ o
      → pos_part count ≤ max_int
      → neg_part count ≤ max_int
      → length (elements o) ≤ max_int
      → Keeps (lrem key count value db) (lrem_at ks key count value o)
  unfolding lrem
  lrem-at count value none e hp hn hl = rw (r.tags key ∙ ap tag_of e, lrem) (r, refl)
  lrem-at count value (some (set s)) e hp hn hl = rw (r.tags key ∙ ap tag_of e, lrem) (r, refl)
  lrem-at count value (some (list l)) e hp hn hl =
      rw
        (
          r.tags key ∙ ap tag_of e,
          lrem,
          r.lists key ∙ ap list_part e,
          lrem_list_lem count value l hp hn hl,
        )
        (Returns-bind (λ db'. Represents db' (put_list ks key (removed count value l).0)) _ _ _
          (store_bump_or_del-Represents db ks key r e (removed count value l).0)
          (λ db' z. (z, refl)))

  -- On a database that the view represents, LREM removes the first `count` occurrences of the value, the last ones
  -- where `count` is negative and all where it is 0, keeps the others in their order, and replies with how many it
  -- has removed; a list with none left is deleted. At a missing key it replies 0 and at a set WRONGTYPE. The length
  -- of the list is an `int`, and the count is one whose negation is.
  pub lrem-Keeps :
      (count : ℤ) (value : String)
      → pos_part count ≤ max_int
      → neg_part count ≤ max_int
      → length (elements (ks key)) ≤ max_int
      → Keeps (lrem key count value db) (lrem_at ks key count value (ks key))
  lrem-Keeps count value = lrem-at count value (ks key) refl
