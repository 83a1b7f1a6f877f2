-- ===== src/Sound/Elements.antt =====
-- The callbacks of cmd_list.go on the elements inside a list keep a valid database valid and write one reply each.
use rediqueue.Base.{
  ℕ, suc, ◌+◌, ◌-◌, ◌<◌, ◌≡◌, ◌≢◌, refl, ap, ◌∙◌, String, List, [], ◌∷◌, ◌++◌, map, Option, none,
  some, length, length-append, length-set, arith, string_eq, nat_eq, Returns-bind, set as set_elem,
  get_or, get_elem?-lt, Bool-cases, inl, inr, ◌==◌, take, drop, not, ◌||◌, if◌then◌else◌, ◌>>=◌,
}
use rediqueue.Base.Int.{ℤ, pos, negsuc, pos_part, ltb_ℤ, add_int}
use rediqueue.Reply.{Frame, array, bulk, int, ok}
use rediqueue.Db.{RedisDb, bump, list_at}
use rediqueue.Db.Lists.{store_list, store_bump_or_del}
use rediqueue.Db.Keyspace.{Value, list, set, Keyspace, Represents, put, tag_of, list_part, set_part}
use rediqueue.Db.Refine.{
  put_list, bump-Represents, store_list-Represents, store_bump_or_del-Represents,
}
use rediqueue.Db.RefineSets.{unsnoc-some}
use rediqueue.Cmd.Framing.{owed, owed-bulks, IsReply}
use rediqueue.Cmd.Lists.{
  reply, lindex, lset, set_index, write_index, list_index, lrange, ltrim, lrem, lrem_list, linsert,
  find_index, insert_at, rpoplpush,
}
use rediqueue.Cmd.ListSpec.{rotated}
use rediqueue.Cmd.Pop.{rpoplpush-Keeps, is_other-at}
use rediqueue.Sound.{Full, Valid, Sound, Keeps-Sound, Full-put, Full-put_list, Full-put_some}
use rediqueue.Sound.Lists.{Fine-Sound, longer, same-Sound}
use rediqueue.Sound.Ranges.{cut, slice-cut, size-cut}

inside :
    (n : ℕ) (o : ℤ) (i : ℕ)
    → (if ltb_ℤ o (pos 0) || not (ltb_ℤ o (pos n)) then none else some (pos_part o)) ≡ some i
    → i < n
inside n (pos a) i e = ground arith
inside n (negsuc a) i e = ground arith

-- An index that is found is in bounds, whatever the length is.
list_index-lt : (n : ℕ) (offset : ℤ) (i : ℕ) → list_index n offset ≡ some i → i < n
unfolding list_index
list_index-lt n offset i e =
    inside n (if ltb_ℤ offset (pos 0) then add_int (pos n) offset else offset) i e

insert_at-some : (n : ℤ) (i : ℕ) (value : String) (l : List String) → insert_at n i value l ≢ []
unfolding insert_at
insert_at-some n i value l = elim (Bool-cases (ltb_ℤ n (pos 0))) [
  | inl before ↦
      rw before
        (longer _ (take i l ++ (value ∷ drop i l)) (length-middle (take i l) value (drop i l)))
  | inr after ↦ elim (Bool-cases (i == length l - 1)) [
    | inl last ↦ rw (after, last) (longer _ (l ++ value ∷ []) (length-middle l value []))
    | inr other ↦
        rw (after, other)
          (longer _ (take (suc i) l ++ (value ∷ drop (suc i) l))
            (length-middle (take (suc i) l) value (drop (suc i) l)))
  ]
]
  where
    length-middle :
        (a : List String) (v : String) (b : List String)
        → length (a ++ (v ∷ b)) ≡ suc (length a + length b)
    length-middle a v b = omega (arith, length-append a (v ∷ b))

set-some : (l : List String) (i : ℕ) (v : String) → l ≢ [] → set_elem l i v ≢ []
set-some [] i v h = absurd (h refl)
set-some (x ∷ l) i v h = longer (length l) _ (length-set (x ∷ l) i v)

module _ (db : RedisDb) (ks : Keyspace) (key : String) (r : Represents db ks) (full : Full ks) where
  same : (f : Frame) → IsReply (f ∷ []) → Sound (reply db f)
  same = same-Sound db ks key r full

  write_index-Sound :
      (l : List String) (o : Option ℕ)
      → ((i : ℕ) → o ≡ some i → i < length l)
      → Sound (write_index db l o)
  unfolding write_index owed
  write_index-Sound l none h = same _ refl
  write_index-Sound l (some i) h =
      let (x, e) = get_elem?-lt l i (h i refl) in rw (e, write_index) (same (bulk x) refl)

  lindex-at : (offset : ℤ) (o : Option Value) → ks key ≡ o → Sound (lindex key offset db)
  unfolding lindex owed
  lindex-at offset none e = rw (r.tags key ∙ ap tag_of e, lindex) (same _ refl)
  lindex-at offset (some (set s)) e = rw (r.tags key ∙ ap tag_of e, lindex) (same _ refl)
  lindex-at offset (some (list l)) e =
      let here = list_at db key in
      rw (r.tags key ∙ ap tag_of e, lindex)
        (write_index-Sound here (list_index (length here) offset)
          (list_index-lt (length here) offset))

  pub lindex-Sound : (offset : ℤ) → Sound (lindex key offset db)
  lindex-Sound offset = lindex-at offset (ks key) refl

  stored-Sound :
      (l old : List String) (f : Frame)
      → l ≢ []
      → ks key ≡ some (list old)
      → IsReply (f ∷ [])
      → Sound (reply (bump (store_list db key l) key) f)
  stored-Sound l old f some' e one =
      Keeps-Sound _ (put ks key (list l), f ∷ [])
        (bump-Represents key (store_list-Represents db ks key r l e), refl)
        (Full-put_some ks key l some' full) one

  nonempty : (l : List String) → ks key ≡ some (list l) → l ≢ []
  nonempty l e none' = full key (e ∙ ap (λ (m : List String). some (list m)) none')

  set_index-Sound :
      (l : List String) (value : String) (o : Option ℕ)
      → ks key ≡ some (list l)
      → Sound (set_index db key value o)
  unfolding set_index owed
  set_index-Sound l value none e = same _ refl
  set_index-Sound l value (some i) e =
      rw (r.lists key ∙ ap list_part e)
        (stored-Sound (set_elem l i value) l ok (set-some l i value (nonempty l e)) e refl)

  lset-at :
      (index : ℤ) (value : String) (o : Option Value) → ks key ≡ o → Sound (lset key index value db)
  unfolding lset owed
  lset-at index value none e = rw (r.tags key ∙ ap tag_of e, lset) (same _ refl)
  lset-at index value (some (set s)) e = rw (r.tags key ∙ ap tag_of e, lset) (same _ refl)
  lset-at index value (some (list l)) e =
      rw (r.tags key ∙ ap tag_of e, lset) (set_index-Sound l value _ e)

  pub lset-Sound : (index : ℤ) (value : String) → Sound (lset key index value db)
  lset-Sound index value = lset-at index value (ks key) refl

  found-Sound :
      (n : ℤ) (pivot value : String) (l : List String) (o : Option ℕ)
      → ks key ≡ some (list l)
      → find_index pivot l ≡ o
      → Sound (linsert key n pivot value db)
  unfolding linsert owed
  found-Sound n pivot value l none e found =
      rw
        (
          r.tags key ∙ ap tag_of e,
          linsert,
          ap (λ m. get_or m []) (r.lists key ∙ ap list_part e),
          found,
        )
        (same _ refl)
  found-Sound n pivot value l (some i) e found =
      let here = ap (λ m. get_or m []) (r.lists key ∙ ap list_part e) in
      rw (r.tags key ∙ ap tag_of e, linsert, here, found, here)
        (stored-Sound (insert_at n i value l) l _ (insert_at-some n i value l) e refl)

  linsert-at :
      (n : ℤ) (pivot value : String) (o : Option Value)
      → ks key ≡ o
      → Sound (linsert key n pivot value db)
  unfolding linsert owed
  linsert-at n pivot value none e = rw (r.tags key ∙ ap tag_of e, linsert) (same _ refl)
  linsert-at n pivot value (some (set s)) e = rw (r.tags key ∙ ap tag_of e, linsert) (same _ refl)
  linsert-at n pivot value (some (list l)) e = found-Sound n pivot value l _ e refl

  pub linsert-Sound : (n : ℤ) (pivot value : String) → Sound (linsert key n pivot value db)
  linsert-Sound n pivot value = linsert-at n pivot value (ks key) refl

  kept-Sound :
      (l old : List String) (f : Frame)
      → ks key ≡ some (list old)
      → IsReply (f ∷ [])
      → Sound (do db' ← store_bump_or_del db key l; reply db' f)
  unfolding Sound Valid
  kept-Sound l old f e one =
      Returns-bind (λ db'. Represents db' (put_list ks key l)) (λ res. Valid res.0 × IsReply res.1)
        _ _ (store_bump_or_del-Represents db ks key r e l)
        (λ db' q. ((put_list ks key l, q, Full-put_list ks key l full), one))

  lrem-at :
      (count : ℤ) (value : String) (o : Option Value) → ks key ≡ o → Sound (lrem key count value db)
  unfolding lrem owed
  lrem-at count value none e = rw (r.tags key ∙ ap tag_of e, lrem) (same _ refl)
  lrem-at count value (some (set s)) e = rw (r.tags key ∙ ap tag_of e, lrem) (same _ refl)
  lrem-at count value (some (list l)) e =
      let p = lrem_list count value (list_at db key) in
      rw (r.tags key ∙ ap tag_of e, lrem) (kept-Sound p.0 l (int (pos p.1)) e refl)

  pub lrem-Sound : (count : ℤ) (value : String) → Sound (lrem key count value db)
  lrem-Sound count value = lrem-at count value (ks key) refl

  ltrim-at : (start end : ℤ) (o : Option Value) → ks key ≡ o → Sound (ltrim key start end db)
  unfolding ltrim owed
  ltrim-at start end none e = rw (r.tags key ∙ ap tag_of e, ltrim) (same _ refl)
  ltrim-at start end (some (set s)) e = rw (r.tags key ∙ ap tag_of e, ltrim) (same _ refl)
  ltrim-at start end (some (list l)) e =
      rw (r.tags key ∙ ap tag_of e, ltrim, slice-cut (list_at db key) start end)
        (kept-Sound (cut (list_at db key) start end) l ok e refl)

  pub ltrim-Sound : (start end : ℤ) → Sound (ltrim key start end db)
  ltrim-Sound start end = ltrim-at start end (ks key) refl

  all-Sound : (els : List String) → Sound (some (db, array (pos (length els)) ∷ map bulk els))
  unfolding owed
  all-Sound els = Keeps-Sound _ (ks, _) (r, refl) full (owed-bulks 0 els)

  lrange-at : (start end : ℤ) (o : Option Value) → ks key ≡ o → Sound (lrange key start end db)
  unfolding lrange owed
  lrange-at start end none e =
      rw (is_other-at db ks key none r e, lrange, r.lists key ∙ ap list_part e) (same _ refl)
  lrange-at start end (some (set s)) e = rw (is_other-at db ks key _ r e, lrange) (same _ refl)
  lrange-at start end (some (list [])) e = absurd (full key e)
  lrange-at start end (some (list (x ∷ l))) e =
      rw
        (
          is_other-at db ks key _ r e,
          lrange,
          r.lists key ∙ ap list_part e,
          slice-cut (x ∷ l) start end,
          size-cut (x ∷ l) start end,
        )
        (all-Sound (cut (x ∷ l) start end))

  pub lrange-Sound : (start end : ℤ) → Sound (lrange key start end db)
  lrange-Sound start end = lrange-at start end (ks key) refl

  rotated-Sound :
      (dst : String) (l : List String)
      → ks key ≡ some (list l)
      → set_part (ks dst) ≡ none
      → Sound (rpoplpush key dst db)
  unfolding owed
  rotated-Sound dst l e f =
      let (front, x, q) = unsnoc-some l (nonempty l e) in
      Fine-Sound _ (rotated ks key dst front x)
        (rpoplpush-Keeps db ks key dst r front x (e ∙ ap (λ (m : List String). some (list m)) q) f)
        (Full-put (put_list ks key front) dst x _ (Full-put_list ks key front full), refl)

  rpoplpush-at :
      (dst : String) (o p : Option Value) → ks key ≡ o → ks dst ≡ p → Sound (rpoplpush key dst db)
  unfolding rpoplpush owed
  rpoplpush-at dst none p e f = rw (r.tags key ∙ ap tag_of e, rpoplpush) (same _ refl)
  rpoplpush-at dst (some (set s)) p e f = rw (r.tags key ∙ ap tag_of e, rpoplpush) (same _ refl)
  rpoplpush-at dst (some (list l)) (some (set s)) e f =
      rw (r.tags key ∙ ap tag_of e, is_other-at db ks dst _ r f, rpoplpush) (same _ refl)
  rpoplpush-at dst (some (list l)) none e f = rotated-Sound dst l e (ap set_part f)
  rpoplpush-at dst (some (list l)) (some (list m)) e f = rotated-Sound dst l e (ap set_part f)

  pub rpoplpush-Sound : (dst : String) → Sound (rpoplpush key dst db)
  rpoplpush-Sound dst = rpoplpush-at dst (ks key) (ks dst) refl refl
