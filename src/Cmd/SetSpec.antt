-- ===== src/Cmd/SetSpec.antt =====
-- What SMOVE, SDIFFSTORE, SINTERSTORE and SUNIONSTORE of cmd_set.go promise over the abstract view.
use rediqueue.Base.{
  ◌≡◌, refl, ap, ◌∙◌, String, Bool, true, false, not, ◌&&◌, ◌||◌, ◌==◌, List, [], ◌∷◌, Option, none,
  some, get_or, length, string_eq, eq_iff, arith, Returns, Returns-bind, ◌>>=◌,
}
use rediqueue.Base.Int.{pos}
use rediqueue.Reply.{Frame, int}
use rediqueue.Db.{RedisDb, SetKey, exists, t}
use rediqueue.Db.Sets.{
  member, set_add, set_rem, set_is_member, is_foreign, SetResult, set_ok, wrong_type, no_keys,
}
use rediqueue.Db.Keyspace.{
  Value, list, set, Keyspace, Represents, put, remove, tag_of, list_part, set_part,
}
use rediqueue.Db.Refine.{del-Represents}
use rediqueue.Db.RefineSets.{
  Represents-ext, put_set, members, Removed, set_set-Represents, set_add-Represents,
  set_rem-Represents,
}
use rediqueue.Db.Algebra.{
  Answers, any_list, is_list, in_set, in_any, in_all, set_diff-Answers, set_inter-Answers,
  set_union-Answers,
}
use rediqueue.Cmd.Lists.{Result, reply}
use rediqueue.Cmd.ListSpec.{Keeps, refused}
use rediqueue.Cmd.Sets.{store_result, sdiffstore, sinterstore, sunionstore, smove}

-- WRONGTYPE if asked for, and else the destination holds a set with the members that the test says, whatever it held,
-- and the reply is the length of that set.
abbrev pub Stores : Bool → Result → Keyspace → String → (String → Bool) → Type 0
Stores true res ks dest f = Keeps res (refused ks)
Stores false res ks dest f = Returns res (λ r.
    (s : SetKey) × Represents r.0 (put ks dest (set s))
    × ((e : String) → member s e ≡ f e)
    × (r.1 ≡ int (pos (length s)) ∷ []))

module _ (db : RedisDb) (ks : Keyspace) (dest : String) (r : Represents db ks) where
  store_result-Stores :
      (b : Bool) (res : SetResult) (f : String → Bool)
      → Answers b res f
      → Stores b (store_result dest db res) ks dest f
  unfolding store_result
  store_result-Stores true res f e = rw e (r, refl)
  store_result-Stores false wrong_type f a = absurd a
  store_result-Stores false no_keys f a = absurd a
  store_result-Stores false (set_ok s) f a =
      Returns-bind {B = RedisDb × List Frame} (λ db'. Represents db' (remove ks dest))
        (λ p.
          (s' : SetKey) × Represents p.0 (put ks dest (set s'))
          × ((e : String) → member s' e ≡ f e)
          × (p.1 ≡ int (pos (length s')) ∷ []))
        _ _ (del-Represents db ks dest r)
        (λ db' q. (
          s,
          Represents-ext {ks = put (remove ks dest) dest (set s)} {js = put ks dest (set s)}
              (λ j. ground (arith, eq_iff dest j))
              (set_set-Represents db' (remove ks dest) dest q s (ground (arith, eq_iff dest dest))),
          a,
          refl,
        ))

  -- On a database that the view represents, SDIFFSTORE, SINTERSTORE and SUNIONSTORE replace whatever the destination
  -- holds, also where it is one of the keys, by a set with exactly the members of the difference, of the intersection or
  -- of the union of the sets before, and reply with its length; no other key is touched, and an empty set is kept. Where
  -- a key holds a list, for SINTERSTORE the first one, they reply WRONGTYPE and change nothing.
  pub store-Stores :
      (key : String) (keys : List String)
      → Stores
          (any_list ks (key ∷ keys))
          (sdiffstore dest (key ∷ keys) db)
          ks
          dest
          (λ e. in_set (ks key) e && not (in_any ks keys e))
        × Stores
            (is_list (ks key))
            (sinterstore dest (key ∷ keys) db)
            ks
            dest
            (λ e. in_set (ks key) e && in_all ks keys e)
        × Stores
            (any_list ks (key ∷ keys))
            (sunionstore dest (key ∷ keys) db)
            ks
            dest
            (in_any ks (key ∷ keys))
  unfolding sdiffstore sinterstore sunionstore
  store-Stores key keys = (
    store_result-Stores _ _ _ (set_diff-Answers db ks r key keys),
    store_result-Stores _ _ _ (set_inter-Answers db ks r key keys),
    store_result-Stores _ _ _ (set_union-Answers db ks r key keys),
  )

-- The element has been taken out of the set at `src`, which is not kept empty, and then put into what `dst` holds as a set,
-- which may be nothing, or the same key.
abbrev pub Moved : Keyspace → String → String → String → SetKey → Result → Type 0
Moved ks src dst elem s res = Returns res (λ r.
    (taken : SetKey) × (given : SetKey) × Represents r.0
      (put (put_set ks src taken) dst (set given))
    × ((e : String) → member taken e ≡ (member s e && not (elem == e)))
    × ((e : String) → member given e ≡ (elem == e || member (members (put_set ks src taken dst)) e))
    × (r.1 ≡ int (pos 1) ∷ []))

abbrev pub MovedIf : Bool → Keyspace → String → String → String → SetKey → Result → Type 0
MovedIf true ks src dst elem s res = Moved ks src dst elem s res
MovedIf false ks src dst elem s res = Keeps res (ks, int (pos 0) ∷ [])

-- What SMOVE promises, by what the two keys hold.
abbrev pub SmoveKeeps :
    Result → Keyspace → String → String → String → Option Value → Option Value → Type 0
SmoveKeeps res ks src dst elem none there = Keeps res (ks, int (pos 0) ∷ [])
SmoveKeeps res ks src dst elem (some (list l)) there = Keeps res (refused ks)
SmoveKeeps res ks src dst elem (some (set s)) (some (list l)) = Keeps res (refused ks)
SmoveKeeps res ks src dst elem (some (set s)) none = MovedIf (member s elem) ks src dst elem s res
SmoveKeeps res ks src dst elem (some (set s)) (some (set u)) =
    MovedIf (member s elem) ks src dst elem s res

put_set-list_part :
    (ks : Keyspace) (k j : String) (s : SetKey)
    → list_part (ks j) ≡ none
    → list_part (put_set ks k s j) ≡ none
put_set-list_part ks k j [] e = ground arith
put_set-list_part ks k j (x ∷ s) e = ground arith

module _ (db : RedisDb) (ks : Keyspace) (src dst elem : String) (r : Represents db ks) where
  Moved-set_rem :
      (s : SetKey)
      → ks src ≡ some (set s)
      → list_part (ks dst) ≡ none
      → Moved ks src dst elem s (do
        (db', removed) ← set_rem db src (elem ∷ [])
        reply (set_add db' dst (elem ∷ [])).0 (int (pos 1)))
  Moved-set_rem s e f =
      Returns-bind {B = RedisDb × List Frame} (Removed ks src s (elem ∷ [])) _ _ _
        (set_rem-Represents db ks src r (elem ∷ []) e)
        (λ p q.
          let js : Keyspace = put_set ks src q.0 in
          let added =
            set_add-Represents p.0 js dst q.1 (elem ∷ []) (put_set-list_part ks src dst q.0 f) in
          (
            q.0,
            added.0,
            added.1,
            (λ e. ground (arith, q.2 e)),
            (λ e. ground (arith, added.2 e)),
            refl,
          ))

  member_of : (s : SetKey) → ks src ≡ some (set s) → set_is_member db src elem ≡ member s elem
  unfolding set_is_member
  member_of s e = ap (λ o. member (get_or o []) elem) (r.sets src ∙ ap set_part e)

  own : (o : Option Value) → ks dst ≡ o → list_part o ≡ none → is_foreign db dst ≡ false
  unfolding exists t
  own none e f = rw (r.tags dst ∙ ap tag_of e) refl
  own (some (set s)) e f = rw (r.tags dst ∙ ap tag_of e) refl
  own (some (list l)) e f = cc

  there-MovedIf :
      (s : SetKey) (b : Bool)
      → ks src ≡ some (set s)
      → list_part (ks dst) ≡ none
      → member s elem ≡ b
      → MovedIf b ks src dst elem s (smove src dst elem db)
  unfolding smove exists t
  there-MovedIf s true e f m =
      rw (r.tags src ∙ ap tag_of e, own (ks dst) refl f, smove, member_of s e ∙ m)
        (Moved-set_rem s e f)
  there-MovedIf s false e f m =
      rw (r.tags src ∙ ap tag_of e, own (ks dst) refl f, smove, member_of s e ∙ m) (r, refl)

  smove-at :
      (o p : Option Value)
      → ks src ≡ o
      → ks dst ≡ p
      → SmoveKeeps (smove src dst elem db) ks src dst elem o p
  unfolding smove exists t
  smove-at none p e f = rw (r.tags src ∙ ap tag_of e, smove) (r, refl)
  smove-at (some (list l)) p e f = rw (r.tags src ∙ ap tag_of e, smove) (r, refl)
  smove-at (some (set s)) (some (list l)) e f =
      rw (r.tags src ∙ ap tag_of e, r.tags dst ∙ ap tag_of f, smove) (r, refl)
  smove-at (some (set s)) none e f = there-MovedIf s _ e (ap list_part f) refl
  smove-at (some (set s)) (some (set u)) e f = there-MovedIf s _ e (ap list_part f) refl

  -- On a database that the view represents, SMOVE of a member of the set at `src` takes it out there, deletes `src` with its
  -- last member, puts it into the set at `dst`, which may be missing or the same key, and replies 1. Where it is no
  -- member, or `src` is missing, the reply is 0, and where one of the keys holds a list (of `dst` only behind a set at
  -- `src`) it is WRONGTYPE; then nothing changes.
  pub smove-Keeps : SmoveKeeps (smove src dst elem db) ks src dst elem (ks src) (ks dst)
  smove-Keeps = smove-at (ks src) (ks dst) refl refl
