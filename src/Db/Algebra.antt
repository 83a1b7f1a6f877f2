-- ===== src/Db/Algebra.antt =====
-- setDiff, setInter and setUnion of db.go against the operations of sets, over the abstract view.
use rediqueue.Base.{
  ◌≡◌, refl, ap, ◌∙◌, Bool, true, false, not, ◌&&◌, ◌||◌, String, List, [], ◌∷◌, Option, none, some,
  string_eq, arith, if◌then◌else◌,
}
use rediqueue.Base.Dict
use rediqueue.Base.Dict.{lookup}
use rediqueue.Db.{RedisDb, SetKey, set_at, exists, t}
use rediqueue.Db.Sets.{
  member, copy_from, delete_from, keep_in, diff_keys, inter_keys, union_keys, SetResult, set_ok,
  wrong_type, no_keys, to_result, is_foreign, set_diff, set_inter, set_union,
}
use rediqueue.Db.Keyspace.{Value, list, set, Keyspace, Represents, tag_of, set_part}
use rediqueue.Db.Members.{listed, listed-keys, member-copy_from, member-delete_from, member-keep_in}

abbrev pub in_set : Option Value → String → Bool
in_set (some (set s)) e = member s e
in_set _ e = false

abbrev pub is_list : Option Value → Bool
is_list (some (list l)) = true
is_list _ = false

abbrev pub any_list : Keyspace → List String → Bool
any_list ks [] = false
any_list ks (k ∷ keys) = is_list (ks k) || any_list ks keys

abbrev pub in_any : Keyspace → List String → String → Bool
in_any ks [] e = false
in_any ks (k ∷ keys) e = in_set (ks k) e || in_any ks keys e

-- Whether a key lets the element pass: SINTER passes over the keys that hold no set.
abbrev pub passes : Option Value → String → Bool
passes (some (set s)) e = member s e
passes _ e = true

abbrev pub in_all : Keyspace → List String → String → Bool
in_all ks [] e = true
in_all ks (k ∷ keys) e = passes (ks k) e && in_all ks keys e

-- ErrWrongType if asked for, and else a set with the members that the test says.
abbrev pub Answers : Bool → SetResult → (String → Bool) → Type 0
Answers true r f = r ≡ wrong_type
Answers false (set_ok s) f = (e : String) → member s e ≡ f e
Answers false wrong_type f = ⊥
Answers false no_keys f = ⊥

Answers-map :
    (b : Bool) (r : SetResult) (f g : String → Bool)
    → ((e : String) → f e ≡ g e)
    → Answers b r f
    → Answers b r g
Answers-map true r f g h p = p
Answers-map false (set_ok s) f g h p = λ e. p e ∙ h e
Answers-map false wrong_type f g h p = p
Answers-map false no_keys f g h p = p

guarded :
    (b c : Bool) (r : SetResult) (f : String → Bool)
    → Answers c r f
    → Answers (b || c) (if b then wrong_type else r) f
guarded true c r f p = refl
guarded false c r f p = p

first_guarded :
    (b : Bool) (s : SetKey) (f : String → Bool)
    → Answers false (set_ok s) f
    → Answers b (if b then wrong_type else set_ok s) f
first_guarded true s f p = refl
first_guarded false s f p = p

module _ (db : RedisDb) (ks : Keyspace) (r : Represents db ks) where
  is_foreign-list : (k : String) (o : Option Value) → ks k ≡ o → is_foreign db k ≡ is_list o
  unfolding exists t
  is_foreign-list k none e = rw (r.tags k ∙ ap tag_of e) refl
  is_foreign-list k (some (list l)) e = rw (r.tags k ∙ ap tag_of e) refl
  is_foreign-list k (some (set s)) e = rw (r.tags k ∙ ap tag_of e) refl

  members-at :
      (k : String) (o : Option Value) (e : String)
      → ks k ≡ o
      → listed (Dict.keys (set_at db k)) e ≡ in_set o e
  members-at k none e p = rw (r.sets k ∙ ap set_part p) refl
  members-at k (some (list l)) e p = rw (r.sets k ∙ ap set_part p) refl
  members-at k (some (set s)) e p = rw (r.sets k ∙ ap set_part p) (listed-keys s e)

  abbrev Diffs : List String → SetKey → Type 0
  Diffs keys s =
      Answers (any_list ks keys) (to_result (diff_keys db s keys))
        (λ e. member s e && not (in_any ks keys e))

  diff_step :
      (k : String) (keys : List String) (o : Option Value)
      → ks k ≡ o
      → ((s : SetKey) → Diffs keys s)
      → (s : SetKey) → Diffs (k ∷ keys) s
  unfolding diff_keys
  diff_step k keys none p rest s = rw (p, r.tags k ∙ ap tag_of p) (rest s)
  diff_step k keys (some (list l)) p rest s = rw (p, r.tags k ∙ ap tag_of p) refl
  diff_step k keys (some (set m)) p rest s =
      rw (p, r.tags k ∙ ap tag_of p)
        (Answers-map (any_list ks keys) _ _ _
          (λ e. ground (
            arith,
            member-delete_from s (Dict.keys (set_at db k)) e,
            members-at k (some (set m)) e p,
          ))
          (rest (delete_from s (Dict.keys (set_at db k)))))

  diff_keys-Answers : (keys : List String) (s : SetKey) → Diffs keys s
  unfolding diff_keys
  diff_keys-Answers [] s = λ e. ground arith
  diff_keys-Answers (k ∷ keys) s = diff_step k keys (ks k) refl (diff_keys-Answers keys) s

  abbrev Unions : List String → SetKey → Type 0
  Unions keys s =
      Answers (any_list ks keys) (to_result (union_keys db s keys))
        (λ e. member s e || in_any ks keys e)

  union_step :
      (k : String) (keys : List String) (o : Option Value)
      → ks k ≡ o
      → ((s : SetKey) → Unions keys s)
      → (s : SetKey) → Unions (k ∷ keys) s
  unfolding union_keys
  union_step k keys none p rest s = rw (p, r.tags k ∙ ap tag_of p) (rest s)
  union_step k keys (some (list l)) p rest s = rw (p, r.tags k ∙ ap tag_of p) refl
  union_step k keys (some (set m)) p rest s =
      rw (p, r.tags k ∙ ap tag_of p)
        (Answers-map (any_list ks keys) _ _ _
          (λ e. ground (
            arith,
            member-copy_from s (Dict.keys (set_at db k)) e,
            members-at k (some (set m)) e p,
          ))
          (rest (copy_from s (Dict.keys (set_at db k)))))

  union_keys-Answers : (keys : List String) (s : SetKey) → Unions keys s
  unfolding union_keys
  union_keys-Answers [] s = λ e. ground arith
  union_keys-Answers (k ∷ keys) s = union_step k keys (ks k) refl (union_keys-Answers keys) s

  abbrev Inters : List String → SetKey → Type 0
  Inters keys s = (e : String) → member (inter_keys db s keys) e ≡ (member s e && in_all ks keys e)

  inter_step :
      (k : String) (keys : List String) (o : Option Value)
      → ks k ≡ o
      → ((s : SetKey) → Inters keys s)
      → (s : SetKey) → Inters (k ∷ keys) s
  unfolding inter_keys
  inter_step k keys none p rest s e = rw (p, r.tags k ∙ ap tag_of p) (rest s e)
  inter_step k keys (some (list l)) p rest s e = rw (p, r.tags k ∙ ap tag_of p) (rest s e)
  inter_step k keys (some (set m)) p rest s e =
      rw (p, r.tags k ∙ ap tag_of p, r.sets k ∙ ap set_part p)
        (ground (
          arith,
          rest (keep_in s (Dict.keys s) m) e,
          member-keep_in s (Dict.keys s) m e,
          listed-keys s e,
        ))

  inter_keys-Inters : (keys : List String) (s : SetKey) → Inters keys s
  unfolding inter_keys
  inter_keys-Inters [] s = λ e. ground arith
  inter_keys-Inters (k ∷ keys) s = inter_step k keys (ks k) refl (inter_keys-Inters keys) s

  -- The copy of the first set has its members.
  first :
      (k : String) (e : String)
      → member (copy_from [] (Dict.keys (set_at db k))) e ≡ in_set (ks k) e
  unfolding member lookup
  first k e = member-copy_from [] (Dict.keys (set_at db k)) e ∙ members-at k (ks k) e refl

  -- On a database that the view represents, `setDiff` of a first key and others returns ErrWrongType if one of the keys
  -- holds a list, and else a set with exactly the members of the first set that are in none of the others, where a
  -- missing key counts as an empty set.
  pub set_diff-Answers :
      (key : String) (keys : List String)
      → Answers
          (any_list ks (key ∷ keys))
          (set_diff db (key ∷ keys))
          (λ e. in_set (ks key) e && not (in_any ks keys e))
  unfolding set_diff
  set_diff-Answers key keys =
      let s = copy_from [] (Dict.keys (set_at db key)) in
      rw (is_foreign-list key (ks key) refl) (
        guarded (is_list (ks key)) (any_list ks keys) (to_result (diff_keys db s keys)) _ (
          Answers-map (any_list ks keys) _ _ _
            (λ e. ap (λ b. b && not (in_any ks keys e)) (first key e)) (diff_keys-Answers keys s)))

  -- On a database that the view represents, `setUnion` returns ErrWrongType if one of the keys holds a list, and else a set
  -- with exactly the members of all the sets.
  pub set_union-Answers :
      (key : String) (keys : List String)
      → Answers (any_list ks (key ∷ keys)) (set_union db (key ∷ keys)) (in_any ks (key ∷ keys))
  unfolding set_union
  set_union-Answers key keys =
      let s = copy_from [] (Dict.keys (set_at db key)) in
      rw (is_foreign-list key (ks key) refl) (
        guarded (is_list (ks key)) (any_list ks keys) (to_result (union_keys db s keys)) _ (
          Answers-map (any_list ks keys) _ _ _ (λ e. ap (λ b. b || in_any ks keys e) (first key e))
            (union_keys-Answers keys s)))

  -- On a database that the view represents, `setInter` returns ErrWrongType if the first key holds a list, and else a set
  -- with exactly the members of the first set that are in each of the others; a later key that is missing or holds a list
  -- is passed over, and does not make the result empty.
  pub set_inter-Answers :
      (key : String) (keys : List String)
      → Answers
          (is_list (ks key))
          (set_inter db (key ∷ keys))
          (λ e. in_set (ks key) e && in_all ks keys e)
  unfolding set_inter
  set_inter-Answers key keys =
      let s = copy_from [] (Dict.keys (set_at db key)) in
      rw (is_foreign-list key (ks key) refl) (
        first_guarded (is_list (ks key)) (inter_keys db s keys) _
          (λ e. inter_keys-Inters keys s e ∙ ap (λ b. b && in_all ks keys e) (first key e)))
