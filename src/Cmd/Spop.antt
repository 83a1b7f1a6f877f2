-- ===== src/Cmd/Spop.antt =====
-- What SPOP of cmd_set.go promises over the abstract view, whatever the random numbers are.
use rediqueue.Base.{
  ℕ, zero, suc, ◌≤◌, false, not, ◌&&◌, ◌%◌, ◌≡◌, ◌≢◌, refl, map, ap, sym, ◌∙◌, ◌⊎◌, inl, inr,
  String, Bool, Bool-cases, true, List, [], ◌∷◌, ◌||◌, Option, none, some, get_or, get_elem?,
  get_elem?-lt, length, string_eq, eq_iff, arith, Returns, Returns-bind, ◌==◌, str_leb,
  insert_sorted, sort_strings,
}
use rediqueue.Base.Int.{pos, ℤ, pos_part}
use rediqueue.Base.Dict
use rediqueue.Reply.{Frame, null, bulk, array}
use rediqueue.Db.{RedisDb, SetKey, exists, t}
use rediqueue.Db.Sets.{member, set_members}
use rediqueue.Db.Members.{listed, listed-keys}
use rediqueue.Db.Keyspace.{Value, list, set, Keyspace, Represents, tag_of, set_part}
use rediqueue.Db.RefineSets.{Represents-ext, put_set, Removed, set_rem-Represents}
use rediqueue.Cmd.Lists.{Result}
use rediqueue.Cmd.ListSpec.{Keeps, refused}
use rediqueue.Cmd.Sets.{Draws, later, pick, spop_rounds, spop_reply, spop}

listed-insert_sorted :
    (x : String) (l : List String) (e : String)
    → listed (insert_sorted x l) e ≡ (x == e || listed l e)
unfolding insert_sorted
listed-insert_sorted x [] e = refl
listed-insert_sorted x (y ∷ l) e = elim (Bool-cases (str_leb x y)) [
  | inl first ↦ rw first refl
  | inr later ↦ rw later (ground (arith, listed-insert_sorted x l e))
]

listed-sort_strings : (l : List String) (e : String) → listed (sort_strings l) e ≡ listed l e
unfolding sort_strings
listed-sort_strings [] e = refl
listed-sort_strings (x ∷ l) e =
    ground (arith, listed-insert_sorted x (sort_strings l) e, listed-sort_strings l e)

get_elem?-listed :
    (l : List String) (i : ℕ) (x : String) → get_elem? l i ≡ some x → listed l x ≡ true
get_elem?-listed [] i x e = ground arith
get_elem?-listed (y ∷ l) zero x e = ground (arith, eq_iff y x)
get_elem?-listed (y ∷ l) (suc i) x e = ground (arith, get_elem?-listed l i x e)

-- No element comes twice.
abbrev pub Distinct : List String → Type 0
Distinct [] = Unit
Distinct (x ∷ l) = (listed l x ≡ false) × Distinct l

-- Members of the set at the key have been taken out, `n` at most: `n` of them, or all. The others are left.
abbrev pub Pops : Keyspace → String → SetKey → ℕ → RedisDb × List String → Type 0
Pops ks key s n p =
    (rest : SetKey) × Represents p.0 (put_set ks key rest)
    × ((e : String) → member rest e ≡ (member s e && not (listed p.1 e)))
    × ((e : String) → listed p.1 e ≡ true → member s e ≡ true)
    × Distinct p.1
    × (length p.1 ≤ n)
    × ((length p.1 ≡ n) ⊎ (rest ≡ []))

put_set-put_set :
    (ks : Keyspace) (key : String) (s s' : SetKey) (j : String)
    → put_set (put_set ks key s) key s' j ≡ put_set ks key s' j
put_set-put_set ks key [] [] j = ground arith
put_set-put_set ks key [] (e ∷ s') j = ground arith
put_set-put_set ks key (d ∷ s) [] j = ground arith
put_set-put_set ks key (d ∷ s) (e ∷ s') j = ground arith

sorted-cons :
    (x : String) (l : List String)
    → (m : String) × (ms : List String) × (insert_sorted x l ≡ m ∷ ms)
unfolding insert_sorted
sorted-cons x [] = (x, [], refl)
sorted-cons x (y ∷ l) = elim (Bool-cases (str_leb x y)) [
  | inl first ↦ (x, y ∷ l, rw first refl)
  | inr later ↦ (y, insert_sorted x l, rw later refl)
]

module _ (ks : Keyspace) (key : String) where
  none-here : put_set ks key [] key ≡ none
  none-here = ground (arith, eq_iff key key)

  set-here : (e : String × Unit {0}) (s : SetKey) → put_set ks key (e ∷ s) key ≡ some (set (e ∷ s))
  set-here e s = ground (arith, eq_iff key key)

  members-at :
      (s : SetKey) (db : RedisDb)
      → Represents db (put_set ks key s)
      → set_members db key ≡ sort_strings (Dict.keys s)
  unfolding set_members
  members-at [] db r =
      ap (λ o. sort_strings (Dict.keys (get_or o []))) (r.sets key ∙ ap set_part none-here)
  members-at (e ∷ s) db r =
      ap (λ o. sort_strings (Dict.keys (get_or o []))) (r.sets key ∙ ap set_part (set-here e s))

  is_member :
      (s : SetKey) (db : RedisDb) (l : List String) (i : ℕ) (x : String)
      → Represents db (put_set ks key s)
      → set_members db key ≡ l
      → get_elem? l i ≡ some x
      → member s x ≡ true
  is_member s db l i x r q drew =
      sym (listed-keys s x)
      ∙ sym (listed-sort_strings (Dict.keys s) x)
      ∙ ap (λ l. listed l x) (sym (members-at s db r) ∙ q)
      ∙ get_elem?-listed l i x drew

  -- The set without one member, and the elements that are taken out of it.
  one_more :
      (n : ℕ) (s s' : SetKey) (x : String) (p : RedisDb × List String)
      → member s x ≡ true
      → ((e : String) → member s' e ≡ (member s e && not (listed (x ∷ []) e)))
      → Pops ks key s' n p
      → Pops ks key s (suc n) (p.0, x ∷ p.1)
  one_more n s s' x p there without (rest, r, left, all, once, few, enough) = (
    rest,
    r,
    (λ e. ground (arith, left e, without e)),
    (λ e h. ground (arith, all e, without e, eq_iff x e)),
    (ground (arith, all x, without x, eq_iff x x), once),
    omega (arith, few),
    more enough,
  )
    where
      more : ((length p.1 ≡ n) ⊎ (rest ≡ [])) → (suc (length p.1) ≡ suc n) ⊎ (rest ≡ [])
      more (inl e) = inl (ap suc e)
      more (inr e) = inr e

  -- One round takes out a member, and leaves the rest to the next ones.
  round-Pops :
      (n : ℕ) (draws : Draws) (e : String × Unit {0}) (s : SetKey) (db : RedisDb) (m : String)
      (ms : List String)
      → ((draws' : Draws) (s' : SetKey) (db' : RedisDb)
          → Represents db' (put_set ks key s')
          → Returns (spop_rounds n draws' key db') (Pops ks key s' n))
      → Represents db (put_set ks key (e ∷ s))
      → set_members db key ≡ m ∷ ms
      → Returns (spop_rounds (suc n) draws key db) (Pops ks key (e ∷ s) (suc n))
  unfolding spop_rounds pick
  round-Pops n draws e s db m ms next r q =
      let (x, drew) = get_elem?-lt (m ∷ ms) (draws 0 % suc (length ms)) (omega arith) in
      let there = is_member (e ∷ s) db (m ∷ ms) _ x r q drew in
      let js = put_set ks key (e ∷ s) in
      rw (q, spop_rounds, pick, drew)
        (Returns-bind {B = RedisDb × List String} (Removed js key (e ∷ s) (x ∷ []))
          (Pops ks key (e ∷ s) (suc n)) _ _ (set_rem-Represents db js key r (x ∷ []) (set-here e s))
          (λ p w.
            Returns-bind {B = RedisDb × List String} (Pops ks key w.0 n)
              (Pops ks key (e ∷ s) (suc n)) _ _
              (next (later 1 draws) w.0 p.0
                (Represents-ext (put_set-put_set ks key (e ∷ s) w.0) w.1))
              (λ p u. one_more n (e ∷ s) w.0 x p there w.2 u)))

  untouched :
      (n : ℕ) (s : SetKey) (db : RedisDb)
      → Represents db (put_set ks key s)
      → (0 ≡ n) ⊎ (s ≡ [])
      → Pops ks key s n (db, [])
  untouched n s db r enough =
      (s, r, (λ e. ground arith), (λ e h. ground (arith, h)), tt, omega arith, enough)

  spop_rounds-Pops :
      (n : ℕ) (draws : Draws) (s : SetKey) (db : RedisDb)
      → Represents db (put_set ks key s)
      → Returns (spop_rounds n draws key db) (Pops ks key s n)
  unfolding spop_rounds
  spop_rounds-Pops zero draws s db r = untouched zero s db r (inl refl)
  spop_rounds-Pops (suc n) draws [] db r =
      rw (members-at [] db r, sort_strings, spop_rounds) (untouched (suc n) [] db r (inr refl))
  spop_rounds-Pops (suc n) draws (e ∷ s) db r =
      let (m, ms, q) = sorted-cons e.0 (sort_strings (Dict.keys s)) in
      round-Pops n draws e s db m ms (spop_rounds-Pops n) r (members-at (e ∷ s) db r ∙ q)

-- What is written: the elements as an array, or with no count the only one, nil where there is none.
abbrev pub popped : Bool → List String → List Frame
popped true l = array (pos (length l)) ∷ map bulk l
popped false [] = null ∷ []
popped false (x ∷ l) = bulk x ∷ []

-- What SPOP promises, by what the key holds.
abbrev pub SpopKeeps : Result → Keyspace → String → ℕ → Bool → Option Value → Type 0
SpopKeeps res ks key n with_count none = Keeps res (ks, popped with_count [])
SpopKeeps res ks key n with_count (some (list l)) = Keeps res (refused ks)
SpopKeeps res ks key n with_count (some (set s)) =
    Returns res (λ r. (l : List String) × Pops ks key s n (r.0, l) × (r.1 ≡ popped with_count l))

reply-Pops :
    (ks : Keyspace) (key : String) (s : SetKey) (n : ℕ) (with_count : Bool)
    (p : RedisDb × List String)
    → Pops ks key s n p
    → Returns
        (spop_reply with_count p.0 p.1)
        (λ r. (l : List String) × Pops ks key s n (r.0, l) × (r.1 ≡ popped with_count l))
unfolding spop_reply
reply-Pops ks key s n true (db, l) w = (l, w, refl)
reply-Pops ks key s n false (db, []) w = ([], w, refl)
reply-Pops ks key s n false (db, x ∷ l) w = (x ∷ l, w, refl)

module _ (db : RedisDb) (ks : Keyspace) (key : String) (r : Represents db ks) where
  spop-at :
      (draws : Draws) (count : ℤ) (with_count : Bool) (o : Option Value)
      → ks key ≡ o
      → o ≢ some (set [])
      → SpopKeeps (spop draws key count with_count db) ks key (pos_part count) with_count o
  unfolding spop exists t
  spop-at draws count true none e full = rw (r.tags key ∙ ap tag_of e, spop) (r, refl)
  spop-at draws count false none e full = rw (r.tags key ∙ ap tag_of e, spop) (r, refl)
  spop-at draws count with_count (some (list l)) e full =
      rw (r.tags key ∙ ap tag_of e, spop) (r, refl)
  spop-at draws count with_count (some (set [])) e full = absurd (full refl)
  spop-at draws count with_count (some (set (x ∷ s))) e full =
      rw (r.tags key ∙ ap tag_of e, spop)
        (Returns-bind {B = RedisDb × List Frame} (Pops ks key (x ∷ s) (pos_part count)) _ _ _
          (spop_rounds-Pops ks key (pos_part count) draws (x ∷ s) db
            (Represents-ext {ks = ks} {js = put_set ks key (x ∷ s)} (λ j. put-here j x s e) r))
          (λ p w. reply-Pops ks key (x ∷ s) (pos_part count) with_count p w))
    where
      put-here :
          (j : String) (x : String × Unit {0}) (s : SetKey)
          → ks key ≡ some (set (x ∷ s))
          → ks j ≡ put_set ks key (x ∷ s) j
      put-here j x s e = elim (Bool-cases (key == j)) [
        | inl same ↦ rw same (ap ks (sym ((eq_iff key j).0 same)) ∙ e)
        | inr other ↦ rw other refl
      ]

  -- On a database that the view represents, and where the key holds no empty set, SPOP takes members out of the set, no
  -- member twice, as many as the count says (none where it is negative) or all of them, whatever the random numbers are.
  -- It replies with an array of those elements, or, told that there was no count, with the first of them, nil for none;
  -- it deletes a set with none left, and touches no other key. Of a missing key it takes none, and for a list it replies
  -- WRONGTYPE and changes nothing.
  pub spop-Keeps :
      (draws : Draws) (count : ℤ) (with_count : Bool)
      → ks key ≢ some (set [])
      → SpopKeeps (spop draws key count with_count db) ks key (pos_part count) with_count (ks key)
  spop-Keeps draws count with_count full = spop-at draws count with_count (ks key) refl full
