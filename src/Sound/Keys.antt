-- ===== src/Sound/Keys.antt =====
-- The callbacks of cmd_generic.go and cmd_server.go keep a valid database valid and write one reply each.
use rediqueue.Base.{
  ℕ, suc, ◌%◌, ◌<◌, ◌≡◌, ◌≢◌, refl, ap, ◌∙◌, String, Bool, true, false, List, [], ◌∷◌, Option, none,
  some, length, arith, string_eq, Returns, Returns-bind, get_elem?, get_elem?-lt, ◌==◌, ◌>>=◌,
  Bool-cases, inl, inr,
}
use rediqueue.Base.Int.{ℤ, pos, int_eq}
use rediqueue.Base.Dict
use rediqueue.Base.Dict.{lookup}
use rediqueue.Reply.{Frame, bulk, int, ok}
use rediqueue.Db.{RedisDb, all_keys, flush, exists, rename}
use rediqueue.Db.Keyspace.{Value, list, set, Keyspace, Represents, put, remove, tag_of}
use rediqueue.Db.RefineSets.{rename-Represents}
use rediqueue.Keys.{match_keys, pattern_re}
use rediqueue.Cmd.Framing.{owed, IsReply}
use rediqueue.Cmd.Lists.{reply}
use rediqueue.Cmd.Keys.{
  del_each, del_keys, type_of, exists_keys, keys_matching, random_key, rename_key, rename_key_nx,
  filtered, scan, dbsize, flush_db,
}
use rediqueue.Sound.{
  Full, Valid, Sound, reply-Sound, Keeps-Sound, Full-remove, Full-put_value, write_all-Sound,
  write_scan-Sound, bind-Sound, if-Sound, del-Valid,
}

mod_lt : (d n : ℕ) → d % suc n < suc n
mod_lt d n = omega arith

-- The number that is drawn is an index.
pub drawn :
    (l : List String) (n d : ℕ)
    → length l ≡ suc n
    → (x : String) × (get_elem? l (d % suc n) ≡ some x)
drawn l n d e = get_elem?-lt l (d % suc n) (omega (arith, mod_lt d n, e))

del_each-Valid :
    (db : RedisDb) (args : List String) (n : ℕ)
    → Valid db
    → Returns (del_each db args n) (λ p. Valid p.0)
unfolding del_each
del_each-Valid db [] n v = v
del_each-Valid db (key ∷ args) n v =
    Returns-bind (λ db'. Valid db') (λ p. Valid p.0) _ _ (del-Valid db key v)
      (λ db' w. del_each-Valid db' args _ w)

pub del_keys-Sound : (args : List String) (db : RedisDb) → Valid db → Sound (del_keys args db)
unfolding del_keys Sound owed
del_keys-Sound args db v =
    Returns-bind (λ p. Valid p.0) (λ r. Valid r.0 × IsReply r.1) _ _ (del_each-Valid db args 0 v)
      (λ p w. (w, refl))

type_of-at :
    (key : String) (db : RedisDb) (o : Option String)
    → lookup db.keys key ≡ o
    → Valid db
    → Sound (type_of key db)
unfolding type_of owed
type_of-at key db none e v = rw (e, type_of) (reply-Sound db _ refl v)
type_of-at key db (some tag) e v = rw (e, type_of) (reply-Sound db _ refl v)

pub type_of-Sound : (key : String) (db : RedisDb) → Valid db → Sound (type_of key db)
type_of-Sound key db = type_of-at key db _ refl

pub exists_keys-Sound : (args : List String) (db : RedisDb) → Valid db → Sound (exists_keys args db)
unfolding exists_keys owed
exists_keys-Sound args db = reply-Sound db _ refl

-- The pattern never matches, or its regular expression compiles.
unfoldable pub Compiles : (String → Option (String → Bool)) → String → Type 0
Compiles compile pattern =
    (source : String) → pattern_re pattern ≡ some source → Returns (compile source) (λ re. Unit)

matched-Returns :
    (compile : String → Option (String → Bool)) (keys : List String) (pattern : String)
    (o : Option String)
    → pattern_re pattern ≡ o
    → Compiles compile pattern
    → Returns (match_keys compile keys pattern) (λ els. Unit)
unfolding match_keys Compiles
matched-Returns compile keys pattern none e c = rw (e, match_keys) tt
matched-Returns compile keys pattern (some source) e c =
    rw (e, match_keys) (Returns-bind (λ re. Unit) (λ els. Unit) _ _ (c source e) (λ re u. tt))

pub keys_matching-Sound :
    (compile : String → Option (String → Bool)) (pattern : String) (db : RedisDb)
    → Compiles compile pattern
    → Valid db
    → Sound (keys_matching compile pattern db)
unfolding keys_matching
keys_matching-Sound compile pattern db c v =
    bind-Sound _ _ (matched-Returns compile (all_keys db) pattern _ refl c)
      (λ els. write_all-Sound db els v)

-- The expression of the MATCH option, where there is one, compiles.
abbrev pub Matches : (String → Option (String → Bool)) → Option String → Type 0
Matches compile none = Unit
Matches compile (some pattern) = Compiles compile pattern

pub filtered-Returns :
    (compile : String → Option (String → Bool)) (match : Option String) (els : List String)
    → Matches compile match
    → Returns (filtered compile match els) (λ els. Unit)
unfolding filtered
filtered-Returns compile none els c = tt
filtered-Returns compile (some pattern) els c = matched-Returns compile els pattern _ refl c

pub scan-Sound :
    (compile : String → Option (String → Bool)) (cursor : ℤ) (match : Option String) (db : RedisDb)
    → Matches compile match
    → Valid db
    → Sound (scan compile cursor match db)
unfolding scan
scan-Sound compile cursor match db c v = elim (Bool-cases (cursor == pos 0)) [
  | inl first ↦ rw first (
      bind-Sound _ _ (filtered-Returns compile match (all_keys db) c)
        (λ els. write_scan-Sound db els v))
  | inr later ↦ rw later (write_scan-Sound db [] v)
]

pub random_key-Sound :
    (d : ℕ) (range : List String → List String) (db : RedisDb)
    → ((l : List String) → length (range l) ≡ length l)
    → Valid db
    → Sound (random_key d range db)
unfolding random_key owed
random_key-Sound d range db keeps v = drawn-Sound (Dict.keys db.keys) refl
  where
    drawn-Sound : (l : List String) → Dict.keys db.keys ≡ l → Sound (random_key d range db)
    drawn-Sound [] e = rw (e, random_key) (reply-Sound db _ refl v)
    drawn-Sound (k ∷ l) e =
        let (x, found) = drawn (range (k ∷ l)) (length l) d (keeps (k ∷ l)) in
        rw (e, random_key, found) (reply-Sound db (bulk x) refl v)

pub dbsize-Sound : (db : RedisDb) → Valid db → Sound (dbsize db)
unfolding dbsize owed
dbsize-Sound db = reply-Sound db _ refl

pub flush-Valid : (db : RedisDb) → Valid (flush db)
unfolding flush Valid lookup
flush-Valid db =
    ((λ k. none), record { tags = λ k. refl; lists = λ k. refl; sets = λ k. refl }, (λ k e. cc))

pub flush_db-Sound : (db : RedisDb) → Valid db → Sound (flush_db db)
unfolding flush_db owed
flush_db-Sound db v = reply-Sound (flush db) ok refl (flush-Valid db)

module _ (db : RedisDb) (ks : Keyspace) (from to : String) (r : Represents db ks)
    (full : Full ks) where
  same : (f : Frame) → IsReply (f ∷ []) → Sound (reply db f)
  same f one = Keeps-Sound _ (ks, f ∷ []) (r, refl) full one

  renamed-Sound :
      (v : Value) (f : Frame)
      → from ≢ to
      → ks from ≡ some v
      → IsReply (f ∷ [])
      → Sound (do db' ← rename db from to; reply db' f)
  unfolding Sound Valid
  renamed-Sound v f ne e one =
      Returns-bind (λ db'. Represents db' (remove (put ks to v) from))
        (λ res. Valid res.0 × IsReply res.1) _ _ (rename-Represents db ks from to v r ne e)
        (λ db' q. (
          (
            remove (put ks to v) from,
            q,
            Full-remove (put ks to v) from
                (Full-put_value ks to v (λ p. full from (e ∙ ap some p)) full),
          ),
          one,
        ))

  is_there : (k : String) (v : Value) → ks k ≡ some v → exists db k ≡ true
  unfolding exists
  is_there k (list l) e = rw (r.tags k ∙ ap tag_of e) refl
  is_there k (set s) e = rw (r.tags k ∙ ap tag_of e) refl

  is_absent : (k : String) → ks k ≡ none → exists db k ≡ false
  unfolding exists
  is_absent k e = rw (r.tags k ∙ ap tag_of e) refl

  rename_key-at : (o : Option Value) → ks from ≡ o → from ≢ to → Sound (rename_key from to db)
  unfolding rename_key owed
  rename_key-at none e ne = rw (is_absent from e, rename_key) (same _ refl)
  rename_key-at (some v) e ne = rw (is_there from v e, rename_key) (renamed-Sound v ok ne e refl)

  rename_key_nx-at :
      (o p : Option Value) → ks from ≡ o → ks to ≡ p → Sound (rename_key_nx from to db)
  unfolding rename_key_nx owed
  rename_key_nx-at none p e f = rw (is_absent from e, rename_key_nx) (same _ refl)
  rename_key_nx-at (some v) (some u) e f =
      rw (is_there from v e, rename_key_nx, is_there to u f) (same _ refl)
  rename_key_nx-at (some v) none e f =
      let absent = is_absent to f in
      rw (is_there from v e, rename_key_nx)
        (if-Sound (exists db to) _ _ (λ there. cc)
          (λ gone. renamed-Sound v (int (pos 1)) (λ p. ground (arith, e, f, ap ks p)) e refl))

pub rename_key-Sound :
    (from to : String) (db : RedisDb) → from ≢ to → Valid db → Sound (rename_key from to db)
unfolding Valid
rename_key-Sound from to db ne (ks, r, full) = rename_key-at db ks from to r full (ks from) refl ne

pub rename_key_nx-Sound :
    (from to : String) (db : RedisDb) → Valid db → Sound (rename_key_nx from to db)
unfolding Valid
rename_key_nx-Sound from to db (ks, r, full) =
    rename_key_nx-at db ks from to r full (ks from) (ks to) refl refl
