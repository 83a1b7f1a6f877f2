-- ===== src/Cmd/Push.antt =====
-- The pushes of cmd_list.go, and LLEN, keep what `ListSpec` promises.
use rediqueue.Base.{
  ℕ, ◌≡◌, refl, ap, ◌∙◌, String, List, [], ◌∷◌, ◌++◌, Option, none, some, length, string_eq, arith,
  eq_iff,
}
use rediqueue.Base.Int.{pos}
use mathlib.Core.List.{reverse, reverse-cons, append_assoc, append-nil}
use rediqueue.Reply.{int}
use rediqueue.Db.{RedisDb}
use rediqueue.Db.Keyspace.{Value, list, set, Keyspace, Represents, put, tag_of, list_part, set_part}
use rediqueue.Db.Refine.{list_lpush-Represents, list_push-Represents, elements}
use rediqueue.Db.RefineSets.{Represents-ext}
use rediqueue.Cmd.Lists.{LeftRight, left, right, llen, push_each, push_side, xpush, xpushx}
use rediqueue.Cmd.ListSpec.{Keeps, llen_at, pushed, xpush_at, xpushx_at}

module _ (db : RedisDb) (ks : Keyspace) (key : String) (r : Represents db ks) where
  llen-at : (o : Option Value) → ks key ≡ o → Keeps (llen key db) (llen_at ks o)
  unfolding llen
  llen-at none e = rw (r.tags key ∙ ap tag_of e, llen) (r, refl)
  llen-at (some (list l)) e =
      rw (r.tags key ∙ ap tag_of e, llen, r.lists key ∙ ap list_part e) (r, refl)
  llen-at (some (set s)) e = rw (r.tags key ∙ ap tag_of e, llen) (r, refl)

  -- On a database that the view represents, LLEN replies with the length of a list, with 0 at a missing key and
  -- with WRONGTYPE at a set, and changes nothing.
  pub llen-Keeps : Keeps (llen key db) (llen_at ks (ks key))
  llen-Keeps = llen-at (ks key) refl

abbrev push_one : LeftRight → String → List String → List String
push_one left v l = v ∷ l
push_one right v l = l ++ v ∷ []

pushed-cons :
    (lr : LeftRight) (v : String) (args l : List String)
    → pushed lr args (push_one lr v l) ≡ pushed lr (v ∷ args) l
pushed-cons left v args l = rw (reverse-cons v args, append_assoc (reverse args) (v ∷ []) l)
pushed-cons right v args l = append_assoc l (v ∷ []) args

push_side-Represents :
    (lr : LeftRight) (db : RedisDb) (ks : Keyspace) (key v : String)
    → Represents db ks
    → set_part (ks key) ≡ none
    → Represents (push_side lr db key v).0 (put ks key (list (push_one lr v (elements (ks key)))))
      × ((push_side lr db key v).1 ≡ length (push_one lr v (elements (ks key))))
unfolding push_side
push_side-Represents left db ks key v r e = list_lpush-Represents db ks key r v e
push_side-Represents right db ks key v r e = list_push-Represents db ks key r (v ∷ []) e

put_self : (ks : Keyspace) (key : String) (v : Value) → put ks key v key ≡ some v
put_self ks key v = ground (arith, eq_iff key key)

push_each-Represents :
    (lr : LeftRight) (ks : Keyspace) (key : String) (args l : List String) (db : RedisDb) (n : ℕ)
    → Represents db (put ks key (list l))
    → n ≡ length l
    → Represents (push_each lr db key args n).0 (put ks key (list (pushed lr args l)))
      × ((push_each lr db key args n).1 ≡ length (pushed lr args l))
unfolding push_each
push_each-Represents left ks key [] l db n r e = (r, e)
push_each-Represents right ks key [] l db n r e = rw append-nil (r, e)
push_each-Represents lr ks key (v ∷ args) l db n r e =
    let js : Keyspace = put ks key (list l) in
    let held : elements (js key) ≡ l = ap elements (put_self ks key (list l)) in
    let p = push_side-Represents lr db js key v r (ap set_part (put_self ks key (list l))) in
    rw (← pushed-cons lr v args l) (
      push_each-Represents lr ks key args (push_one lr v l) (push_side lr db key v).0
        (push_side lr db key v).1
        (Represents-ext {ks = put js key (list (push_one lr v (elements (js key))))}
          {js = put ks key (list (push_one lr v l))} (λ j. ground (arith, held, eq_iff key j)) p.0)
        (p.1 ∙ ap (λ m. length (push_one lr v m)) held))

module _ (lr : LeftRight) (db : RedisDb) (ks : Keyspace) (key v : String) (args : List String)
    (r : Represents db ks) where
  -- The first push makes the list where the key is not there, and the others go on from it.
  xpush_rest :
      (l : List String) (n : ℕ)
      → set_part (ks key) ≡ none
      → elements (ks key) ≡ l
      → Represents (push_each lr db key (v ∷ args) n).0 (put ks key (list (pushed lr (v ∷ args) l)))
        × ((push_each lr db key (v ∷ args) n).1 ≡ length (pushed lr (v ∷ args) l))
  unfolding push_each
  xpush_rest l n e held =
      let p = push_side-Represents lr db ks key v r e in
      rw (← pushed-cons lr v args l) (
        push_each-Represents lr ks key args (push_one lr v l) (push_side lr db key v).0
          (push_side lr db key v).1 (rw held at p.0)
          (p.1 ∙ ap (λ m. length (push_one lr v m)) held))

  xpush-at :
      (o : Option Value)
      → ks key ≡ o
      → Keeps (xpush lr key (v ∷ args) db) (xpush_at lr ks key (v ∷ args) o)
  unfolding xpush
  xpush-at none e =
      let p = xpush_rest [] 0 (ap set_part e) (ap elements e) in
      rw (r.tags key ∙ ap tag_of e, xpush) (p.0, ap (λ n. int (pos n) ∷ []) p.1)
  xpush-at (some (list l)) e =
      let p = xpush_rest l 0 (ap set_part e) (ap elements e) in
      rw (r.tags key ∙ ap tag_of e, xpush) (p.0, ap (λ n. int (pos n) ∷ []) p.1)
  xpush-at (some (set s)) e = rw (r.tags key ∙ ap tag_of e, xpush) (r, refl)

  -- On a database that the view represents, LPUSH and RPUSH of at least one value put the values, one by one, in
  -- front of or behind the list at the key, which is made if there is none, and reply with its new length; at a
  -- set they reply WRONGTYPE and change nothing. No other key is touched, and nothing panics.
  pub xpush-Keeps : Keeps (xpush lr key (v ∷ args) db) (xpush_at lr ks key (v ∷ args) (ks key))
  xpush-Keeps = xpush-at (ks key) refl

  xpushx-at :
      (o : Option Value)
      → ks key ≡ o
      → Keeps (xpushx lr key (v ∷ args) db) (xpushx_at lr ks key (v ∷ args) o)
  unfolding xpushx
  xpushx-at none e = rw (r.tags key ∙ ap tag_of e, xpushx) (r, refl)
  xpushx-at (some (list l)) e =
      let p = xpush_rest l 0 (ap set_part e) (ap elements e) in
      rw (r.tags key ∙ ap tag_of e, xpushx) (p.0, ap (λ n. int (pos n) ∷ []) p.1)
  xpushx-at (some (set s)) e = rw (r.tags key ∙ ap tag_of e, xpushx) (r, refl)

  -- On a database that the view represents, LPUSHX and RPUSHX of at least one value do what LPUSH and RPUSH do where
  -- the key is there; where it is missing they reply 0 and change nothing.
  pub xpushx-Keeps : Keeps (xpushx lr key (v ∷ args) db) (xpushx_at lr ks key (v ∷ args) (ks key))
  xpushx-Keeps = xpushx-at (ks key) refl
