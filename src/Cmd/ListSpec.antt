-- ===== src/Cmd/ListSpec.antt =====
-- What the list commands promise, over the abstract view: the view after a command and its reply.
use rediqueue.Base.{
  ℕ, ◌≡◌, String, List, [], ◌∷◌, ◌++◌, Option, none, some, length, get_elem?, set, string_eq,
  if◌then◌else◌, Returns, ltb, ◌-◌,
}
use rediqueue.Base.Int.{ℤ, pos, negsuc}
use mathlib.Core.List.{reverse}
use rediqueue.Reply.{
  Frame, error, bulk, null, int, ok, msg_wrong_type, msg_out_of_range, msg_key_not_found,
}
use rediqueue.Db.Keyspace.{Value, list, Keyspace, Represents, put}
use rediqueue.Db.Refine.{put_list, elements}
use rediqueue.Cmd.Lists.{Result, LeftRight, left, right}

-- The view afterwards, and what is written.
abbrev pub Promise : Type 0
Promise = Keyspace × List Frame

-- The callback returns, in a database with the promised view, and writes the promised frames.
abbrev pub Keeps : Result → Promise → Type 0
Keeps res p = Returns res (λ r. Represents r.0 p.0 × (r.1 ≡ p.1))

abbrev pub refused : Keyspace → Promise
refused ks = (ks, error msg_wrong_type ∷ [])

abbrev pub bulk_or_null : Option String → Frame
bulk_or_null none = null
bulk_or_null (some el) = bulk el

abbrev pub llen_at : Keyspace → Option Value → Promise
llen_at ks none = (ks, int (pos 0) ∷ [])
llen_at ks (some (list l)) = (ks, int (pos (length l)) ∷ [])
llen_at ks (some (Value.set s)) = refused ks

-- The list after the values have been pushed one by one.
abbrev pub pushed : LeftRight → List String → List String → List String
pushed left args l = reverse args ++ l
pushed right args l = l ++ args

abbrev pub xpush_at : LeftRight → Keyspace → String → List String → Option Value → Promise
xpush_at lr ks key args none =
    (put ks key (list (pushed lr args [])), int (pos (length (pushed lr args []))) ∷ [])
xpush_at lr ks key args (some (list l)) =
    (put ks key (list (pushed lr args l)), int (pos (length (pushed lr args l))) ∷ [])
xpush_at lr ks key args (some (Value.set s)) = refused ks

-- LPUSHX and RPUSHX do nothing at a key that is not there.
abbrev pub xpushx_at : LeftRight → Keyspace → String → List String → Option Value → Promise
xpushx_at lr ks key args none = (ks, int (pos 0) ∷ [])
xpushx_at lr ks key args (some v) = xpush_at lr ks key args (some v)

-- LPOP of the first element, and RPOP of the last one, of a list that is there.
abbrev pub popped : Keyspace → String → String → List String → Promise
popped ks key x l = (put_list ks key l, bulk x ∷ [])

-- What RPOPLPUSH promises where `src` holds `l` and then `x`: `x` moves to the head of `dst`, which may be
-- the same key.
abbrev pub rotated : Keyspace → String → String → List String → String → Promise
rotated ks src dst l x =
    let taken : Keyspace = put_list ks src l in
    (put taken dst (list (x ∷ elements (taken dst))), bulk x ∷ [])

-- The index that an offset stands for, counted from the end where it is negative.
abbrev pub position : ℕ → ℤ → Option ℕ
position n (pos i) = if ltb i n then some i else none
position n (negsuc a) = if ltb a n then some (n - 1 - a) else none

abbrev pub bulk_at : List String → Option ℕ → Frame
bulk_at l none = null
bulk_at l (some i) = bulk_or_null (get_elem? l i)

abbrev pub lindex_at : Keyspace → ℤ → Option Value → Promise
lindex_at ks offset none = (ks, null ∷ [])
lindex_at ks offset (some (list l)) = (ks, bulk_at l (position (length l) offset) ∷ [])
lindex_at ks offset (some (Value.set s)) = refused ks

abbrev pub written : Keyspace → String → List String → String → Option ℕ → Promise
written ks key l value none = (ks, error msg_out_of_range ∷ [])
written ks key l value (some i) = (put ks key (list (set l i value)), ok ∷ [])

abbrev pub lset_at : Keyspace → String → ℤ → String → Option Value → Promise
lset_at ks key index value none = (ks, error msg_key_not_found ∷ [])
lset_at ks key index value (some (list l)) = written ks key l value (position (length l) index)
lset_at ks key index value (some (Value.set s)) = refused ks

abbrev pub of_reversed : List String → Option (String × List String)
of_reversed [] = none
of_reversed (x ∷ m) = some (x, reverse m)

-- The element at one end of a list, and the others.
abbrev pub end_of : LeftRight → List String → Option (String × List String)
end_of left [] = none
end_of left (x ∷ l) = some (x, l)
end_of right l = of_reversed (reverse l)

abbrev pub popped_at : Keyspace → String → Option (String × List String) → Promise
popped_at ks key none = (ks, null ∷ [])
popped_at ks key (some (x, l)) = popped ks key x l

abbrev pub xpop_at : LeftRight → Keyspace → String → Option Value → Promise
xpop_at lr ks key none = (ks, null ∷ [])
xpop_at lr ks key (some (list l)) = popped_at ks key (end_of lr l)
xpop_at lr ks key (some (Value.set s)) = refused ks
