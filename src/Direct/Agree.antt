-- ===== src/Direct/Agree.antt =====
-- The methods of direct.go against the commands of the same name.
use rediqueue.Base.{
  ℕ, ◌≡◌, refl, not, Bool-cases, String, List, Option, none, some, ◌&&◌, ◌==◌, string_eq, ◌>>=◌,
  inl, inr,
}
use rediqueue.Base.Int.{pos}
use rediqueue.Reply.{Frame, error, bulk, null, int, msg_wrong_type}
use rediqueue.Db.{RedisDb, exists, t}
use rediqueue.Db.Lists.{list_lpop, list_pop}
use rediqueue.Cmd.Lists.{LeftRight, left, right, Result, reply, xpop}
use rediqueue.Db.Sets.{set_rem}
use rediqueue.Cmd.Sets.{sadd, srem}
use rediqueue.Direct.{
  Answer, done, key_not_found, wrong_type, direct_lpop, direct_pop, direct_set_add, direct_srem,
}

-- How a command writes an answer: `missing` where there is no key, and a value as the frame says.
abbrev pub written_as : {A : Type 0} → Frame → (A → Frame) → Option (RedisDb × Answer A) → Result
written_as missing frame none = none
written_as missing frame (some (db, done a)) = reply db (frame a)
written_as missing frame (some (db, key_not_found)) = reply db missing
written_as missing frame (some (db, wrong_type)) = reply db (error msg_wrong_type)

abbrev pub direct_xpop : LeftRight → String → RedisDb → Option (RedisDb × Answer String)
direct_xpop left k db = direct_lpop k db
direct_xpop right k db = direct_pop k db

popped_as :
    (m : Option (RedisDb × String))
    → (m >>= (λ p. reply p.0 (bulk p.1))) ≡ written_as null bulk (m >>= (λ p. some (p.0, done p.1)))
popped_as none = refl
popped_as (some p) = refl

-- LPOP and RPOP do to every database what the methods Lpop and Pop do, and reply with the element that these return, with
-- nil for ErrKeyNotFound and with WRONGTYPE for ErrWrongType; they panic where the methods do.
pub xpop-direct_xpop :
    (lr : LeftRight) (k : String) (db : RedisDb)
    → xpop lr k db ≡ written_as null bulk (direct_xpop lr k db)
unfolding xpop direct_lpop direct_pop
xpop-direct_xpop left k db = elim (Bool-cases (exists db k)) [
  | inr missing ↦ rw missing refl
  | inl there ↦ elim (Bool-cases (t db k == "list")) [
    | inl right_type ↦ rw (there, right_type) (popped_as (list_lpop db k))
    | inr other ↦ rw (there, other) refl
  ]
]
xpop-direct_xpop right k db = elim (Bool-cases (exists db k)) [
  | inr missing ↦ rw missing refl
  | inl there ↦ elim (Bool-cases (t db k == "list")) [
    | inl right_type ↦ rw (there, right_type) (popped_as (list_pop db k))
    | inr other ↦ rw (there, other) refl
  ]
]

-- SADD does to every database what the method SetAdd does, and replies with its number, or with WRONGTYPE for its error.
pub sadd-direct_set_add :
    (k : String) (elems : List String) (db : RedisDb)
    → sadd k elems db ≡ written_as null (λ n. int (pos n)) (direct_set_add k elems db)
unfolding sadd direct_set_add
sadd-direct_set_add k elems db = elim (Bool-cases (exists db k && not (t db k == "set"))) [
  | inl other ↦ rw other refl
  | inr fine ↦ rw fine refl
]

removed_as :
    (m : Option (RedisDb × ℕ))
    → (m >>= (λ p. reply p.0 (int (pos p.1))))
      ≡ written_as (int (pos 0)) (λ n. int (pos n)) (m >>= (λ p. some (p.0, done p.1)))
removed_as none = refl
removed_as (some p) = refl

-- SREM does to every database what the method SRem does, and replies with its number, with 0 for ErrKeyNotFound, and with
-- WRONGTYPE for ErrWrongType; it panics where the method does.
pub srem-direct_srem :
    (k : String) (fields : List String) (db : RedisDb)
    → srem k fields db ≡ written_as (int (pos 0)) (λ n. int (pos n)) (direct_srem k fields db)
unfolding srem direct_srem
srem-direct_srem k fields db = elim (Bool-cases (exists db k)) [
  | inr missing ↦ rw missing refl
  | inl there ↦ elim (Bool-cases (t db k == "set")) [
    | inl right_type ↦ rw (there, right_type) (removed_as (set_rem db k fields))
    | inr other ↦ rw (there, other) refl
  ]
]
