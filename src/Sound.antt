-- ===== src/Sound.antt =====
-- A valid database, and a callback that keeps it valid, does not panic and writes exactly one reply.
pub mod Ranges
pub mod Lists
pub mod Elements
pub mod Keys
pub mod Sets
pub mod Stores
pub mod Draws
pub mod Move
pub mod Blocks
pub mod Callbacks
pub mod Run
pub mod Handlers
pub mod Control
pub mod Safe
pub mod Registrations
pub mod Dispatch
pub mod Reach
use rediqueue.Base.{
  Bool, true, false, ℕ, ◌≡◌, ◌≢◌, refl, ap, sym, String, List, [], ◌∷◌, ◌++◌, Option, none, some,
  length, length-append, length-reverse, arith, eq_iff, string_eq, Returns, Returns-map, ◌==◌,
  if◌then◌else◌, ◌>>=◌,
}
use rediqueue.Reply.{Frame}
use rediqueue.Db.{RedisDb, SetKey, del}
use rediqueue.Db.Keyspace.{Value, list, set, Keyspace, Represents, put, remove}
use rediqueue.Db.Refine.{put_list, del-Represents}
use rediqueue.Cmd.Framing.{IsReply, owed, owed-bulks}
use rediqueue.Cmd.Lists.{Result, reply}
use rediqueue.Cmd.Keys.{write_all, write_scan}
use rediqueue.Cmd.ListSpec.{Keeps, Promise}

-- No key holds an empty list.
abbrev pub Full : Keyspace → Type 0
Full ks = (k : String) → ks k ≢ some (list [])

-- The three maps of the database agree on what each key holds, which is no empty list.
unfoldable pub Valid : RedisDb → Type 0
Valid db = (ks : Keyspace) × Represents db ks × Full ks

-- The callback returns, in a valid database, and has written exactly one reply.
unfoldable pub Sound : Result → Type 0
unfolding Valid
Sound res = Returns res (λ r. Valid r.0 × IsReply r.1)

pub reply-Sound : (db : RedisDb) (f : Frame) → IsReply (f ∷ []) → Valid db → Sound (reply db f)
unfolding Sound
reply-Sound db f one v = (v, one)

pub Keeps-Sound : (res : Result) (p : Promise) → Keeps res p → Full p.0 → IsReply p.1 → Sound res
unfolding Sound Valid
Keeps-Sound none p k full one = absurd k
Keeps-Sound (some (db, fs)) p (r, e) full one = ((p.0, r, full), rw e one)

pub Full-put-set : (ks : Keyspace) (k : String) (s : SetKey) → Full ks → Full (put ks k (set s))
Full-put-set ks k s full j = ground (arith, full j)

pub Full-put :
    (ks : Keyspace) (k x : String) (l : List String) → Full ks → Full (put ks k (list (x ∷ l)))
Full-put ks k x l full j = ground (arith, full j)

pub Full-remove : (ks : Keyspace) (k : String) → Full ks → Full (remove ks k)
Full-remove ks k full j = ground (arith, full j)

pub Full-put_list :
    (ks : Keyspace) (k : String) (l : List String) → Full ks → Full (put_list ks k l)
Full-put_list ks k [] full = Full-remove ks k full
Full-put_list ks k (x ∷ l) full = Full-put ks k x l full

pub Full-put_some :
    (ks : Keyspace) (k : String) (l : List String) → l ≢ [] → Full ks → Full (put ks k (list l))
Full-put_some ks k [] some' full = absurd (some' refl)
Full-put_some ks k (x ∷ l) some' full = Full-put ks k x l full

pub Full-put_value :
    (ks : Keyspace) (k : String) (v : Value) → v ≢ list [] → Full ks → Full (put ks k v)
Full-put_value ks k (set s) held full = Full-put-set ks k s full
Full-put_value ks k (list l) held full = Full-put_some ks k l (λ e. held (ap list e)) full

-- What is written for many elements is one reply.
pub write_all-Sound : (db : RedisDb) (els : List String) → Valid db → Sound (write_all db els)
unfolding Sound owed
write_all-Sound db els v = (v, owed-bulks 0 els)

pub write_scan-Sound : (db : RedisDb) (els : List String) → Valid db → Sound (write_scan db els)
unfolding Sound owed
write_scan-Sound db els v = (v, owed-bulks 0 els)

-- One element, or any number of them, behind a computation that returns.
pub bind-Sound :
    {A : Type 0} (m : Option A) (f : A → Result)
    → Returns m (λ a. Unit)
    → ((a : A) → Sound (f a))
    → Sound (m >>= f)
bind-Sound none f r k = absurd r
bind-Sound (some a) f r k = k a

pub del-Valid : (db : RedisDb) (k : String) → Valid db → Returns (del db k) (λ db'. Valid db')
unfolding Valid
del-Valid db k (ks, r, full) =
    Returns-map _ (λ db'. Valid db') _ (λ db' q. (remove ks k, q, Full-remove ks k full))
      (del-Represents db ks k r)

pub if-Sound :
    (b : Bool) (x y : Result)
    → (b ≡ true → Sound x)
    → (b ≡ false → Sound y)
    → Sound (if b then x else y)
if-Sound true x y p q = p refl
if-Sound false x y p q = q refl
