-- ===== src/Cmd/Framing.antt =====
-- How many complete replies a sequence of `Write…` calls makes: a client that is owed `n` replies reads
-- an array as its length and then its elements.
use Prim.Native.Nat.add
use native.Mathlib.Nat.{add_assoc}
use rediqueue.Base.{
  ap, sym, ◌∙◌, ℕ, zero, suc, ◌+◌, ◌≡◌, List, [], ◌∷◌, ◌++◌, map, String, Option, none, some,
  length, arith,
}
use rediqueue.Base.Int.{pos, negsuc}
use rediqueue.Reply.{Frame, error, inline, bulk, null, array, int}

-- The replies that are still owed behind the frames; `none` where a frame is not owed, or is an array
-- of a negative length.
unfoldable pub owed : ℕ → List Frame → Option ℕ
owed n [] = some n
owed zero (f ∷ fs) = none
owed (suc n) (array (pos k) ∷ fs) = owed (k + n) fs
owed (suc n) (array (negsuc k) ∷ fs) = none
owed (suc n) (error s ∷ fs) = owed n fs
owed (suc n) (inline s ∷ fs) = owed n fs
owed (suc n) (bulk s ∷ fs) = owed n fs
owed (suc n) (null ∷ fs) = owed n fs
owed (suc n) (int i ∷ fs) = owed n fs

-- The frames are exactly `n` replies.
abbrev pub AreReplies : ℕ → List Frame → Type 0
AreReplies n fs = owed n fs ≡ some 0

-- Exactly one reply, as a client expects for each command.
abbrev pub IsReply : List Frame → Type 0
IsReply fs = AreReplies 1 fs

pub owed-bulks : (n : ℕ) (els : List String) → owed (length els + n) (map bulk els) ≡ some n
unfolding owed
owed-bulks n [] = rw (add.zero n)
owed-bulks n (x ∷ els) = rw (add.suc (length els) n) (owed-bulks n els)

-- Frames behind frames: what the first are not owed is left for the others.
pub owed-append :
    (n m : ℕ) {k : ℕ} (fs gs : List Frame)
    → owed n fs ≡ some k
    → owed (n + m) (fs ++ gs) ≡ owed (k + m) gs
unfolding owed
owed-append n m [] gs e = ground arith
owed-append zero m (f ∷ fs) gs e = cc
owed-append (suc n) m (array (pos i) ∷ fs) gs e =
    rw (add.suc n m)
      (ap (λ j. owed j (fs ++ gs)) (sym (add_assoc i n m)) ∙ owed-append (i + n) m fs gs e)
owed-append (suc n) m (array (negsuc i) ∷ fs) gs e = cc
owed-append (suc n) m (error s ∷ fs) gs e = rw (add.suc n m) (owed-append n m fs gs e)
owed-append (suc n) m (inline s ∷ fs) gs e = rw (add.suc n m) (owed-append n m fs gs e)
owed-append (suc n) m (bulk s ∷ fs) gs e = rw (add.suc n m) (owed-append n m fs gs e)
owed-append (suc n) m (null ∷ fs) gs e = rw (add.suc n m) (owed-append n m fs gs e)
owed-append (suc n) m (int i ∷ fs) gs e = rw (add.suc n m) (owed-append n m fs gs e)
