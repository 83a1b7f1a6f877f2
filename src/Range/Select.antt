-- ===== src/Range/Select.antt =====
-- The elements that an inclusive range of Redis stands for, and Go's slice of them.
use rediqueue.Base.{
  ℕ, zero, suc, ◌+◌, ◌-◌, ◌≤◌, ◌<◌, ◌≡◌, ◌≢◌, ◌↔◌, refl, sym, ap, ◌∙◌, Bool, true, false, ◌&&◌,
  List, [], ◌∷◌, length, take, drop, leb, ltb, arith, if◌then◌else◌, String,
}
use rediqueue.Base.Int.{ℤ, pos, negsuc, pos_part, IsInt, max_int}
use rediqueue.Range.{redis_range}
use rediqueue.Range.Bounds.{From, UpTo, redis_range_iff}

-- The index is not before `start`, nor behind `end`; negative ends count from the end of the list.
abbrev pub not_before : ℕ → ℤ → ℕ → Bool
not_before n (pos a) i = leb a i
not_before n (negsuc a) i = leb n (i + suc a)

abbrev pub not_behind : ℕ → ℤ → ℕ → Bool
not_behind n (pos b) i = leb i b
not_behind n (negsuc b) i = leb (i + suc b) n

-- The elements whose index, counted on from `i`, passes the test.
abbrev pub select : (ℕ → Bool) → ℕ → List String → List String
select p i [] = []
select p i (x ∷ xs) = if p i then x ∷ select p (suc i) xs else select p (suc i) xs

-- The elements of an inclusive range.
abbrev pub ranged : ℤ → ℤ → List String → List String
ranged start end l = select (λ i. not_before (length l) start i && not_behind (length l) end i) 0 l

select-suc :
    (p : ℕ → Bool) (i : ℕ) (xs : List String) → select p (suc i) xs ≡ select (λ j. p (suc j)) i xs
select-suc p i [] = refl
select-suc p i (x ∷ xs) =
    ap (λ rest. if p (suc i) then x ∷ rest else rest) (select-suc p (suc i) xs)

select-ext :
    (p q : ℕ → Bool) (i : ℕ) (xs : List String)
    → ((j : ℕ) → j < i + length xs → p j ≡ q j)
    → select p i xs ≡ select q i xs
select-ext p q i [] h = refl
select-ext p q i (x ∷ xs) h =
    let rest = select-ext p q (suc i) xs (λ j k. h j (omega arith)) in
    ground (arith, h i (omega arith))

select-none :
    (p : ℕ → Bool) (i : ℕ) (xs : List String) → ((j : ℕ) → p j ≡ false) → select p i xs ≡ []
select-none p i [] h = refl
select-none p i (x ∷ xs) h = rw (h i) (select-none p (suc i) xs h)

take-nil : (n : ℕ) → take {A = String} n [] ≡ []
take-nil zero = refl
take-nil (suc n) = refl

select-take : (b : ℕ) (xs : List String) → select (λ j. leb 0 j && ltb j b) 0 xs ≡ take b xs
select-take zero [] = refl
select-take (suc b) [] = refl
select-take zero (x ∷ xs) = select-none (λ j. leb 0 j && ltb j 0) 0 (x ∷ xs) (λ j. ground arith)
select-take (suc b) (x ∷ xs) =
    let rest : select (λ i. leb 0 i && ltb i (suc b)) 1 xs ≡ take b xs =
      select-suc _ 0 xs
      ∙ (select-ext (λ j. leb 0 (suc j) && ltb (suc j) (suc b)) (λ j. leb 0 j && ltb j b) 0 xs
            (λ j k. ground arith)
          ∙ select-take b xs) in
    ground (arith, rest)

sub_zero : (a : ℕ) → 0 ≡ 0 - suc a
sub_zero a = omega arith

-- The elements at the indices from `a` to before `b` are Go's `xs[a:b]`.
select-slice :
    (a b : ℕ) (xs : List String) → select (λ j. leb a j && ltb j b) 0 xs ≡ take (b - a) (drop a xs)
select-slice zero b xs = select-take b xs ∙ ap (λ c. take c xs) (omega arith)
select-slice (suc a) b [] = sym (take-nil (b - suc a))
select-slice (suc a) zero (x ∷ xs) =
    select-none (λ j. leb (suc a) j && ltb j 0) 0 (x ∷ xs) (λ j. ground arith)
    ∙ ap (λ c. take c (drop a xs)) (sub_zero a)
select-slice (suc a) (suc b) (x ∷ xs) =
    let rest : select (λ j. leb (suc a) j && ltb j (suc b)) 1 xs
        ≡ take (suc b - suc a) (drop a xs) =
      select-suc _ 0 xs
      ∙ (select-ext (λ j. leb (suc a) (suc j) && ltb (suc j) (suc b)) (λ j. leb a j && ltb j b) 0 xs
            (λ j k. ground arith)
          ∙ (select-slice a b xs ∙ ap (λ c. take c (drop a xs)) (omega arith))) in
    ground (arith, rest)

not_before_iff : (n : ℕ) (start : ℤ) (i : ℕ) → (not_before n start i ≡ true) ↔ From n start i
not_before_iff n (pos a) i = ground arith
not_before_iff n (negsuc a) i = ground arith

not_behind_iff : (n : ℕ) (end : ℤ) (i : ℕ) → (not_behind n end i ≡ true) ↔ UpTo n end i
not_behind_iff n (pos a) i = ground arith
not_behind_iff n (negsuc a) i = ground arith

and_iff :
    (b c : Bool) (P Q : Type 0) → (b ≡ true) ↔ P → (c ≡ true) ↔ Q → ((b && c) ≡ true) ↔ (P × Q)
and_iff true true P Q p q = (λ _. (p.0 refl, q.0 refl), λ _. refl)
and_iff true false P Q p q = (λ e. cc, λ h. q.1 h.1)
and_iff false c P Q p q = (λ e. cc, λ h. p.1 h.0)

bool_eq : (b c : Bool) (P Q : Type 0) → (b ≡ true) ↔ P → (c ≡ true) ↔ Q → P ↔ Q → b ≡ c
bool_eq true true P Q p q h = refl
bool_eq true false P Q p q h = sym (q.1 (h.0 (p.0 refl)))
bool_eq false true P Q p q h = p.1 (h.1 (q.0 refl))
bool_eq false false P Q p q h = refl

slice_iff : (a b i : ℕ) → ((leb a i && ltb i b) ≡ true) ↔ ((a ≤ i) × (i < b))
slice_iff a b i = ground arith

-- The offsets of `redisRange` cut the elements of the inclusive range out of the list.
pub take-redis_range :
    (l : List String) (start end : ℤ)
    → length l ≤ max_int
    → IsInt start
    → IsInt end
    → end ≢ pos max_int
    → let r = redis_range (pos (length l)) start end false in
      take (pos_part r.1 - pos_part r.0) (drop (pos_part r.0) l) ≡ ranged start end l
take-redis_range l start end hn hs he ne =
    let n = length l in
    let r = redis_range (pos n) start end false in
    sym (select-slice (pos_part r.0) (pos_part r.1) l)
    ∙ select-ext _ _ 0 l (λ j k.
      bool_eq _ _ _ _ (slice_iff (pos_part r.0) (pos_part r.1) j)
        (and_iff _ _ _ _ (not_before_iff n start j) (not_behind_iff n end j))
        (redis_range_iff n j start end hn hs he ne (omega arith)))
