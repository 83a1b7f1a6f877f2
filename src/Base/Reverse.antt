-- ===== src/Base/Reverse.antt =====
-- The swaps of `reverseSlice` reverse a list.
use Prim.Native.Nat.{ℕ, zero, suc, ◌+◌, ◌-◌, ◌/◌, ◌<◌, ◌≤◌}
use mathlib.Core.Path.{◌≡◌, refl, sym, ap, ◌∙◌}
use mathlib.Core.Logic.{◌⊎◌, inl, inr}
use mathlib.Core.List.{List, [], ◌∷◌, ◌++◌, reverse, reverse-cons}
use mathlib.Core.Bool.{Bool, ◌&&◌, ◌||◌}
use mathlib.Core.Option.{none, some}
use native.Mathlib.Omega.{arith}
use rediqueue.Base.Lists.{
  length, get_elem?, set, swap, swap_rounds, reverse_slice, length-set, length-reverse,
  get_elem?-lt,
}
use rediqueue.Base.Tests.{ltb, leb, nat_beq, if◌then◌else◌}

-- The places that the rounds from `i` on exchange, of `m` places.
abbrev mirrored : ℕ → ℕ → ℕ → ℕ → Bool
mirrored n i m k = (leb i k && ltb k (i + n)) || (ltb k (m - i) && leb (m - i - n) k)

Nat_cases : (k n : ℕ) → (k < n) ⊎ (n ≤ k)
Nat_cases k n = omega arith

place : (n k : ℕ) → k < n → suc (n - 1 - k) ≡ suc n - 1 - k
place n k h = omega arith

front : (n k : ℕ) → n ≤ k → k < suc n → 0 ≡ suc n - 1 - k
front n k h l = omega arith

module _ {A : Type 0} where
  -- Lists with the same elements at every index are equal.
  list_ext : (xs ys : List A) → ((i : ℕ) → get_elem? xs i ≡ get_elem? ys i) → xs ≡ ys
  list_ext [] [] h = refl
  list_ext [] (y ∷ ys) h = cc (h 0)
  list_ext (x ∷ xs) [] h = cc (h 0)
  list_ext (x ∷ xs) (y ∷ ys) h = ground (arith, h 0, list_ext xs ys (λ i. h (suc i)))

  get_elem?-set :
      (xs : List A) (i j : ℕ) (v : A)
      → i < length xs
      → get_elem? (set xs i v) j ≡ (if nat_beq i j then some v else get_elem? xs j)
  get_elem?-set [] i j v h = elim h [ ]
  get_elem?-set (x ∷ xs) zero zero v h = refl
  get_elem?-set (x ∷ xs) zero (suc j) v h = ground arith
  get_elem?-set (x ∷ xs) (suc i) zero v h = ground arith
  get_elem?-set (x ∷ xs) (suc i) (suc j) v h = ground (arith, get_elem?-set xs i j v (omega arith))

  length-swap :
      (o : List A) (i j : ℕ) → i < length o → j < length o → length (swap o i j) ≡ length o
  length-swap o i j hi hj =
      let (x, ex) = get_elem?-lt o i hi in
      let (y, ey) = get_elem?-lt o j hj in
      rw (ex, ey) (length-set (set o i y) j x ∙ length-set o i y)

  get_elem?-swap :
      (o : List A) (i j k : ℕ)
      → i < length o
      → j < length o
      → get_elem? (swap o i j) k ≡ (
          if nat_beq j k
          then get_elem? o i
          else if nat_beq i k
          then get_elem? o j
          else get_elem? o k)
  get_elem?-swap o i j k hi hj =
      let (x, ex) = get_elem?-lt o i hi in
      let (y, ey) = get_elem?-lt o j hj in
      rw (ex, ey)
        (ground
          (arith, get_elem?-set (set o i y) j k x (rw length-set hj), get_elem?-set o i k y hi))

  get_elem?-swap_rounds :
      (n i : ℕ) (o : List A) (k : ℕ)
      → (i + n) + (i + n) ≤ length o
      → k < length o
      → get_elem? (swap_rounds n i o) k
        ≡ (if mirrored n i (length o) k then get_elem? o (length o - 1 - k) else get_elem? o k)
  unfolding swap_rounds
  get_elem?-swap_rounds zero i o k h hk = ground arith
  get_elem?-swap_rounds (suc n) i o k h hk =
      let j = length o - 1 - i in
      let o' = swap o i j in
      let same : length o' ≡ length o = length-swap o i j (omega arith) (omega arith) in
      let ih = get_elem?-swap_rounds n (suc i) o' k (omega arith) (omega arith) in
      let a = get_elem?-swap o i j k (omega arith) (omega arith) in
      let b = get_elem?-swap o i j (length o - 1 - k) (omega arith) (omega arith) in
      ground (arith, same, ih, a, b)

  length-swap_rounds :
      (n i : ℕ) (o : List A) → (i + n) + (i + n) ≤ length o → length (swap_rounds n i o) ≡ length o
  unfolding swap_rounds
  length-swap_rounds zero i o h = refl
  length-swap_rounds (suc n) i o h =
      let j = length o - 1 - i in
      let same : length (swap o i j) ≡ length o = length-swap o i j (omega arith) (omega arith) in
      length-swap_rounds n (suc i) (swap o i j) (omega arith) ∙ same

  get_elem?-append_left :
      (xs ys : List A) (k : ℕ) → k < length xs → get_elem? (xs ++ ys) k ≡ get_elem? xs k
  get_elem?-append_left [] ys k h = elim h [ ]
  get_elem?-append_left (x ∷ xs) ys zero h = refl
  get_elem?-append_left (x ∷ xs) ys (suc k) h = get_elem?-append_left xs ys k (omega arith)

  get_elem?-append_at : (xs : List A) (y : A) → get_elem? (xs ++ y ∷ []) (length xs) ≡ some y
  get_elem?-append_at [] y = refl
  get_elem?-append_at (x ∷ xs) y = get_elem?-append_at xs y

  get_elem?-ge : (xs : List A) (k : ℕ) → length xs ≤ k → get_elem? xs k ≡ none
  get_elem?-ge [] k h = refl
  get_elem?-ge (x ∷ xs) zero h = absurd (omega arith)
  get_elem?-ge (x ∷ xs) (suc k) h = get_elem?-ge xs k (omega arith)

  get_elem?-reverse :
      (o : List A) (k : ℕ) → k < length o → get_elem? (reverse o) k ≡ get_elem? o (length o - 1 - k)
  get_elem?-reverse [] k h = elim h [ ]
  get_elem?-reverse (x ∷ o) k h = elim (Nat_cases k (length o)) [
    | inl lt ↦ rw (reverse-cons x o) (
        get_elem?-append_left (reverse o) (x ∷ []) k (omega (arith, length-reverse o))
        ∙ (get_elem?-reverse o k lt ∙ ap (get_elem? (x ∷ o)) (place (length o) k lt)))
    | inr eq ↦ rw (reverse-cons x o) (
        ap (get_elem? (reverse o ++ x ∷ [])) (omega (arith, length-reverse o))
        ∙ (get_elem?-append_at (reverse o) x ∙ ap (get_elem? (x ∷ o)) (front (length o) k eq h)))
  ]

  -- `reverseSlice` reverses the list.
  pub reverse_slice_lem : (o : List A) → reverse_slice o ≡ reverse o
  unfolding reverse_slice
  reverse_slice_lem o = list_ext _ _ λ k. elim (Nat_cases k (length o)) [
    | inl lt ↦
        get_elem?-swap_rounds (length o / 2) 0 o k (omega arith) lt
        ∙ (ground (arith) ∙ sym (get_elem?-reverse o k lt))
    | inr ge ↦
        get_elem?-ge (swap_rounds (length o / 2) 0 o) k
          (omega (arith, length-swap_rounds (length o / 2) 0 o (omega arith)))
        ∙ sym (get_elem?-ge (reverse o) k (omega (arith, length-reverse o)))
  ]
