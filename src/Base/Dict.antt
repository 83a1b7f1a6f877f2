-- ===== src/Base/Dict.antt =====
-- Go's `map`: an association list with one entry for each key.
use mathlib.Core.Path.{◌≡◌, refl}
use mathlib.Core.Logic.{◌⊎◌, inl, inr}
use mathlib.Core.Bool.{Bool, true, false}
use mathlib.Core.Option.{Option, none, some}
use mathlib.Core.List.{List, [], ◌∷◌}
use native.Mathlib.Omega.{arith}
use rediqueue.Base.Tests.{if◌then◌else◌}
use rediqueue.Base.Eq.{Equality, ◌==◌}

abbrev pub Dict {ℓ κ} : Type ℓ → Type κ → Type (ℓ ⊔ κ)
Dict K V = List (K × V)

module _ {ℓ κ} {K : Type ℓ} {V : Type κ} where
  abbrev pub empty : Dict K V
  empty = []

  -- The keys, each once: what `range` goes through.
  abbrev pub keys : Dict K V → List K
  keys [] = []
  keys ((k, v) ∷ m) = k ∷ keys m

module _ {ℓ κ} {K : Type ℓ} {V : Type κ} ⦃e : Equality K⦄ where
  -- v, ok := m[k]
  unfoldable pub lookup : Dict K V → K → Option V
  lookup [] k = none
  lookup ((j, v) ∷ m) k = if j == k then some v else lookup m k

  -- m[k] = v
  unfoldable pub insert : Dict K V → K → V → Dict K V
  insert [] k v = (k, v) ∷ []
  insert ((j, w) ∷ m) k v = if j == k then (k, v) ∷ m else (j, w) ∷ insert m k v

  -- delete(m, k)
  unfoldable pub delete : Dict K V → K → Dict K V
  delete [] k = []
  delete ((j, v) ∷ m) k = let rest = delete m k in if j == k then rest else (j, v) ∷ rest

  pub lookup-insert :
      (m : Dict K V) (k j : K) (v : V)
      → lookup (insert m k v) j ≡ (if k == j then some v else lookup m j)
  unfolding lookup insert
  lookup-insert [] k j v = refl
  lookup-insert ((i, w) ∷ m) k j v =
      ground (arith, e.beq_iff k j, e.beq_iff i k, e.beq_iff i j, lookup-insert m k j v)

  pub lookup-delete :
      (m : Dict K V) (k j : K) → lookup (delete m k) j ≡ (if k == j then none else lookup m j)
  unfolding lookup delete
  lookup-delete [] k j = ground arith
  lookup-delete ((i, w) ∷ m) k j =
      ground (arith, e.beq_iff k j, e.beq_iff i k, e.beq_iff i j, lookup-delete m k j)

  lookup-cons-if :
      (j k : K) (u v : V) (rest : Option V) (b : Bool)
      → (j == k) ≡ b
      → (if b then some u else rest) ≡ some v
      → ((j ≡ k) × (u ≡ v)) ⊎ (rest ≡ some v)
  lookup-cons-if j k u v rest true same found = inl ((e.beq_iff j k).0 same, cc)
  lookup-cons-if j k u v rest false other found = inr found

  -- What is found is the first entry, or is found behind it.
  pub lookup-cons :
      (m : Dict K V) (j k : K) (u v : V)
      → lookup ((j, u) ∷ m) k ≡ some v
      → ((j ≡ k) × (u ≡ v)) ⊎ (lookup m k ≡ some v)
  unfolding lookup
  lookup-cons m j k u v = lookup-cons-if j k u v (lookup m k) _ refl

pub ruleset dict_laws = (lookup-insert, lookup-delete)
