-- ===== src/Base/Map.antt =====
-- JavaScript's `Map` and `Set`: entries in insertion order; a write to a known key keeps its place.
use ayad_network_manager.Base.Tests.{if◌then◌else◌, Bool-cases}
use ayad_network_manager.Base.Lists.{All}
use mathlib.Core.Logic.{inl, inr}
use ayad_network_manager.Base.Equality.{Comparable, ◌==◌}
use mathlib.Core.Path.{◌≡◌, refl}
use mathlib.Core.Bool.{Bool, false, ◌||◌, not, ◌&&◌}
use mathlib.Core.Option.{Option, none, some}
use mathlib.Core.List.{List, [], ◌∷◌}
use native.Mathlib.Omega.{arith}

module _ {κ μ} {K : Type κ} ⦃e : Comparable K⦄ {V : Type μ} where
  unfoldable pub lookup : K → List (K × V) → Option V
  lookup wanted [] = none
  lookup wanted ((key, value) ∷ entries) =
      if key == wanted then some value else lookup wanted entries

  unfoldable pub insert : K → V → List (K × V) → List (K × V)
  insert key new [] = (key, new) ∷ []
  insert key new ((first, old) ∷ entries) =
      if first == key then (first, new) ∷ entries else (first, old) ∷ insert key new entries

  unfoldable pub erase : K → List (K × V) → List (K × V)
  erase gone [] = []
  erase gone ((key, value) ∷ entries) =
      let rest = erase gone entries in if key == gone then rest else (key, value) ∷ rest

  pub lookup-insert :
      (key wanted : K) (new : V) (entries : List (K × V))
      → lookup wanted (insert key new entries)
        ≡ (if key == wanted then some new else lookup wanted entries)
  unfolding insert lookup
  lookup-insert key wanted new [] = refl
  lookup-insert key wanted new ((first, old) ∷ entries) =
      let rest = lookup-insert key wanted new entries in
      ground (arith, rest, e.same_iff first key, e.same_iff first wanted, e.same_iff key wanted)

  pub lookup-erase :
      (gone wanted : K) (entries : List (K × V))
      → lookup wanted (erase gone entries)
        ≡ (if gone == wanted then none else lookup wanted entries)
  unfolding erase lookup
  lookup-erase gone wanted [] = ground arith
  lookup-erase gone wanted ((key, value) ∷ entries) =
      let rest = lookup-erase gone wanted entries in
      ground (arith, rest, e.same_iff key gone, e.same_iff key wanted, e.same_iff gone wanted)

module _ {κ} {K : Type κ} ⦃e : Comparable K⦄ where
  unfoldable pub has : K → List K → Bool
  has k [] = false
  has k (j ∷ s) = j == k || has k s

  unfoldable pub add : K → List K → List K
  add k [] = k ∷ []
  add k (j ∷ s) = if j == k then j ∷ s else j ∷ add k s

  unfoldable pub delete : K → List K → List K
  delete k [] = []
  delete k (j ∷ s) = if j == k then delete k s else j ∷ delete k s

  pub has-add : (k j : K) (s : List K) → has j (add k s) ≡ (k == j || has j s)
  unfolding has add
  has-add k j [] = refl
  has-add k j (i ∷ s) =
      ground (arith, e.same_iff k j, e.same_iff i k, e.same_iff i j, has-add k j s)

  pub has-delete : (k j : K) (s : List K) → has j (delete k s) ≡ (not (k == j) && has j s)
  unfolding has delete
  has-delete k j [] = ground arith
  has-delete k j (i ∷ s) =
      ground (arith, e.same_iff k j, e.same_iff i k, e.same_iff i j, has-delete k j s)

  pub All-add {μ} : (P : K → Type μ) (k : K) (s : List K) → P k → All P s → All P (add k s)
  unfolding add
  All-add P k [] p h = (p, tt)
  All-add P k (j ∷ s) p (q, h) = elim (Bool-cases (j == k)) [
    | inl found ↦ rw found (q, h)
    | inr other ↦ rw other (q, All-add P k s p h)
  ]
