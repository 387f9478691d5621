-- ===== src/Prelude/Sets.antt =====
-- A `HashSet` as a list, the removal of a map's row, and how often a test holds in a list.
use Prim.Native.Nat.{ℕ, ◌+◌, suc}
use mathlib.Core.Path.{◌≡◌}
use mathlib.Core.Bool.{Bool, false, not, ◌&&◌, ◌||◌}
use mathlib.Core.Option.{none}
use mathlib.Core.List.{List, [], ◌∷◌, ◌++◌}
use native.Mathlib.Omega.{arith}
use arxium.Prelude.Tests.{Key, ◌==◌, if◌then◌else◌}
use arxium.Prelude.Map.{Map, get}

module _ {ℓ} {K : Type ℓ} ⦃e : Key K⦄ where
  unfoldable pub holds : K → List K → Bool
  holds k [] = false
  holds k (j ∷ set) = j == k || holds k set

  -- `HashSet::insert` and `HashSet::remove`
  unfoldable pub include : K → List K → List K
  include k set = if holds k set then set else k ∷ set

  unfoldable pub exclude : K → List K → List K
  exclude k [] = []
  exclude k (j ∷ set) = if j == k then exclude k set else j ∷ exclude k set

  pub holds-include : (k j : K) (set : List K) → holds j (include k set) ≡ (k == j || holds j set)
  unfolding holds include
  holds-include k j set = ground (arith, e.same_iff k j)

  pub holds-exclude :
      (k j : K) (set : List K) → holds j (exclude k set) ≡ (not (k == j) && holds j set)
  unfolding holds exclude
  holds-exclude k j [] = ground arith
  holds-exclude k j (i ∷ set) =
      ground (arith, e.same_iff i k, e.same_iff i j, e.same_iff k j, holds-exclude k j set)

module _ {ℓ κ} {K : Type ℓ} {V : Type κ} ⦃e : Key K⦄ where
  unfoldable pub remove : K → Map K V → Map K V
  remove k [] = []
  remove k ((j, v) ∷ m) = if j == k then remove k m else (j, v) ∷ remove k m

  pub get-remove : (k j : K) (m : Map K V) → get j (remove k m) ≡ (if k == j then none else get j m)
  unfolding get remove
  get-remove k j [] = ground arith
  get-remove k j ((i, v) ∷ m) =
      ground (arith, e.same_iff i k, e.same_iff i j, e.same_iff k j, get-remove k j m)

module _ {ℓ} {A : Type ℓ} where
  unfoldable pub count : (A → Bool) → List A → ℕ
  count p [] = 0
  count p (x ∷ xs) = if p x then suc (count p xs) else count p xs

  pub count-append : (p : A → Bool) (xs ys : List A) → count p (xs ++ ys) ≡ count p xs + count p ys
  unfolding count
  count-append p [] ys = omega arith
  count-append p (x ∷ xs) ys = ground (arith, count-append p xs ys)

  unfoldable pub sum_by : (A → ℕ) → List A → ℕ
  sum_by f [] = 0
  sum_by f (x ∷ xs) = f x + sum_by f xs

  pub sum_by-append : (f : A → ℕ) (xs ys : List A) → sum_by f (xs ++ ys) ≡ sum_by f xs + sum_by f ys
  unfolding sum_by
  sum_by-append f [] ys = omega arith
  sum_by-append f (x ∷ xs) ys = omega (arith, sum_by-append f xs ys)
