-- ===== src/Prelude/Ledger.antt =====
-- The sum of a number read off each row of a map, and how an insertion moves it.
use Prim.Native.Nat.{ℕ, ◌+◌}
use mathlib.Core.Path.{◌≡◌}
use mathlib.Core.Option.{Option, none, some}
use mathlib.Core.List.{[], ◌∷◌}
use native.Mathlib.Omega.{arith}
use arxium.Prelude.Tests.{Key}
use arxium.Prelude.Map.{Map, get, insert, commit, get-commit-insert, get-insert}

abbrev pub value_or_zero {ℓ} : {V : Type ℓ} → (V → ℕ) → Option V → ℕ
value_or_zero f none = 0
value_or_zero f (some v) = f v

module _ {ℓ κ} {K : Type ℓ} {V : Type κ} ⦃e : Key K⦄ (f : K → V → ℕ) where
  unfoldable pub sum_of : Map K V → ℕ
  sum_of [] = 0
  sum_of ((k, v) ∷ m) = f k v + sum_of m

  -- What the key holds, 0 if it is not there.
  abbrev pub held : K → Map K V → ℕ
  held k m = value_or_zero (f k) (get k m)

  pub sum_of-insert :
      (k : K) (v : V) (m : Map K V) → sum_of (insert k v m) + held k m ≡ sum_of m + f k v
  unfolding sum_of insert get
  sum_of-insert k v [] = omega arith
  sum_of-insert k v ((j, w) ∷ m) = ground (arith, e.same_iff j k, sum_of-insert k v m)

  pub sum_of-commit-insert :
      (k : K) (v : V) (u m : Map K V)
      → sum_of (commit (insert k v u) m) + held k (commit u m) ≡ sum_of (commit u m) + f k v
  unfolding commit insert
  sum_of-commit-insert k v [] m = sum_of-insert k v m
  sum_of-commit-insert k v ((j, w) ∷ u) m = ground (
    arith,
    e.same_iff j k,
    e.same_iff k j,
    sum_of-insert j w (commit u m),
    sum_of-insert k v (commit u m),
    sum_of-insert j w (commit (insert k v u) m),
    sum_of-commit-insert k v u m,
    get-commit-insert k j v u m,
    get-insert j k w (commit u m),
  )
