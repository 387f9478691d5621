-- ===== src/Prelude/Map.antt =====
-- A `BTreeMap` or `HashMap` as an association list with one entry for each key that was inserted.
use mathlib.Core.Path.{◌≡◌, refl}
use mathlib.Core.Option.{Option, none, some}
use mathlib.Core.List.{List, [], ◌∷◌}
use native.Mathlib.Omega.{arith}
use arxium.Prelude.Tests.{Key, ◌==◌, if◌then◌else◌}

abbrev pub Map {ℓ κ} : Type ℓ → Type κ → Type (ℓ ⊔ κ)
Map K V = List (K × V)

abbrev pub or_else {ℓ} : {A : Type ℓ} → Option A → Option A → Option A
or_else none o = o
or_else (some v) o = some v

module _ {ℓ κ} {K : Type ℓ} {V : Type κ} ⦃e : Key K⦄ where
  unfoldable pub get : K → Map K V → Option V
  get k [] = none
  get k ((j, v) ∷ m) = if j == k then some v else get k m

  unfoldable pub insert : K → V → Map K V → Map K V
  insert k v [] = (k, v) ∷ []
  insert k v ((j, w) ∷ m) = if j == k then (k, v) ∷ m else (j, w) ∷ insert k v m

  -- The writes of one map made over another.
  unfoldable pub commit : Map K V → Map K V → Map K V
  commit [] m = m
  commit ((k, v) ∷ u) m = insert k v (commit u m)

  pub get-insert :
      (k j : K) (v : V) (m : Map K V) → get j (insert k v m) ≡ (if k == j then some v else get j m)
  unfolding get insert
  get-insert k j v [] = refl
  get-insert k j v ((i, w) ∷ m) =
      ground (arith, e.same_iff k j, e.same_iff i k, e.same_iff i j, get-insert k j v m)

  -- A committed map is read through: first the writes, then what was there.
  pub get-commit : (k : K) (u m : Map K V) → get k (commit u m) ≡ or_else (get k u) (get k m)
  unfolding get commit
  get-commit k [] m = refl
  get-commit k ((j, v) ∷ u) m = ground (arith, get-insert j k v (commit u m), get-commit k u m)

  pub get-insert_self : (k : K) (v : V) (m : Map K V) → get k (insert k v m) ≡ some v
  get-insert_self k v m = ground (arith, get-insert k k v m, e.same_iff k k)

  -- A write into the map of updates is a write into the committed map, as every reader sees it.
  pub get-commit-insert :
      (k j : K) (v : V) (u m : Map K V)
      → get j (commit (insert k v u) m) ≡ (if k == j then some v else get j (commit u m))
  get-commit-insert k j v u m =
      ground (arith, get-commit j (insert k v u) m, get-commit j u m, get-insert k j v u)

  pub commit-nil : (m : Map K V) → commit [] m ≡ m
  unfolding commit
  commit-nil m = refl
