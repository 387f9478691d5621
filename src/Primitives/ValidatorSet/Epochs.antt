-- ===== src/Primitives/ValidatorSet/Epochs.antt =====
-- Epochs, their boundaries, and the height whose validator set is in force.
use arxium.Prelude.{ℕ, ◌+◌, ◌-◌, ◌*◌, ◌/◌, ◌%◌, ◌≤◌, ◌<◌, ◌≡◌, max, arith, ◌==◌, number_key, ok, ap}
use arxium.Prelude.Word.{u64_bound}
use arxium.Primitives.ValidatorSet.{
  epoch_of, boundary_of, validator_set_effective_height, is_boundary,
}
use native.Mathlib.Nat.{div-add-mod, mul-div_cancel, mod-lt, suc-mod, mod_self, mod-eq_of_lt}

next_mod : (height len : ℕ) → 0 < len → height % len + 1 ≡ len → (height + 1) % len ≡ 0
next_mod height len pos last =
    ground (arith, suc-mod height len, ap (λ n. n % len) last, mod_self len)

next_mod_inside : (height len : ℕ) → height % len + 1 < len → (height + 1) % len ≡ height % len + 1
next_mod_inside height len inside =
    ground (arith, suc-mod height len, mod-eq_of_lt {n = height % len + 1} {m = len} inside)

-- The parts of a height, with the products as numbers of their own.
product_next : (q len : ℕ) → (q + 1) * len ≡ len * q + len
product_next q len = omega arith

-- Where the numbers fit in u64, the boundary of a height's epoch is no earlier than the height, and the
-- height is one exactly when it is that boundary.
is_boundary-boundary_of :
    (height epoch_length : ℕ)
    → height + max epoch_length 1 < u64_bound
    → (boundary : ℕ) × (boundary_of (epoch_of height epoch_length) epoch_length ≡ ok boundary)
      × (height ≤ boundary)
      × (is_boundary height epoch_length ≡ ok (boundary == height))
unfolding is_boundary boundary_of epoch_of
is_boundary-boundary_of height epoch_length room =
    let len = max epoch_length 1 in
    let q = height / len in
    (
      len * q + len - 1,
      ground (arith, room, product_next q len, div-add-mod height len),
      ground (arith, div-add-mod height len, mod-lt height {m = len} (omega arith)),
      ground (
        arith,
        room,
        div-add-mod height len,
        mod-lt height {m = len} (omega arith),
        next_mod height len (omega arith),
        next_mod_inside height len,
      ),
    )

-- At every height of u64, the height whose validator set is in force is the first of the same epoch: it
-- is no later, less than an epoch earlier, and in that epoch.
validator_set_effective_height-first :
    (height epoch_length : ℕ)
    → height < u64_bound
    → (first : ℕ) × (validator_set_effective_height height epoch_length ≡ ok first)
      × (first ≤ height)
      × (height < first + max epoch_length 1)
      × (epoch_of first epoch_length ≡ epoch_of height epoch_length)
unfolding validator_set_effective_height epoch_of
validator_set_effective_height-first height epoch_length room =
    let len = max epoch_length 1 in
    let q = height / len in
    (
      q * len,
      ground (arith, room, div-add-mod height len),
      ground (arith, div-add-mod height len),
      ground (arith, div-add-mod height len, mod-lt height {m = len} (omega arith)),
      mul-div_cancel q {n = len} (omega arith),
    )
