-- ===== src/Primitives/ValidatorSet/Power/Shares.antt =====
-- The shares of a proportional pass, and how near to the whole they come.
use native.Mathlib.Decide.{dec_lt}
use native.Mathlib.Nat.{div-add-mod, mod-lt, mod-eq_of_lt, mul-le-mul, mul-lt-mul_of_pos_left}
use arxium.Prelude.{
  ℕ, zero, suc, ◌+◌, ◌*◌, ◌/◌, ◌≤◌, ◌<◌, ◌≡◌, refl, ap, List, [], ◌∷◌, arith, ◌==◌, number_key,
  if◌then◌else◌, length, ok,
}
use arxium.Prelude.Word.{u32_bound, u128_bound}
use arxium.Prelude.Map.{Map}
use arxium.Primitives.Address.{Address}
use arxium.Primitives.Params.{total_voting_power}
use arxium.Primitives.ValidatorSet.Power.{stake_sum, share, assign_shares}

-- The sum of a map's numbers, and the addresses of its rows.
unfoldable pub total : Map Address ℕ → ℕ
total [] = 0
total ((a, p) ∷ m) = p + total m

abbrev pub keys : Map Address ℕ → List Address
keys [] = []
keys ((a, p) ∷ m) = a ∷ keys m

pub stake_sum-total :
    (sum : ℕ) (pool : Map Address ℕ)
    → sum + total pool < u128_bound
    → stake_sum sum pool ≡ ok (sum + total pool)
unfolding stake_sum total
stake_sum-total sum [] h = ground arith
stake_sum-total sum ((a, stake) ∷ pool) h = ground (arith, h, stake_sum-total (sum + stake) pool)

-- With no stake at all, every row weighs 1 out of the number of rows.
abbrev pub weight : ℕ → ℕ → ℕ
weight pool_total stake = if pool_total == 0 then 1 else stake

abbrev pub whole : ℕ → ℕ → ℕ
whole pool_total count = if pool_total == 0 then count else pool_total

unfoldable pub weights : ℕ → Map Address ℕ → ℕ
weights pool_total [] = 0
weights pool_total ((a, stake) ∷ pool) = weight pool_total stake + weights pool_total pool

pub cancel : (k a b : ℕ) → 0 < k → k * a ≤ k * b → a ≤ b
cancel k a b pos h = elim (dec_lt b a) [
  | yes more ↦ ground (arith, h, mul-lt-mul_of_pos_left {m = b} {n = a} {k = k} more pos)
  | no less ↦ omega arith
]

quotient : (n k : ℕ) → 0 < k → (k * (n / k) ≤ n) × (n < k * (n / k) + k)
quotient n k pos = ground (arith, div-add-mod n k, mod-lt n {m = k} pos)

pub distribute : (k a b : ℕ) → k * (a + b) ≡ k * a + k * b
distribute k a b = omega arith

one_times : (n : ℕ) → n * 1 ≡ n
one_times n = omega arith

small_quotient :
    (remaining pool_total stake : ℕ)
    → remaining ≤ total_voting_power
    → stake ≤ pool_total
    → 0 < pool_total
    → remaining * stake / pool_total ≤ total_voting_power
small_quotient remaining pool_total stake small part pos =
    cancel pool_total (remaining * stake / pool_total) total_voting_power pos (
      ground (
        arith,
        (quotient (remaining * stake) pool_total pos).0,
        mul-le-mul {n₁ = remaining} {m₁ = stake} {n₂ = total_voting_power} {m₂ = pool_total} small
            part,
      ))

-- A share is the weight's part of the remaining power, rounded down.
share-quotient :
    (remaining pool_total count stake : ℕ)
    → remaining ≤ total_voting_power
    → 0 < count
    → stake ≤ pool_total
    → total_voting_power * pool_total < u128_bound
    → let w = weight pool_total stake in
      let t = whole pool_total count in
      share remaining pool_total count stake ≡ ok (remaining * w / t)
unfolding share
share-quotient remaining zero count stake small pos part fits =
    ground (arith, ap (λ n. n / count) (one_times remaining))
share-quotient remaining (suc k) count stake small pos part fits = ground (
  arith,
  fits,
  mul-le-mul {n₁ = remaining} {m₁ = stake} {n₂ = total_voting_power} {m₂ = suc k} small part,
  mod-eq_of_lt {n = remaining * stake / suc k} {m = u32_bound}
      (ground (arith, small_quotient remaining (suc k) stake small part (omega arith))),
)

-- The shares of all rows.
unfoldable pub rounded : ℕ → ℕ → ℕ → Map Address ℕ → Map Address ℕ
rounded remaining pool_total count [] = []
rounded remaining pool_total count ((a, stake) ∷ pool) =
    (a, remaining * weight pool_total stake / whole pool_total count)
    ∷ rounded remaining pool_total count pool

module _ (remaining pool_total count : ℕ) (pos : 0 < count) where
  pub rounded-bounds :
      (pool : Map Address ℕ)
      → let t = whole pool_total count in
        let shared = total (rounded remaining pool_total count pool) in
        (t * shared ≤ remaining * weights pool_total pool)
        × (remaining * weights pool_total pool ≤ t * shared + t * length pool)
  unfolding rounded weights total
  rounded-bounds [] = ground arith
  rounded-bounds ((a, stake) ∷ pool) =
      let t = whole pool_total count in
      let part = remaining * weight pool_total stake in
      let rest = rounded-bounds pool in
      let here = quotient part t (ground arith) in
      let tail = total (rounded remaining pool_total count pool) in
      (
        ground (
          arith,
          rest.0,
          here.0,
          distribute t (part / t) tail,
          distribute remaining (weight pool_total stake) (weights pool_total pool),
        ),
        ground (
          arith,
          rest.1,
          here.1,
          distribute t (part / t) tail,
          distribute t 1 (length pool),
          distribute remaining (weight pool_total stake) (weights pool_total pool),
        ),
      )

  pub assign_shares-rounded :
      (sum : ℕ) (pool : Map Address ℕ)
      → remaining ≤ total_voting_power
      → total_voting_power * pool_total < u128_bound
      → total pool ≤ pool_total
      → sum + total (rounded remaining pool_total count pool) < u32_bound
      → let shares = rounded remaining pool_total count pool in
        assign_shares remaining pool_total count sum pool ≡ ok (shares, sum + total shares)
  unfolding assign_shares rounded total
  assign_shares-rounded sum [] small fits part room = ground arith
  assign_shares-rounded sum ((a, stake) ∷ pool) small fits part room = ground (
    arith,
    room,
    share-quotient remaining pool_total count stake small pos (ground (arith, part)) fits,
    assign_shares-rounded (sum + remaining * weight pool_total stake / whole pool_total count) pool
        small fits (ground (arith, part)),
  )

pub length-rounded :
    (remaining pool_total count : ℕ) (pool : Map Address ℕ)
    → length (rounded remaining pool_total count pool) ≡ length pool
unfolding rounded
length-rounded remaining pool_total count [] = refl
length-rounded remaining pool_total count (row ∷ pool) =
    ground (arith, length-rounded remaining pool_total count pool)

pub keys-rounded :
    (remaining pool_total count : ℕ) (pool : Map Address ℕ)
    → keys (rounded remaining pool_total count pool) ≡ keys pool
unfolding rounded
keys-rounded remaining pool_total count [] = refl
keys-rounded remaining pool_total count ((a, stake) ∷ pool) =
    ground (arith, keys-rounded remaining pool_total count pool)

pub weights-total : (t : ℕ) (pool : Map Address ℕ) → weights (suc t) pool ≡ total pool
unfolding weights total
weights-total t [] = refl
weights-total t (row ∷ pool) = ground (arith, weights-total t pool)

pub weights-length : (pool : Map Address ℕ) → weights 0 pool ≡ length pool
unfolding weights
weights-length [] = refl
weights-length (row ∷ pool) = ground (arith, weights-length pool)
