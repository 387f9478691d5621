-- ===== src/Primitives/ValidatorSet/Power/Pass.antt =====
-- One pass over the pool: what rounding leaves over goes out one unit each, so nothing is lost.
use native.Mathlib.Nat.{mod-eq_of_lt}
use arxium.Prelude.{
  ℕ, zero, suc, ◌+◌, ◌-◌, ◌*◌, ◌≤◌, ◌<◌, ◌≡◌, refl, ap, ◌∙◌, [], ◌∷◌, arith, number_key, length, ok,
}
use arxium.Prelude.Word.{u32_bound, u128_bound}
use arxium.Prelude.Map.{Map}
use arxium.Primitives.Address.{Address}
use arxium.Primitives.Params.{total_voting_power}
use arxium.Primitives.ValidatorSet.Power.{spread, Round, pass}
use arxium.Primitives.ValidatorSet.Power.Shares.{
  total, keys, stake_sum-total, whole, weights, cancel, distribute, rounded, rounded-bounds,
  assign_shares-rounded, length-rounded, keys-rounded, weights-total, weights-length,
}

pub spread-total :
    (leftover : ℕ) (m : Map Address ℕ)
    → leftover ≤ length m
    → total m + leftover < u32_bound
    → (spread_out : Map Address ℕ) × (spread leftover m ≡ ok spread_out)
      × (total spread_out ≡ total m + leftover)
      × (keys spread_out ≡ keys m)
unfolding spread total
spread-total leftover [] h room = ([], ground arith, ground arith, refl)
spread-total zero ((a, p) ∷ m) h room = ((a, p) ∷ m, ground arith, ground arith, refl)
spread-total (suc leftover) ((a, p) ∷ m) h room =
    let rest = spread-total leftover m (ground (arith, h)) (ground (arith, room)) in
    (
      (a, p + 1) ∷ rest.0,
      ground (arith, room, rest.1),
      ground (arith, rest.2),
      ap (λ k. a ∷ k) rest.3,
    )

weights-whole :
    (t : ℕ) (pool : Map Address ℕ) → total pool ≡ t → weights t pool ≡ whole t (length pool)
weights-whole zero pool h = ground (arith, weights-length pool)
weights-whole (suc t) pool h = ground (arith, h, weights-total t pool)

rounded-near :
    (remaining : ℕ) (pool : Map Address ℕ)
    → 0 < length pool
    → let shared = total (rounded remaining (total pool) (length pool) pool) in
      (shared ≤ remaining) × (remaining ≤ shared + length pool)
rounded-near remaining pool pos =
    let t = whole (total pool) (length pool) in
    let shared = total (rounded remaining (total pool) (length pool) pool) in
    let bounds = rounded-bounds remaining (total pool) (length pool) pos pool in
    let weigh = ap (λ w. remaining * w) (weights-whole (total pool) pool refl) in
    (
      cancel t shared remaining (ground arith) (ground (arith, bounds.0, weigh)),
      cancel t remaining (shared + length pool) (ground arith)
          (ground (arith, bounds.1, weigh, distribute t shared (length pool))),
    )

pass-rounded :
    (round : Round)
    → 0 < length round.pool
    → length round.pool < u32_bound
    → round.remaining_power ≤ total_voting_power
    → total_voting_power * total round.pool < u128_bound
    → let shares =
        rounded round.remaining_power (total round.pool) (length round.pool) round.pool in
      pass round ≡ spread (round.remaining_power - total shares) shares
unfolding pass
pass-rounded round pos short small fits =
    let near = (rounded-near round.remaining_power round.pool pos).0 in
    ground (
      arith,
      near,
      stake_sum-total 0 round.pool (ground (arith, fits)),
      mod-eq_of_lt {n = length round.pool} {m = u32_bound} short,
      assign_shares-rounded round.remaining_power (total round.pool) (length round.pool) pos 0
          round.pool small fits (omega arith) (ground (arith, near, small)),
    )

-- A pass over a pool that is not empty gives out exactly the remaining power, to those in the pool.
pub pass-total :
    (round : Round)
    → 0 < length round.pool
    → length round.pool < u32_bound
    → round.remaining_power ≤ total_voting_power
    → total_voting_power * total round.pool < u128_bound
    → (assigned : Map Address ℕ) × (pass round ≡ ok assigned)
      × (total assigned ≡ round.remaining_power)
      × (keys assigned ≡ keys round.pool)
pass-total round pos short small fits =
    let t = total round.pool in
    let shares = rounded round.remaining_power t (length round.pool) round.pool in
    let near = rounded-near round.remaining_power round.pool pos in
    let out =
      spread-total (round.remaining_power - total shares) shares
        (ground (
          arith,
          near.0,
          near.1,
          length-rounded round.remaining_power t (length round.pool) round.pool,
        ))
        (ground (arith, near.0, small)) in
    (
      out.0,
      pass-rounded round pos short small fits ∙ out.1,
      ground (arith, out.2, near.0),
      out.3 ∙ keys-rounded round.remaining_power t (length round.pool) round.pool,
    )
