-- ===== src/Primitives/ValidatorSet/Power.antt =====
-- core/primitives/src/validator_set.rs: `power_cap` and `assign_voting_power`. A `BTreeMap` is a map
-- whose rows stand in the order of their keys: the code inserts with `put`, and what it builds by a
-- walk over such a map is in that order already.
pub mod Shares
pub mod Pass
pub mod Rounds
pub mod Total
mod Tests
use arxium.Prelude.{
  ℕ, zero, suc, ◌+◌, ◌-◌, ◌*◌, ◌/◌, ◌%◌, min, max, Bool, true, false, not, Option, none, some, List,
  [], ◌∷◌, ltb, ◌==◌, number_key, if◌then◌else◌, any, length, retain, Result, ok, panic, ◌>>=◌,
}
use arxium.Prelude.Word.{u32_bound, u128_bound, add, sub, mul}
use arxium.Prelude.Map.{Map}
use arxium.Primitives.Address.{Address}
use arxium.Primitives.Params.{VotingPower, total_voting_power}
use arxium.Primitives.ValidatorSet.{NoError}

-- Rust's `/` panics on 0.
abbrev pub divide : ℕ → ℕ → Result NoError ℕ
divide a b = if b == 0 then panic else ok (a / b)

-- `clamp(low, high)`
abbrev pub clamp : ℕ → ℕ → ℕ → ℕ
clamp low high n = min (max n low) high

-- With the arithmetic of u32: the count is cut to 32 bits, and `div_ceil` rounds up.
unfoldable pub power_cap : ℕ → Result NoError ℕ
power_cap count = do
  let n = max count 1 % u32_bound
  twice ← divide (2 * total_voting_power) n
  equal ← divide (total_voting_power + n - 1) n
  ok (max (clamp (total_voting_power / 10) 3_333 twice) equal)

unfoldable pub put : Address → ℕ → Map Address ℕ → Map Address ℕ
put a p [] = (a, p) ∷ []
put a p ((b, q) ∷ m) =
    if ltb a b then (a, p) ∷ (b, q) ∷ m else if a == b then (a, p) ∷ m else (b, q) ∷ put a p m

-- `pool.values().sum()`
unfoldable pub stake_sum : ℕ → Map Address ℕ → Result NoError ℕ
stake_sum sum [] = ok sum
stake_sum sum ((a, stake) ∷ pool) = add u128_bound sum stake >>= λ more. stake_sum more pool

unfoldable pub share : ℕ → ℕ → ℕ → ℕ → Result NoError ℕ
share remaining pool_total count stake =
    if pool_total == 0
    then divide remaining count
    else (mul u128_bound remaining stake >>= λ product. ok (product / pool_total % u32_bound))

-- The proportional pass: the shares, and their sum.
unfoldable pub assign_shares : ℕ → ℕ → ℕ → ℕ → Map Address ℕ → Result NoError (Map Address ℕ × ℕ)
assign_shares remaining pool_total count sum [] = ok ([], sum)
assign_shares remaining pool_total count sum ((a, stake) ∷ pool) = do
  p ← share remaining pool_total count stake
  more ← add u32_bound sum p
  rest ← assign_shares remaining pool_total count more pool
  ok ((a, p) ∷ rest.0, rest.1)

-- One unit each, in the order of the rows, until nothing is left over.
unfoldable pub spread : ℕ → Map Address ℕ → Result NoError (Map Address ℕ)
spread leftover [] = ok []
spread leftover ((a, p) ∷ m) =
    if leftover == 0
    then ok ((a, p) ∷ m)
    else (add u32_bound p 1 >>= λ more. spread (leftover - 1) m >>= λ rest. ok ((a, more) ∷ rest))

unfoldable pub over : ℕ → Map Address ℕ → List Address
over cap [] = []
over cap ((a, p) ∷ m) = if ltb cap p then a ∷ over cap m else over cap m

pub record Round : Type 0 where
  pub powers : Map Address ℕ
  pub remaining_power : ℕ
  pub pool : Map Address ℕ

-- Those over the cap are fixed at it and leave the pool.
unfoldable pub fix : ℕ → List Address → Round → Result NoError Round
fix cap [] round = ok round
fix cap (a ∷ rest) round = sub round.remaining_power cap >>= λ left. fix cap rest (record {
  powers = put a cap round.powers;
  remaining_power = left;
  pool = retain (λ row. not (row.0 == a)) round.pool;
})

unfoldable pub extend : Map Address ℕ → Map Address ℕ → Map Address ℕ
extend [] powers = powers
extend ((a, p) ∷ m) powers = extend m (put a p powers)

-- The shares of one pass over the pool, which add up to the remaining power.
unfoldable pub pass : Round → Result NoError (Map Address ℕ)
pass round = do
  pool_total ← stake_sum 0 round.pool
  assigned ←
      assign_shares round.remaining_power pool_total (length round.pool % u32_bound) 0 round.pool
  leftover ← sub round.remaining_power assigned.1
  spread leftover assigned.0

abbrev pub finished : Round → Result NoError (Option (Map Address ℕ))
finished round = spread round.remaining_power round.powers >>= λ powers. ok (some powers)

-- The loop, which takes at most as many rounds as there are validators; `none` is out of fuel.
unfoldable pub loop : ℕ → ℕ → Round → Result NoError (Option (Map Address ℕ))
loop zero cap round = ok none
loop (suc fuel) cap round = pass round >>= λ assigned. elim (over cap assigned) [
  | [] ↦ ok (some (extend assigned round.powers))
  | a ∷ rest ↦ fix cap (a ∷ rest) round >>= λ fixed. elim fixed.pool [
    | [] ↦ finished fixed
    | row ∷ rows ↦ loop fuel cap fixed
  ]
]

unfoldable pub assign_voting_power : Map Address ℕ → Result NoError (Option (Map Address ℕ))
assign_voting_power [] = ok (some [])
assign_voting_power (row ∷ rows) = do
  cap ← power_cap (length (row ∷ rows))
  loop (length (row ∷ rows)) cap
      (record { powers = []; remaining_power = total_voting_power; pool = row ∷ rows })
