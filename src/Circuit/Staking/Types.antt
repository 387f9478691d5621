-- ===== src/Circuit/Staking/Types.antt =====
-- The errors and constants of circuits/staking/src/lib.rs, and its reads.
use arxium.Prelude.{
  ℕ, ◌+◌, ◌*◌, Bool, true, false, Option, none, some, List, [], Result, ok, err, ◌>>=◌, map_err,
  unwrap_or,
}
use arxium.Prelude.Word.{u128_bound, checked_add}
use arxium.Primitives.Address.{Address}
use arxium.Primitives.State.{StakeAllocation, Unbonding}
use arxium.Circuit.View.{View, StorageError}

abbrev pub max_delegation_per_validator : ℕ
max_delegation_per_validator = 10_000_000 * 1_000_000_000

pub data SlashReason : Type 0 where
  double_sign downtime execution_fault : SlashReason

pub tombstones : SlashReason → Bool
tombstones SlashReason.downtime = false
tombstones SlashReason.double_sign = true
tombstones SlashReason.execution_fault = true

pub data StakingError : Type 0 where
  storage : StorageError → StakingError
  invalid_nonce : Address → ℕ → ℕ → StakingError
  zero_amount : StakingError
  insufficient_balance : Address → ℕ → ℕ → StakingError
  validator_has_other_master : Address → StakingError
  no_active_allocation : Address → Address → StakingError
  already_unbonding : Address → Address → StakingError
  insufficient_stake : Address → Address → ℕ → ℕ → StakingError
  no_stake_for_validator : Address → StakingError
  delegation_cap_exceeded : Address → ℕ → StakingError
  overflow : Address → StakingError

abbrev pub credit : ℕ → ℕ → Address → Result StakingError ℕ
credit balance amount account = elim (checked_add u128_bound balance amount) [
  | none ↦ err (StakingError.overflow account)
  | some total ↦ ok total
]

-- `view.get(&StakeByValidatorKey(v))?.unwrap_or_default()`
unfoldable pub read_masters {ℓ} :
    {E : Type ℓ} → (StorageError → E) → View → Address → Result E (List Address)
read_masters from view validator = do
  found ← map_err from (view.stake_by_validator validator)
  ok (unwrap_or found [])

abbrev pub unbonding_amount : Option Unbonding → ℕ
unbonding_amount none = 0
unbonding_amount (some u) = u.amount

-- All that an allocation holds, active or on its way out: what a slash can reach.
abbrev pub staked : StakeAllocation → ℕ
staked allocation = allocation.active_amount + unbonding_amount allocation.unbonding

abbrev pub staked_in : Option StakeAllocation → ℕ
staked_in none = 0
staked_in (some allocation) = staked allocation
