-- ===== src/Circuit/Staking/Stake.antt =====
-- circuits/staking/src/lib.rs: `apply_stake` and `apply_unstake`.
pub mod Rows
pub mod Effects
mod Tests
use arxium.Prelude.{
  ℕ, ◌+◌, ◌-◌, not, Bool, true, false, Option, none, some, List, [], ◌∷◌, ltb, ◌==◌, number_key,
  pair_key, any, if◌then◌else◌, Result, ok, err, ◌>>=◌, ◌>>◌, reject_if, map_err,
}
use arxium.Prelude.Word.{u64_bound, u128_bound, add}
use arxium.Prelude.Map.{insert}
use arxium.Primitives.Address.{Address}
use arxium.Primitives.State.{AccountEntry, StakeAllocation, Unbonding, SystemAccounts}
use arxium.Circuit.View.{View, read_account}
use arxium.Circuit.Ledger.{Accounts}
use arxium.Circuit.Updates.{StakeUpdates}
use arxium.Circuit.Staking.Types.{StakingError, max_delegation_per_validator, credit, read_masters}

abbrev pub is_unbonding : Option StakeAllocation → Bool
is_unbonding none = false
is_unbonding (some existing) = elim existing.unbonding [ none ↦ false | some _ ↦ true ]

abbrev pub active_in : Option StakeAllocation → ℕ
active_in none = 0
active_in (some existing) = existing.active_amount

-- the allocation after `amount` more is staked
abbrev pub grown :
    Address → Address → ℕ → ℕ → Option StakeAllocation → Result StakingError StakeAllocation
grown master validator amount now_height (some existing) = do
  active ← add u128_bound existing.active_amount amount
  ok (record existing { active_amount = active; updated_at = now_height })
grown master validator amount now_height none = ok (record {
  master = master;
  validator = validator;
  active_amount = amount;
  unbonding = none;
  created_at = now_height;
  updated_at = now_height;
})

pub apply_stake :
    SystemAccounts
    → View
    → Address
    → ℕ
    → Address
    → ℕ
    → ℕ
    → Result StakingError (Accounts × StakeUpdates)
apply_stake system view master nonce validator amount now_height = do
  reject_if (amount == 0) StakingError.zero_amount
  master_entry ← read_account StakingError.storage view master
  reject_if (not (nonce == master_entry.nonce))
      (StakingError.invalid_nonce master master_entry.nonce nonce)
  reject_if (ltb master_entry.balance amount)
      (StakingError.insufficient_balance master master_entry.balance amount)
  masters ← read_masters StakingError.storage view validator
  reject_if (any (λ m. not (m == master)) masters)
      (StakingError.validator_has_other_master validator)
  existing ← map_err StakingError.storage (view.stake master validator)
  reject_if (is_unbonding existing) (StakingError.already_unbonding master validator)
  new_total ← add u128_bound (active_in existing) amount
  reject_if (ltb max_delegation_per_validator new_total)
      (StakingError.delegation_cap_exceeded validator new_total)
  sub_entry ← read_account StakingError.storage view (system.stake_subaccount validator)
  next_nonce ← add u64_bound master_entry.nonce 1
  sub_balance ← credit sub_entry.balance amount (system.stake_subaccount validator)
  allocation ← grown master validator amount now_height existing
  ok (
    insert (system.stake_subaccount validator) (record sub_entry { balance = sub_balance })
        (insert master
          (record master_entry { balance = master_entry.balance - amount; nonce = next_nonce }) []),
    record {
      allocations = insert (master, validator) (some allocation) [];
      validator_index = insert validator (master ∷ []) [];
    },
  )

pub apply_unstake :
    View → Address → ℕ → Address → ℕ → ℕ → ℕ → Result StakingError (Accounts × StakeUpdates)
apply_unstake view master nonce validator amount now_height unbonding_blocks = do
  reject_if (amount == 0) StakingError.zero_amount
  master_entry ← read_account StakingError.storage view master
  reject_if (not (nonce == master_entry.nonce))
      (StakingError.invalid_nonce master master_entry.nonce nonce)
  found ← map_err StakingError.storage (view.stake master validator)
  existing ← elim found [
    | none ↦ err (StakingError.no_active_allocation master validator)
    | some existing ↦ ok existing
  ]
  reject_if (is_unbonding (some existing)) (StakingError.already_unbonding master validator)
  reject_if (ltb existing.active_amount amount)
      (StakingError.insufficient_stake master validator existing.active_amount amount)
  unlock_at_height ← add u64_bound now_height unbonding_blocks
  next_nonce ← add u64_bound master_entry.nonce 1
  ok (
    insert master (record master_entry { nonce = next_nonce }) [],
    record {
      allocations =
          insert (master, validator)
            (some (record existing {
              active_amount = existing.active_amount - amount;
              unbonding = some (record { amount = amount; unlock_at_height = unlock_at_height });
              updated_at = now_height;
            }))
            [];
      validator_index = [];
    },
  )
