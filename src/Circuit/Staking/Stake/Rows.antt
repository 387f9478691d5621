-- ===== src/Circuit/Staking/Stake/Rows.antt =====
-- What a successful stake or unstake has checked, and the rows that it returns.
use arxium.Prelude.{
  ℕ, ◌+◌, ◌-◌, ◌≤◌, ◌≡◌, ◌≢◌, false, Option, none, some, [], ◌∷◌, arith, number_key, pair_key, ok,
}
use arxium.Prelude.Map.{insert}
use arxium.Primitives.Address.{Address}
use arxium.Primitives.State.{AccountEntry, StakeAllocation, SystemAccounts}
use arxium.Circuit.View.{View, Reads, entry_in, read_account-entry_in}
use arxium.Circuit.Ledger.{Accounts}
use arxium.Circuit.Updates.{StakeUpdates}
use arxium.Circuit.Staking.Types.{StakingError, max_delegation_per_validator}
use arxium.Circuit.Staking.Stake.{apply_stake, apply_unstake, is_unbonding, active_in}

-- The rows of the accounts that a stake writes.
abbrev pub master_after : AccountEntry → ℕ → AccountEntry
master_after entry amount = record entry {
  balance = entry.balance - amount;
  nonce = entry.nonce + 1;
}

abbrev pub sub_after : AccountEntry → ℕ → AccountEntry
sub_after entry amount = record entry { balance = entry.balance + amount }

-- The allocation after a stake: the old one grown, or a new one.
abbrev pub grown_row : Address → Address → ℕ → ℕ → Option StakeAllocation → StakeAllocation
grown_row master validator amount now_height (some existing) = record existing {
  active_amount = existing.active_amount + amount;
  updated_at = now_height;
}
grown_row master validator amount now_height none = record {
  master = master;
  validator = validator;
  active_amount = amount;
  unbonding = none;
  created_at = now_height;
  updated_at = now_height;
}

module _ (system : SystemAccounts) (view : View) (accounts : Accounts) (reads : Reads view accounts)
    (master : Address) (nonce : ℕ) (validator : Address) (amount now_height : ℕ)
    (existing : Option StakeAllocation) (read : view.stake master validator ≡ ok existing) where
  pub apply_stake-eq-ok :
      {rows : Accounts × StakeUpdates}
      → apply_stake system view master nonce validator amount now_height ≡ ok rows
      → let sub = system.stake_subaccount validator in
        (amount ≢ 0)
        × (nonce ≡ (entry_in accounts master).nonce)
        × (amount ≤ (entry_in accounts master).balance)
        × (is_unbonding existing ≡ false)
        × (active_in existing + amount ≤ max_delegation_per_validator)
        × (rows.0
            ≡ insert sub
                (sub_after (entry_in accounts sub) amount)
                (insert master (master_after (entry_in accounts master) amount) []))
        × (rows.1 ≡ record {
          allocations =
              insert
                (master, validator)
                (some (grown_row master validator amount now_height existing))
                [];
          validator_index = insert validator (master ∷ []) [];
        })
  unfolding apply_stake
  apply_stake-eq-ok h = ground (
    arith,
    read,
    read_account-entry_in StakingError.storage view accounts master reads,
    read_account-entry_in StakingError.storage view accounts (system.stake_subaccount validator)
        reads,
  )

-- The allocation after an unstake: `amount` of it unbonds.
abbrev pub split_row : StakeAllocation → ℕ → ℕ → ℕ → StakeAllocation
split_row existing amount now_height unlock_at_height = record existing {
  active_amount = existing.active_amount - amount;
  unbonding = some (record { amount = amount; unlock_at_height = unlock_at_height });
  updated_at = now_height;
}

module _ (view : View) (accounts : Accounts) (reads : Reads view accounts) (master : Address)
    (nonce : ℕ) (validator : Address) (amount now_height unbonding_blocks : ℕ)
    (existing : StakeAllocation) (read : view.stake master validator ≡ ok (some existing)) where
  pub apply_unstake-eq-ok :
      {rows : Accounts × StakeUpdates}
      → apply_unstake view master nonce validator amount now_height unbonding_blocks ≡ ok rows
      → (amount ≢ 0)
        × (nonce ≡ (entry_in accounts master).nonce)
        × (existing.unbonding ≡ none)
        × (amount ≤ existing.active_amount)
        × (rows.0
            ≡ insert master
                (record (entry_in accounts master) { nonce = (entry_in accounts master).nonce + 1 })
                [])
        × (rows.1 ≡ record {
          allocations =
              insert
                (master, validator)
                (some (split_row existing amount now_height (now_height + unbonding_blocks)))
                [];
          validator_index = [];
        })
  unfolding apply_unstake
  apply_unstake-eq-ok h =
      ground (arith, read, read_account-entry_in StakingError.storage view accounts master reads)
