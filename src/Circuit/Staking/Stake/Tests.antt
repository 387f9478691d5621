-- ===== src/Circuit/Staking/Stake/Tests.antt =====
-- Master 1 holds 50 at nonce 7 and has 10 staked on validator 2, whose sub-account is 102.
use arxium.Prelude.{
  ◌+◌, ◌≤◌, ◌≡◌, refl, false, none, some, [], ◌∷◌, arith, number_key, pair_key, ok, err, unwrap_or,
}
use arxium.Prelude.Map.{get, insert, commit}
use arxium.Primitives.State.{StakeAllocation}
use arxium.Circuit.View.{Reads, entry_in, read_account}
use arxium.Circuit.Ledger.{Accounts, supply}
use arxium.Circuit.Updates.{StakeUpdates, allocation_of}
use arxium.Circuit.Staking.Types.{
  StakingError, read_masters, staked, staked_in, max_delegation_per_validator,
}
use arxium.Circuit.Staking.Stake.{apply_stake, apply_unstake, is_unbonding}
use arxium.Circuit.Staking.Stake.Rows.{split_row}
use arxium.Circuit.Staking.Stake.Effects.{apply_stake-supply, apply_stake-allocation}
use arxium.Circuit.Sample.{staked_view, holding, system}

abbrev ledger : Accounts
ledger = (1, holding 50 7) ∷ (102, holding 10 0) ∷ []

abbrev ten : StakeAllocation
ten = record {
  master = 1;
  validator = 2;
  active_amount = 10;
  unbonding = none;
  created_at = 3;
  updated_at = 3;
}

abbrev half : StakeAllocation
half = record ten {
  active_amount = 4;
  unbonding = some (record { amount = 6; unlock_at_height = 9 });
}

ledger-Reads : (allocation : StakeAllocation) → Reads (staked_view ledger allocation) ledger
ledger-Reads allocation = record { at = λ a. refl }

abbrev stake_rows : Accounts × StakeUpdates
stake_rows = (
  (1, holding 30 8) ∷ (102, holding 30 0) ∷ [],
  record {
    allocations = ((1, 2), some (record ten { active_amount = 30; updated_at = 5 })) ∷ [];
    validator_index = (2, 1 ∷ []) ∷ [];
  },
)

stake_rows_lem : apply_stake system (staked_view ledger ten) 1 7 2 20 5 ≡ ok stake_rows
unfolding apply_stake read_account read_masters get insert unwrap_or
stake_rows_lem = refl

ten_read : (staked_view ledger ten).stake 1 2 ≡ ok (some ten)
ten_read = refl

half_read : (staked_view ledger half).stake 1 2 ≡ ok (some half)
half_read = refl

abbrev unstake_rows : Accounts × StakeUpdates
unstake_rows = (
  (1, holding 50 8) ∷ [],
  record { allocations = ((1, 2), some (split_row ten 6 5 (5 + 4))) ∷ []; validator_index = [] },
)

unstake_rows_lem : apply_unstake (staked_view ledger ten) 1 7 2 6 5 4 ≡ ok unstake_rows
unfolding apply_unstake read_account get insert unwrap_or
unstake_rows_lem = refl

zero_stake : apply_stake system (staked_view ledger ten) 3 0 2 0 5 ≡ err StakingError.zero_amount
unfolding apply_stake
zero_stake = refl

apply_stake-supply_example :
    (supply (commit stake_rows.0 ledger) ≡ supply ledger)
    × ((entry_in (commit stake_rows.0 ledger) 1).balance + 20 ≡ (entry_in ledger 1).balance)
    × ((entry_in (commit stake_rows.0 ledger) 102).balance ≡ (entry_in ledger 102).balance + 20)
apply_stake-supply_example =
    apply_stake-supply system (staked_view ledger ten) ledger (ledger-Reads ten) 1 7 2 20 5
      (some ten) ten_read stake_rows_lem (omega arith)

apply_stake-allocation_example :
    (allocation : StakeAllocation) × (allocation_of stake_rows.1 1 2 ≡ some (some allocation))
    × (staked allocation ≡ staked_in (some ten) + 20)
    × (is_unbonding (some allocation) ≡ false)
    × (staked allocation ≤ max_delegation_per_validator)
apply_stake-allocation_example =
    apply_stake-allocation system (staked_view ledger ten) ledger (ledger-Reads ten) 1 7 2 20 5
      (some ten) ten_read stake_rows_lem (omega arith)
