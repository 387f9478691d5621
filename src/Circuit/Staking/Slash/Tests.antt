-- ===== src/Circuit/Staking/Slash/Tests.antt =====
-- Validator 2 has 100_000 staked by master 1, of which 40_000 unbonds.
use arxium.Prelude.{
  ◌+◌, ◌-◌, min, ◌≤◌, ◌≡◌, refl, Option, none, some, [], ◌∷◌, arith, number_key, pair_key, ok,
  unwrap_or,
}
use arxium.Prelude.Map.{get, insert, commit}
use arxium.Primitives.State.{StakeAllocation}
use arxium.Circuit.View.{View, Reads, entry_in, read_account}
use arxium.Circuit.Ledger.{Accounts, supply}
use arxium.Circuit.Updates.{StakeUpdates, allocation_of}
use arxium.Circuit.Staking.Types.{SlashReason, read_masters, staked, staked_in}
use arxium.Circuit.Staking.Stake.{active_in}
use arxium.Circuit.Staking.Slash.{apply_slash, apply_downtime_slash, drain, slashed_rows}
use arxium.Circuit.Staking.Slash.Effects.{
  apply_slash-supply, apply_slash-allocation, apply_slash-backed,
}
use arxium.Circuit.Sample.{staked_view, holding, system}

abbrev ledger : Accounts
ledger = (102, holding 100_000 0) ∷ (98, holding 7 0) ∷ []

abbrev stake : StakeAllocation
stake = record {
  master = 1;
  validator = 2;
  active_amount = 60_000;
  unbonding = some (record { amount = 40_000; unlock_at_height = 9 });
  created_at = 3;
  updated_at = 3;
}

abbrev view : View
view = staked_view ledger stake

view-Reads : Reads view ledger
view-Reads = record { at = λ a. refl }

abbrev left : StakeAllocation
left = record stake {
  active_amount = 0;
  unbonding = some (record { amount = 30_000; unlock_at_height = 9 });
  updated_at = 5;
}

abbrev rows : Accounts × StakeUpdates
rows = (
  (102, holding 30_000 0) ∷ (98, holding 70_007 0) ∷ [],
  record { allocations = ((1, 2), some left) ∷ []; validator_index = [] },
)

rows_lem : apply_slash system view 2 70_000 SlashReason.double_sign 5 ≡ ok rows
unfolding apply_slash read_account read_masters get insert unwrap_or drain slashed_rows
rows_lem = refl

abbrev removed_rows : Accounts × StakeUpdates
removed_rows = (
  (102, holding 0 0) ∷ (98, holding 100_007 0) ∷ [],
  record { allocations = ((1, 2), none) ∷ []; validator_index = (2, []) ∷ [] },
)

removed_rows_lem : apply_slash system view 2 200_000 SlashReason.double_sign 5 ≡ ok removed_rows
unfolding apply_slash read_account read_masters get insert unwrap_or drain slashed_rows
removed_rows_lem = refl

abbrev missed_left : StakeAllocation
missed_left = record stake { active_amount = 59_990; updated_at = 5 }

abbrev missed_rows : Accounts × StakeUpdates
missed_rows = (
  (102, holding 99_990 0) ∷ (98, holding 17 0) ∷ [],
  record { allocations = ((1, 2), some missed_left) ∷ []; validator_index = [] },
)

missed_rows_lem : apply_downtime_slash system view 2 3 5 1 ≡ ok missed_rows
unfolding apply_downtime_slash apply_slash read_account read_masters get insert unwrap_or drain
    slashed_rows
missed_rows_lem = refl

indexed : view.stake_by_validator 2 ≡ ok (some (1 ∷ []))
indexed = refl

stake_read : view.stake 1 2 ≡ ok (some stake)
stake_read = refl

apply_slash-supply_example :
    (supply (commit rows.0 ledger) ≡ supply ledger)
    × ((entry_in (commit rows.0 ledger) 102).balance
          + min (entry_in ledger 102).balance (min 70_000 (staked stake))
        ≡ (entry_in ledger 102).balance)
    × ((entry_in (commit rows.0 ledger) 98).balance
        ≡ (entry_in ledger 98).balance
          + min (entry_in ledger 102).balance (min 70_000 (staked stake)))
apply_slash-supply_example =
    apply_slash-supply system view ledger view-Reads 1 2 70_000 SlashReason.double_sign 5 [] indexed
      stake stake_read rows_lem (omega arith)

apply_slash-allocation_example :
    (kept : Option StakeAllocation) × (allocation_of rows.1 1 2 ≡ some kept)
    × (staked_in kept + min 70_000 (staked stake) ≡ staked stake)
    × (active_in kept ≡ stake.active_amount - 70_000)
    × (kept ≡ none → staked stake ≤ 70_000)
apply_slash-allocation_example =
    apply_slash-allocation system view ledger view-Reads 1 2 70_000 SlashReason.double_sign 5 []
      indexed stake stake_read rows_lem

apply_slash-backed_example :
    (staked_in (some left) ≤ (entry_in (commit rows.0 ledger) 102).balance)
    × ((entry_in (commit rows.0 ledger) 98).balance
        ≡ (entry_in ledger 98).balance + min 70_000 (staked stake))
unfolding get insert entry_in unwrap_or
apply_slash-backed_example =
    apply_slash-backed system view ledger view-Reads 1 2 70_000 SlashReason.double_sign 5 [] indexed
      stake stake_read rows_lem (some left) (omega arith) (omega arith) refl
