-- ===== src/Circuit/Staking/Unbond/Tests.antt =====
-- Master 1 has 10 staked on validator 2, of which 6 unlock at height 9.
use arxium.Prelude.{
  ℕ, List, Option, ◌&&◌, ◌≡◌, refl, none, some, [], ◌∷◌, ◌==◌, number_key, pair_key, ok, unwrap_or,
  if◌then◌else◌,
}
use arxium.Prelude.Map.{get, insert, commit}
use arxium.Primitives.State.{StakeAllocation}
use arxium.Circuit.View.{View, Reads, read_account}
use arxium.Circuit.Ledger.{Accounts, supply}
use arxium.Circuit.Updates.{StakeUpdates, GovernanceUpdates, delete_unbonding_due}
use arxium.Circuit.Staking.Stake.Rows.{split_row}
use arxium.Circuit.Staking.Unbond.{
  resolve_due_unbonding, collect_due, release_all, release, overlay_entry,
}
use arxium.Circuit.Staking.Unbond.Supply.{resolve_due_unbonding-supply}
use arxium.Circuit.Sample.{staked_view, holding, system}

abbrev ledger : Accounts
ledger = (1, holding 50 7) ∷ (102, holding 10 0) ∷ []

abbrev ten : StakeAllocation
ten = record {
  master = 1;
  validator = 2;
  active_amount = 10;
  unbonding = none;
  created_at = 3;
  updated_at = 3;
}

abbrev view : View
view = record (staked_view ledger (split_row ten 6 5 9)) {
  unbonding_due = λ h. if h == 9 then ok (some ((1, 2) ∷ [])) else ok none;
}

view-Reads : Reads view ledger
view-Reads = record { at = λ a. refl }

abbrev rows : Accounts × StakeUpdates × GovernanceUpdates
rows = (
  (1, holding 56 7) ∷ (102, holding 4 0) ∷ [],
  record {
    allocations = ((1, 2), some (record (split_row ten 6 5 9) { unbonding = none })) ∷ [];
    validator_index = [];
  },
  delete_unbonding_due 9 ∷ [],
)

rows_lem : resolve_due_unbonding system view 9 ≡ ok rows
unfolding resolve_due_unbonding collect_due release_all release overlay_entry read_account get
    insert unwrap_or
rows_lem = refl

resolve_due_unbonding-supply_example : supply (commit rows.0 ledger) ≡ supply ledger
resolve_due_unbonding-supply_example =
    resolve_due_unbonding-supply system view ledger view-Reads 9 rows rows_lem

-- Three stakes at height 9: master 1 with two validators, and master 3 with the first of them.
abbrev table : ℕ → ℕ → Option StakeAllocation
table m v =
    if m == 1 && v == 2
    then some (split_row ten 6 5 9)
    else if m == 1 && v == 4
    then some (split_row (record ten { validator = 4 }) 10 5 9)
    else if m == 3 && v == 2
    then some (split_row (record ten { master = 3 }) 1 5 9)
    else none

abbrev full : Accounts
full = (1, holding 50 7) ∷ (102, holding 20 0) ∷ (104, holding 10 0) ∷ []

abbrev listed : List (ℕ × ℕ)
listed = (1, 2) ∷ (1, 4) ∷ (3, 2) ∷ []

abbrev three : View
three = record (staked_view full ten) {
  stake = λ m v. ok (table m v);
  unbonding_due = λ h. if h == 9 then ok (some listed) else ok none;
}
