-- ===== src/Circuit/Staking/Reward/Tests.antt =====
-- A pool of 5 pays proposer 1 what is left of a reward of 8, beside its share of 100 in fees.
use arxium.Prelude.{◌+◌, ◌*◌, ◌/◌, ◌≤◌, ◌≡◌, min, refl, [], ◌∷◌, arith, number_key, ok, unwrap_or}
use arxium.Prelude.Map.{get, insert, commit}
use arxium.Circuit.View.{Reads, entry_in, read_account}
use arxium.Circuit.Ledger.{Accounts, supply}
use arxium.Circuit.Staking.Reward.{apply_block_reward}
use arxium.Circuit.Staking.Reward.Supply.{apply_block_reward-pays, apply_block_reward-mints_nothing}
use arxium.Circuit.Sample.{view_of, holding, system}

abbrev ledger : Accounts
ledger = (98, holding 5 0) ∷ (1, holding 20 3) ∷ []

ledger-Reads : Reads (view_of ledger) ledger
ledger-Reads = record { at = λ a. refl }

abbrev rows : Accounts
rows = (98, holding 0 0) ∷ (1, holding 55 3) ∷ (99, holding 20 0) ∷ []

rows_lem : apply_block_reward system (view_of ledger) 1 100 8 3_000 2_000 ≡ ok rows
unfolding apply_block_reward read_account get insert unwrap_or
rows_lem = refl

apply_block_reward-pays_example :
    ((entry_in (commit rows ledger) 98).balance + min 8 (entry_in ledger 98).balance
      ≡ (entry_in ledger 98).balance)
    × ((entry_in (commit rows ledger) 1).balance
        ≡ (entry_in ledger 1).balance + min 8 (entry_in ledger 98).balance + 100 * 3_000 / 10_000)
    × ((entry_in (commit rows ledger) 99).balance
        ≡ (entry_in ledger 99).balance + 100 * 2_000 / 10_000)
    × (supply (commit rows ledger) ≡ supply ledger + 100 * 3_000 / 10_000 + 100 * 2_000 / 10_000)
apply_block_reward-pays_example =
    apply_block_reward-pays system (view_of ledger) ledger ledger-Reads 1 100 8 3_000 2_000 rows_lem
      (omega arith) (omega arith) (omega arith)

apply_block_reward-mints_nothing_example : supply (commit rows ledger) ≤ supply ledger + 100
apply_block_reward-mints_nothing_example =
    apply_block_reward-mints_nothing system (view_of ledger) ledger ledger-Reads 1 100 8 3_000 2_000
      rows_lem (omega arith) (omega arith) (omega arith) (omega arith)
