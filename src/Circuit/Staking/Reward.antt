-- ===== src/Circuit/Staking/Reward.antt =====
-- circuits/staking/src/lib.rs: `apply_block_reward`.
pub mod Supply
mod Tests
use arxium.Prelude.{
  ℕ, ◌/◌, ◌-◌, min, List, [], Option, none, some, Result, ok, err, panic, ◌>>=◌, number_key,
}
use arxium.Prelude.Word.{u128_bound, add, mul, checked_add}
use arxium.Prelude.Map.{insert}
use arxium.Primitives.Address.{Address}
use arxium.Primitives.State.{AccountEntry, SystemAccounts}
use arxium.Circuit.View.{View, StorageError, read_account}
use arxium.Circuit.Ledger.{Accounts}

-- `checked_add(..).expect(..)`
abbrev pub credit_or_panic : ℕ → ℕ → Result StorageError ℕ
credit_or_panic balance amount = elim (checked_add u128_bound balance amount) [
  | none ↦ panic
  | some total ↦ ok total
]

-- `fees * u128::from(bps) / 10_000`
abbrev pub fee_share : ℕ → ℕ → Result StorageError ℕ
fee_share fees bps = do product ← mul u128_bound fees bps; ok (product / 10_000)

pub apply_block_reward :
    SystemAccounts → View → Address → ℕ → ℕ → ℕ → ℕ → Result StorageError Accounts
apply_block_reward system view proposer fees_collected reward_per_block fee_proposer_bps
      fee_treasury_bps =
    do
      pool_entry ← read_account (λ e. e) view system.reward_pool
      let block_reward = min reward_per_block pool_entry.balance
      proposer_fee_share ← fee_share fees_collected fee_proposer_bps
      treasury_fee_share ← fee_share fees_collected fee_treasury_bps
      proposer_entry ← read_account (λ e. e) view proposer
      income ← add u128_bound block_reward proposer_fee_share
      proposer_balance ← credit_or_panic proposer_entry.balance income
      treasury_entry ← read_account (λ e. e) view system.treasury
      treasury_balance ← credit_or_panic treasury_entry.balance treasury_fee_share
      ok (
          insert system.treasury (record treasury_entry { balance = treasury_balance })
            (insert proposer (record proposer_entry { balance = proposer_balance })
              (insert system.reward_pool
                (record pool_entry { balance = pool_entry.balance - block_reward }) [])))
