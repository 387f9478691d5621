-- ===== src/Circuit/Staking/Unbond.antt =====
-- circuits/staking/src/lib.rs: `index_unbonding` and `resolve_due_unbonding`.
pub mod Supply
pub mod Index
pub mod Releases
pub mod Payout
mod Tests
use arxium.Prelude.{
  ℕ, ◌+◌, ◌-◌, Bool, true, false, Option, none, some, List, [], ◌∷◌, ◌++◌, ◌==◌, number_key,
  pair_key, any, if◌then◌else◌, Result, ok, err, panic, ◌>>=◌, unwrap_or,
}
use arxium.Prelude.Word.{u128_bound, sub, checked_add}
use arxium.Prelude.Map.{Map, get, insert}
use arxium.Primitives.Address.{Address}
use arxium.Primitives.State.{AccountEntry, StakeAllocation, Unbonding, SystemAccounts}
use arxium.Circuit.View.{View, StorageError, read_account}
use arxium.Circuit.Ledger.{Accounts}
use arxium.Circuit.Updates.{
  StakeUpdates, no_stake_updates, GovernanceUpdates, put_unbonding_due, delete_unbonding_due,
}
use arxium.Circuit.Staking.Reward.{credit_or_panic}

abbrev pub contains : Address × Address → List (Address × Address) → Bool
contains pair due = any (λ p. p == pair) due

pub index_unbonding : View → ℕ → Address → Address → Result StorageError GovernanceUpdates
index_unbonding view unlock master validator = do
  found ← view.unbonding_due unlock
  let due = unwrap_or found []
  let pair : Address × Address = (master, validator)
  ok (put_unbonding_due unlock (if contains pair due then due else due ++ pair ∷ []) ∷ [])

-- An allocation whose unbonding unlocks at `height`, with the amount that is unlocked.
abbrev pub unlocked : ℕ → Option StakeAllocation → Option (StakeAllocation × ℕ)
unlocked height none = none
unlocked height (some allocation) = elim allocation.unbonding [
  | none ↦ none
  | some batch ↦
      if batch.unlock_at_height == height
      then some (record allocation { unbonding = none }, batch.amount)
      else none
]

-- The first loop: the indexed pairs whose allocation is still there and unlocks now.
pub collect_due :
    View → ℕ → List (Address × Address) → Result StorageError (List (StakeAllocation × ℕ))
collect_due view height [] = ok []
collect_due view height ((master, validator) ∷ pairs) = do
  allocation ← view.stake master validator
  rest ← collect_due view height pairs
  ok (elim (unlocked height allocation) [ none ↦ rest | some due ↦ due ∷ rest ])

-- An account as the loop sees it: its own write, or the view's row.
unfoldable pub overlay_entry : View → Accounts → Address → Result StorageError AccountEntry
overlay_entry view overlay a = elim (get a overlay) [
  | some entry ↦ ok entry
  | none ↦ read_account (λ e. e) view a
]

abbrev pub released_rows : StakeAllocation → StakeUpdates → StakeUpdates
released_rows allocation rows =
    if allocation.active_amount == 0
    then record {
      allocations = insert (allocation.master, allocation.validator) none rows.allocations;
      validator_index = insert allocation.validator [] rows.validator_index;
    }
    else record rows {
      allocations =
          insert (allocation.master, allocation.validator) (some allocation) rows.allocations;
    }

-- One round of the second loop: `amount` goes from the sub-account back to the master.
pub release : SystemAccounts → View → StakeAllocation → ℕ → Accounts → Result StorageError Accounts
release system view allocation amount overlay = do
  master_entry ← overlay_entry view overlay allocation.master
  master_balance ← credit_or_panic master_entry.balance amount
  let credited = insert allocation.master (record master_entry { balance = master_balance }) overlay
  sub_entry ← overlay_entry view credited (system.stake_subaccount allocation.validator)
  sub_balance ← sub sub_entry.balance amount
  ok (
      insert (system.stake_subaccount allocation.validator)
        (record sub_entry { balance = sub_balance }) credited)

pub release_all :
    SystemAccounts
    → View
    → List (StakeAllocation × ℕ)
    → Accounts
    → StakeUpdates
    → Result StorageError (Accounts × StakeUpdates)
release_all system view [] overlay rows = ok (overlay, rows)
release_all system view ((allocation, amount) ∷ due) overlay rows = do
  overlay' ← release system view allocation amount overlay
  release_all system view due overlay' (released_rows allocation rows)

abbrev pub resolve_pairs :
    SystemAccounts
    → View
    → ℕ
    → Option (List (Address × Address))
    → Result StorageError (Accounts × StakeUpdates × GovernanceUpdates)
resolve_pairs system view height none = ok ([], no_stake_updates, [])
resolve_pairs system view height (some pairs) = do
  due ← collect_due view height pairs
  released ← release_all system view due [] no_stake_updates
  ok (released.0, released.1, delete_unbonding_due height ∷ [])

pub resolve_due_unbonding :
    SystemAccounts → View → ℕ → Result StorageError (Accounts × StakeUpdates × GovernanceUpdates)
resolve_due_unbonding system view height = do
  pairs ← view.unbonding_due height
  resolve_pairs system view height pairs
