-- ===== src/Circuit/Staking/Slash.antt =====
-- circuits/staking/src/lib.rs: `apply_slash` and `apply_downtime_slash`.
pub mod Rows
pub mod Effects
pub mod Downtime
mod Tests
use arxium.Prelude.{
  ℕ, ◌+◌, ◌-◌, ◌/◌, min, Bool, true, false, ◌&&◌, Option, none, some, List, [], ◌∷◌, ltb, ◌==◌,
  number_key, pair_key, if◌then◌else◌, Result, ok, err, panic, ◌>>=◌, map_err,
}
use arxium.Prelude.Word.{u128_bound, add, sub, mul}
use arxium.Prelude.Map.{insert}
use arxium.Primitives.Address.{Address}
use arxium.Primitives.State.{AccountEntry, StakeAllocation, Unbonding, SystemAccounts}
use arxium.Circuit.View.{View, StorageError, read_account}
use arxium.Circuit.Ledger.{Accounts}
use arxium.Circuit.Updates.{StakeUpdates, no_stake_updates}
use arxium.Circuit.Staking.Types.{StakingError, SlashReason, credit, read_masters, unbonding_amount}

-- The unbonding batch after `remaining` is taken from it: an empty batch is dropped.
pub drain : ℕ → Option Unbonding → Result StakingError (Option Unbonding)
drain remaining none = ok none
drain remaining (some batch) =
    if ltb 0 remaining
    then (do
      left ← sub batch.amount remaining
      ok (if left == 0 then none else some (record batch { amount = left })))
    else ok (some batch)

abbrev pub is_empty : StakeAllocation → Bool
is_empty allocation =
    allocation.active_amount == 0 && elim allocation.unbonding [ none ↦ true | some _ ↦ false ]

-- An allocation with nothing left is removed, with the validator's index row.
pub slashed_rows : Address → Address → StakeAllocation → StakeUpdates
slashed_rows master validator allocation =
    if is_empty allocation
    then record {
      allocations = insert (master, validator) none [];
      validator_index = insert validator [] [];
    }
    else record {
      allocations = insert (master, validator) (some allocation) [];
      validator_index = [];
    }

abbrev pub first_master : Address → List Address → Result StakingError Address
first_master validator [] = err (StakingError.no_stake_for_validator validator)
first_master validator (master ∷ _) = ok master

abbrev pub stake_of : Address → Option StakeAllocation → Result StakingError StakeAllocation
stake_of validator none = err (StakingError.no_stake_for_validator validator)
stake_of validator (some existing) = ok existing

pub apply_slash :
    SystemAccounts
    → View
    → Address
    → ℕ
    → SlashReason
    → ℕ
    → Result StakingError (Accounts × StakeUpdates)
apply_slash system view validator amount reason now_height = do
  masters ← read_masters StakingError.storage view validator
  master ← first_master validator masters
  found ← map_err StakingError.storage (view.stake master validator)
  existing ← stake_of validator found
  total ← add u128_bound existing.active_amount (unbonding_amount existing.unbonding)
  let slash_amount = min amount total
  let from_active = min slash_amount existing.active_amount
  unbonding ← drain (slash_amount - from_active) existing.unbonding
  sub_entry ← read_account StakingError.storage view (system.stake_subaccount validator)
  let debited = min sub_entry.balance slash_amount
  pool_entry ← read_account StakingError.storage view system.reward_pool
  pool_balance ← credit pool_entry.balance debited system.reward_pool
  ok (
    insert system.reward_pool (record pool_entry { balance = pool_balance })
        (insert (system.stake_subaccount validator)
          (record sub_entry { balance = sub_entry.balance - debited }) []),
    slashed_rows master validator (record existing {
      active_amount = existing.active_amount - from_active;
      unbonding = unbonding;
      updated_at = now_height;
    }),
  )

-- What `apply_downtime_slash` makes of the slash: only a storage error is passed on.
abbrev pub downtime_outcome :
    Result StakingError (Accounts × StakeUpdates) → Result StorageError (Accounts × StakeUpdates)
downtime_outcome (ok rows) = ok rows
downtime_outcome (err (StakingError.storage e)) = err e
downtime_outcome (err _) = ok ([], no_stake_updates)
downtime_outcome panic = panic

-- The slash of a primary that missed its slot, once its allocation is read.
abbrev pub slash_missed :
    SystemAccounts
    → View
    → Address
    → ℕ
    → ℕ
    → Option StakeAllocation
    → Result StorageError (Accounts × StakeUpdates)
slash_missed system view primary now_height downtime_slash_bps none = ok ([], no_stake_updates)
slash_missed system view primary now_height downtime_slash_bps (some existing) = do
  total ← add u128_bound existing.active_amount (unbonding_amount existing.unbonding)
  product ← mul u128_bound total downtime_slash_bps
  let amount = product / 10_000
  if amount == 0
      then ok ([], no_stake_updates)
      else downtime_outcome (apply_slash system view primary amount SlashReason.downtime now_height)

abbrev pub find_missed :
    SystemAccounts
    → View
    → Address
    → ℕ
    → ℕ
    → List Address
    → Result StorageError (Accounts × StakeUpdates)
find_missed system view primary now_height downtime_slash_bps [] = ok ([], no_stake_updates)
find_missed system view primary now_height downtime_slash_bps (master ∷ _) = do
  existing ← view.stake master primary
  slash_missed system view primary now_height downtime_slash_bps existing

pub apply_downtime_slash :
    SystemAccounts
    → View
    → Address
    → Address
    → ℕ
    → ℕ
    → Result StorageError (Accounts × StakeUpdates)
apply_downtime_slash system view primary actual_proposer now_height downtime_slash_bps =
    if primary == actual_proposer then ok ([], no_stake_updates) else (do
      masters ← read_masters (λ e. e) view primary
      find_missed system view primary now_height downtime_slash_bps masters)
