-- ===== src/Circuit/Staking/Slash/Rows.antt =====
-- What a successful slash returns.
use arxium.Prelude.{
  ℕ, ◌+◌, ◌-◌, ◌≤◌, ◌≡◌, min, Option, none, some, List, [], ◌∷◌, refl, arith, ltb, ◌==◌, number_key,
  pair_key, if◌then◌else◌, ok, unwrap_or,
}
use arxium.Prelude.Map.{insert}
use arxium.Primitives.Address.{Address}
use arxium.Primitives.State.{AccountEntry, StakeAllocation, Unbonding, SystemAccounts}
use arxium.Circuit.View.{View, Reads, entry_in, read_account-entry_in}
use arxium.Circuit.Ledger.{Accounts}
use arxium.Circuit.Updates.{StakeUpdates, allocation_of, get-allocation}
use arxium.Circuit.Staking.Types.{StakingError, SlashReason, read_masters, staked, unbonding_amount}
use arxium.Circuit.Staking.Slash.{apply_slash, slashed_rows, drain, is_empty}

-- What the sub-account can pay of a slash of `amount`.
abbrev pub payable : AccountEntry → ℕ → StakeAllocation → ℕ
payable sub_entry amount existing = min sub_entry.balance (min amount (staked existing))

abbrev pub paid_from : AccountEntry → ℕ → AccountEntry
paid_from entry amount = record entry { balance = entry.balance - amount }

abbrev pub paid_to : AccountEntry → ℕ → AccountEntry
paid_to entry amount = record entry { balance = entry.balance + amount }

-- The row that the updates write for the pair, whether the allocation is kept or removed.
pub slashed_rows-allocation :
    (master validator : Address) (allocation : StakeAllocation)
    → allocation_of (slashed_rows master validator allocation) master validator
      ≡ some (if is_empty allocation then none else some allocation)
unfolding slashed_rows
slashed_rows-allocation master validator allocation =
    ground (
      arith,
      get-allocation master validator none,
      get-allocation master validator (some allocation),
    )

-- The batch that is left when the batch covers what is taken.
unfoldable pub drained : ℕ → Option Unbonding → Option Unbonding
drained remaining none = none
drained remaining (some batch) =
    if ltb 0 remaining
    then (if batch.amount - remaining == 0
        then none
        else some (record batch { amount = batch.amount - remaining }))
    else some batch

pub drain-drained :
    (remaining : ℕ) (batch : Option Unbonding)
    → remaining ≤ unbonding_amount batch
    → drain remaining batch ≡ ok (drained remaining batch)
unfolding drained drain
drain-drained remaining none le = refl
drain-drained remaining (some batch) le = ground arith

pub drained-amount :
    (remaining : ℕ) (batch : Option Unbonding)
    → remaining ≤ unbonding_amount batch
    → unbonding_amount (drained remaining batch) + remaining ≡ unbonding_amount batch
unfolding drained drain
drained-amount remaining none le = omega arith
drained-amount remaining (some batch) le = ground arith

-- What is taken beyond the active amount.
abbrev pub spilled : ℕ → StakeAllocation → ℕ
spilled amount existing =
    min amount (staked existing) - min (min amount (staked existing)) existing.active_amount

pub spilled-le :
    (amount : ℕ) (existing : StakeAllocation)
    → spilled amount existing ≤ unbonding_amount existing.unbonding
spilled-le amount existing = omega arith

-- The allocation after a slash of `amount`.
abbrev pub slashed : ℕ → ℕ → StakeAllocation → StakeAllocation
slashed amount now_height existing = record existing {
  active_amount =
      existing.active_amount - min (min amount (staked existing)) existing.active_amount;
  unbonding = drained (spilled amount existing) existing.unbonding;
  updated_at = now_height;
}

module _ (system : SystemAccounts) (view : View) (accounts : Accounts) (reads : Reads view accounts)
    (master validator : Address) (amount : ℕ) (reason : SlashReason) (now_height : ℕ)
    (rest : List Address) (indexed : view.stake_by_validator validator ≡ ok (some (master ∷ rest)))
    (existing : StakeAllocation) (read : view.stake master validator ≡ ok (some existing))
    {rows : Accounts × StakeUpdates}
    (applied : apply_slash system view validator amount reason now_height ≡ ok rows) where
  pub apply_slash-eq-ok :
      let sub = entry_in accounts (system.stake_subaccount validator) in
      (rows.0
        ≡ insert system.reward_pool
            (paid_to (entry_in accounts system.reward_pool) (payable sub amount existing))
            (insert
              (system.stake_subaccount validator)
              (paid_from sub (payable sub amount existing))
              []))
      × (rows.1 ≡ slashed_rows master validator (slashed amount now_height existing))
  unfolding apply_slash read_masters unwrap_or
  apply_slash-eq-ok = ground (
    arith,
    indexed,
    read,
    drain-drained (spilled amount existing) existing.unbonding,
    spilled-le amount existing,
    read_account-entry_in StakingError.storage view accounts (system.stake_subaccount validator)
        reads,
    read_account-entry_in StakingError.storage view accounts system.reward_pool reads,
  )
