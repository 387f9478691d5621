-- ===== src/Circuit/Staking/Stake/Effects.antt =====
-- What a stake and an unstake do to the coins and to the allocation.
use arxium.Prelude.{
  ℕ, ◌+◌, ◌≤◌, ◌≡◌, ◌≢◌, true, false, Option, some, [], ◌∷◌, arith, unwrap_or, number_key, pair_key,
  ok, err,
}
use arxium.Prelude.Map.{commit}
use arxium.Primitives.Address.{Address}
use arxium.Primitives.State.{StakeAllocation, SystemAccounts}
use arxium.Circuit.View.{View, Reads, entry_in, read_account-entry_in}
use arxium.Circuit.Ledger.{Accounts, supply, supply-one, supply-two, entry_in-one, entry_in-two}
use arxium.Circuit.Account.Transfer.{bumped}
use arxium.Circuit.Updates.{StakeUpdates, allocation_of, get-allocation}
use arxium.Circuit.Staking.Types.{
  StakingError, max_delegation_per_validator, staked, staked_in, read_masters,
}
use arxium.Circuit.Staking.Stake.{apply_stake, apply_unstake, is_unbonding}
use arxium.Circuit.Staking.Stake.Rows.{
  master_after, sub_after, grown_row, split_row, apply_stake-eq-ok, apply_unstake-eq-ok,
}

module _ (system : SystemAccounts) (view : View) (accounts : Accounts) (reads : Reads view accounts)
    (master : Address) (nonce : ℕ) (validator : Address) (amount now_height : ℕ)
    (existing : Option StakeAllocation) (read : view.stake master validator ≡ ok existing)
    {rows : Accounts × StakeUpdates}
    (applied : apply_stake system view master nonce validator amount now_height ≡ ok rows)
    (distinct : master ≢ system.stake_subaccount validator) where
  -- A stake conserves the supply, where the validator's sub-account is not the master's own: the
  -- coins that leave the master arrive in the sub-account, and both amounts are `amount`.
  pub apply_stake-supply :
      (supply (commit rows.0 accounts) ≡ supply accounts)
      × ((entry_in (commit rows.0 accounts) master).balance + amount
          ≡ (entry_in accounts master).balance)
      × ((entry_in (commit rows.0 accounts) (system.stake_subaccount validator)).balance
          ≡ (entry_in accounts (system.stake_subaccount validator)).balance + amount)
  apply_stake-supply =
      let sub = system.stake_subaccount validator in
      let debit = master_after (entry_in accounts master) amount in
      let credit = sub_after (entry_in accounts sub) amount in
      ground (
        arith,
        apply_stake-eq-ok system view accounts reads master nonce validator amount now_height
            existing read applied,
        supply-two master sub debit credit accounts,
        entry_in-two master sub master debit credit accounts,
        entry_in-two master sub sub debit credit accounts,
      )

  -- The allocation after a stake holds what it held and `amount` more, is not unbonding, and is
  -- within the delegation cap.
  pub apply_stake-allocation :
      (allocation : StakeAllocation) × (allocation_of rows.1 master validator
        ≡ some (some allocation))
      × (staked allocation ≡ staked_in existing + amount)
      × (is_unbonding (some allocation) ≡ false)
      × (staked allocation ≤ max_delegation_per_validator)
  apply_stake-allocation =
      let facts =
        apply_stake-eq-ok system view accounts reads master nonce validator amount now_height
          existing read applied in
      let allocation = grown_row master validator amount now_height existing in
      (
        allocation,
        ground (arith, facts, get-allocation master validator (some allocation)),
        ground (arith, facts),
        ground (arith, facts),
        ground (arith, facts),
      )

module _ (view : View) (accounts : Accounts) (reads : Reads view accounts) (master : Address)
    (nonce : ℕ) (validator : Address) (amount now_height unbonding_blocks : ℕ)
    (existing : StakeAllocation) (read : view.stake master validator ≡ ok (some existing))
    {rows : Accounts × StakeUpdates}
    (applied : apply_unstake view master nonce validator amount now_height unbonding_blocks
      ≡ ok rows) where
  -- An unstake moves no coins: the balance of every account and the supply are as they were. What
  -- the allocation holds in all is unchanged too, so a slash still reaches what is unbonding.
  apply_unstake-conserves :
      (account : Address)
      → (supply (commit rows.0 accounts) ≡ supply accounts)
        × ((entry_in (commit rows.0 accounts) account).balance
            ≡ (entry_in accounts account).balance)
        × (allocation_of rows.1 master validator
            ≡ some (some (split_row existing amount now_height (now_height + unbonding_blocks))))
        × (staked (split_row existing amount now_height (now_height + unbonding_blocks))
            ≡ staked existing)
  apply_unstake-conserves account =
      let row = split_row existing amount now_height (now_height + unbonding_blocks) in
      let entry = bumped (entry_in accounts master) in
      ground (
        arith,
        apply_unstake-eq-ok view accounts reads master nonce validator amount now_height
            unbonding_blocks existing read applied,
        get-allocation master validator (some row),
        supply-one master entry accounts,
        entry_in-one master account entry accounts,
      )

-- While a batch of a master's stake on a validator unbonds, both a further stake of a positive,
-- covered amount and a further unstake of a positive amount are refused as already unbonding, if
-- the nonce is right and no other master stakes on the validator.
unbonding_blocks_changes :
    (system : SystemAccounts) (view : View) (accounts : Accounts) (master validator : Address)
    (amount now_height unbonding_blocks : ℕ) (existing : StakeAllocation)
    → Reads view accounts
    → view.stake master validator ≡ ok (some existing)
    → view.stake_by_validator validator ≡ ok (some (master ∷ []))
    → is_unbonding (some existing) ≡ true
    → amount ≢ 0
    → amount ≤ (entry_in accounts master).balance
    → let nonce = (entry_in accounts master).nonce in
      (apply_stake system view master nonce validator amount now_height
        ≡ err (StakingError.already_unbonding master validator))
      × (apply_unstake view master nonce validator amount now_height unbonding_blocks
          ≡ err (StakingError.already_unbonding master validator))
unfolding apply_stake apply_unstake read_masters unwrap_or
unbonding_blocks_changes system view accounts master validator amount now_height unbonding_blocks
      existing reads read masters waits positive covered =
    ground (arith, read_account-entry_in StakingError.storage view accounts master reads)
