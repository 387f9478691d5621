-- ===== src/Circuit/Staking/Unbond/Supply.antt =====
-- Releasing what is due moves coins between accounts and makes none.
use arxium.Prelude.{
  ℕ, ◌+◌, ◌-◌, ◌≡◌, ◌∙◌, Option, none, some, List, [], ◌∷◌, arith, number_key, ok, >>=-eq-ok,
}
use arxium.Prelude.Map.{insert, commit, commit-nil}
use arxium.Primitives.Address.{Address}
use arxium.Primitives.State.{AccountEntry, StakeAllocation, SystemAccounts}
use arxium.Circuit.View.{View, Reads, entry_in, read_account-entry_in}
use arxium.Circuit.Ledger.{Accounts, supply, supply-write, entry_in-commit}
use arxium.Circuit.Updates.{StakeUpdates, GovernanceUpdates, no_stake_updates}
use arxium.Circuit.Staking.Unbond.{
  overlay_entry, release, release_all, released_rows, collect_due, resolve_pairs,
  resolve_due_unbonding,
}

module _ (system : SystemAccounts) (view : View) (accounts : Accounts)
    (reads : Reads view accounts) where
  -- The loop sees the ledger with its own writes committed.
  pub overlay_entry-entry_in :
      (overlay : Accounts) (a : Address)
      → overlay_entry view overlay a ≡ ok (entry_in (commit overlay accounts) a)
  unfolding overlay_entry
  overlay_entry-entry_in overlay a = ground (
    arith,
    entry_in-commit a overlay accounts,
    read_account-entry_in (λ e. e) view accounts a reads,
  )

  pub release-supply :
      (allocation : StakeAllocation) (amount : ℕ) (overlay after : Accounts)
      → release system view allocation amount overlay ≡ ok after
      → supply (commit after accounts) ≡ supply (commit overlay accounts)
  unfolding release
  release-supply allocation amount overlay after h =
      let master = allocation.master in
      let sub = system.stake_subaccount allocation.validator in
      let master_entry = entry_in (commit overlay accounts) master in
      let credited = record master_entry { balance = master_entry.balance + amount } in
      let middle = insert master credited overlay in
      let sub_entry = entry_in (commit middle accounts) sub in
      ground (
        arith,
        overlay_entry-entry_in overlay master,
        overlay_entry-entry_in middle sub,
        supply-write master credited overlay accounts,
        supply-write sub (record sub_entry { balance = sub_entry.balance - amount }) middle
            accounts,
      )

  pub release_all-supply :
      (due : List (StakeAllocation × ℕ)) (overlay : Accounts) (rows : StakeUpdates)
      (result : Accounts × StakeUpdates)
      → release_all system view due overlay rows ≡ ok result
      → supply (commit result.0 accounts) ≡ supply (commit overlay accounts)
  unfolding release_all
  release_all-supply [] overlay rows result h = ground arith
  release_all-supply ((allocation, amount) ∷ due) overlay rows result h =
      let (after, released, rest) = >>=-eq-ok (release system view allocation amount overlay) _ h in
      release_all-supply due after (released_rows allocation rows) result rest
      ∙ release-supply allocation amount overlay after released

  resolve_pairs-supply :
      (height : ℕ) (pairs : Option (List (Address × Address)))
      (result : Accounts × StakeUpdates × GovernanceUpdates)
      → resolve_pairs system view height pairs ≡ ok result
      → supply (commit result.0 accounts) ≡ supply accounts
  resolve_pairs-supply height none result h = ground (arith, commit-nil {V = AccountEntry} accounts)
  resolve_pairs-supply height (some pairs) result h =
      let (due, collected, next) = >>=-eq-ok (collect_due view height pairs) _ h in
      let (released, all, last) =
        >>=-eq-ok (release_all system view due [] no_stake_updates) _ next in
      ground (
        arith,
        last,
        release_all-supply due [] no_stake_updates released all,
        commit-nil {V = AccountEntry} accounts,
      )

  -- Resolving the unbonding that is due at a height conserves the supply, however many allocations
  -- are due and whichever share a master.
  pub resolve_due_unbonding-supply :
      (height : ℕ) (result : Accounts × StakeUpdates × GovernanceUpdates)
      → resolve_due_unbonding system view height ≡ ok result
      → supply (commit result.0 accounts) ≡ supply accounts
  unfolding resolve_due_unbonding
  resolve_due_unbonding-supply height result h =
      let (pairs, read, rest) =
        >>=-eq-ok (view.unbonding_due height) (resolve_pairs system view height) h in
      resolve_pairs-supply height pairs result rest
