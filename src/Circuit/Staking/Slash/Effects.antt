-- ===== src/Circuit/Staking/Slash/Effects.antt =====
-- What a slash does to the coins and to the allocation.
use arxium.Prelude.{
  ℕ, ◌+◌, ◌-◌, ◌≤◌, ◌≡◌, ◌≢◌, min, Option, none, some, List, ◌∷◌, arith, number_key, pair_key,
  if◌then◌else◌, ok, ap,
}
use arxium.Prelude.Map.{commit}
use arxium.Primitives.Address.{Address}
use arxium.Primitives.State.{StakeAllocation, SystemAccounts}
use arxium.Circuit.View.{View, Reads, entry_in}
use arxium.Circuit.Ledger.{Accounts, supply, supply-two, entry_in-two}
use arxium.Circuit.Updates.{StakeUpdates, allocation_of}
use arxium.Circuit.Staking.Types.{SlashReason, staked, staked_in}
use arxium.Circuit.Staking.Stake.{active_in}
use arxium.Circuit.Staking.Slash.{apply_slash, is_empty}
use arxium.Circuit.Staking.Slash.Rows.{
  payable, paid_from, paid_to, slashed, spilled, spilled-le, drained-amount,
  slashed_rows-allocation, apply_slash-eq-ok,
}

-- What `slashed` leaves: the cut comes off the whole, and off the active part first.
slashed_lem :
    (amount now_height : ℕ) (existing : StakeAllocation)
    → let left = slashed amount now_height existing in
      (staked left + min amount (staked existing) ≡ staked existing)
      × (left.active_amount ≡ existing.active_amount - amount)
slashed_lem amount now_height existing = omega (
  arith,
  spilled-le amount existing,
  drained-amount (spilled amount existing) existing.unbonding (spilled-le amount existing),
)

abbrev pub kept : StakeAllocation → Option StakeAllocation
kept allocation = if is_empty allocation then none else some allocation

kept-staked_in :
    (allocation : StakeAllocation)
    → (staked_in (kept allocation) ≡ staked allocation)
      × (active_in (kept allocation) ≡ allocation.active_amount)
kept-staked_in allocation = ground arith

module _ (system : SystemAccounts) (view : View) (accounts : Accounts) (reads : Reads view accounts)
    (master validator : Address) (amount : ℕ) (reason : SlashReason) (now_height : ℕ)
    (rest : List Address) (indexed : view.stake_by_validator validator ≡ ok (some (master ∷ rest)))
    (existing : StakeAllocation) (read : view.stake master validator ≡ ok (some existing))
    {rows : Accounts × StakeUpdates}
    (applied : apply_slash system view validator amount reason now_height ≡ ok rows) where
  -- A slash conserves the supply where the sub-account is not the reward pool itself: what leaves
  -- the validator's sub-account, at most the slashed amount and at most its balance, is what arrives
  -- in the reward pool.
  pub apply_slash-supply :
      system.stake_subaccount validator ≢ system.reward_pool
      → let sub = system.stake_subaccount validator in
        let paid = min (entry_in accounts sub).balance (min amount (staked existing)) in
        (supply (commit rows.0 accounts) ≡ supply accounts)
        × ((entry_in (commit rows.0 accounts) sub).balance + paid ≡ (entry_in accounts sub).balance)
        × ((entry_in (commit rows.0 accounts) system.reward_pool).balance
            ≡ (entry_in accounts system.reward_pool).balance + paid)
  apply_slash-supply distinct =
      let sub = system.stake_subaccount validator in
      let paid = payable (entry_in accounts sub) amount existing in
      let debit = paid_from (entry_in accounts sub) paid in
      let credit = paid_to (entry_in accounts system.reward_pool) paid in
      ground (
        arith,
        apply_slash-eq-ok system view accounts reads master validator amount reason now_height rest
            indexed existing read applied,
        supply-two sub system.reward_pool debit credit accounts,
        entry_in-two sub system.reward_pool sub debit credit accounts,
        entry_in-two sub system.reward_pool system.reward_pool debit credit accounts,
      )

  -- A slash takes `amount`, or all there is, from what the first master's allocation holds, the
  -- active part before the part that unbonds; an allocation that is removed held no more than that.
  pub apply_slash-allocation :
      (left : Option StakeAllocation) × (allocation_of rows.1 master validator ≡ some left)
      × (staked_in left + min amount (staked existing) ≡ staked existing)
      × (active_in left ≡ existing.active_amount - amount)
      × (left ≡ none → staked existing ≤ amount)
  apply_slash-allocation =
      let facts =
        apply_slash-eq-ok system view accounts reads master validator amount reason now_height rest
          indexed existing read applied in
      let after = slashed amount now_height existing in
      let row = slashed_rows-allocation master validator after in
      let cut = slashed_lem amount now_height existing in
      let same = kept-staked_in after in
      (
        kept after,
        ground (arith, facts, row),
        omega (arith, cut, same),
        omega (arith, cut, same),
        λ gone. omega (arith, cut, same, ap staked_in gone),
      )

  -- Where the sub-account, not the reward pool itself, backs the whole allocation before a slash, it
  -- backs what is left of it afterwards, and the reward pool receives the whole of what is cut.
  pub apply_slash-backed :
      (left : Option StakeAllocation)
      → system.stake_subaccount validator ≢ system.reward_pool
      → staked existing ≤ (entry_in accounts (system.stake_subaccount validator)).balance
      → allocation_of rows.1 master validator ≡ some left
      → (staked_in left
          ≤ (entry_in (commit rows.0 accounts) (system.stake_subaccount validator)).balance)
        × ((entry_in (commit rows.0 accounts) system.reward_pool).balance
            ≡ (entry_in accounts system.reward_pool).balance + min amount (staked existing))
  apply_slash-backed left distinct backed written =
      let (kept_row, kept_written, cut, _, _) = apply_slash-allocation in
      let same : kept_row ≡ left = cc (kept_written, written) in
      omega (arith, apply_slash-supply distinct, cut, ap staked_in same)
