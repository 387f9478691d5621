-- ===== src/Circuit/Staking/Unbond/Releases.antt =====
-- What the second loop moves and writes, for any list of allocations that are due.
use arxium.Prelude.{
  ℕ, ◌+◌, ◌-◌, ◌≤◌, ◌<◌, ◌≡◌, refl, Bool, ◌&&◌, Option, none, some, List, [], ◌∷◌, arith, ◌==◌,
  number_key, pair_key, if◌then◌else◌, ok,
}
use arxium.Prelude.Word.{u128_bound}
use arxium.Prelude.Map.{insert, commit, get-insert}
use arxium.Prelude.Sets.{sum_by}
use arxium.Primitives.Address.{Address}
use arxium.Primitives.State.{StakeAllocation, SystemAccounts}
use arxium.Circuit.View.{View, Reads, entry_in}
use arxium.Circuit.Ledger.{Accounts, entry_in-write}
use arxium.Circuit.Updates.{StakeUpdates, allocation_of}
use arxium.Circuit.Staking.Unbond.{release, release_all, released_rows}
use arxium.Circuit.Staking.Unbond.Supply.{overlay_entry-entry_in}

abbrev is_of : Address → Address → StakeAllocation → Bool
is_of m v allocation = allocation.master == m && allocation.validator == v

abbrev pub credit : Address → StakeAllocation × ℕ → ℕ
credit a (allocation, amount) = if allocation.master == a then amount else 0

module _ (system : SystemAccounts) where
  abbrev pub debit : Address → StakeAllocation × ℕ → ℕ
  debit a (allocation, amount) =
      if system.stake_subaccount allocation.validator == a then amount else 0

  module _ (view : View) (accounts : Accounts) (reads : Reads view accounts) where
    abbrev balance_of : Accounts → Address → ℕ
    balance_of overlay a = (entry_in (commit overlay accounts) a).balance

    release_moves :
        (allocation : StakeAllocation) (amount : ℕ) (overlay : Accounts)
        → amount ≤ balance_of overlay (system.stake_subaccount allocation.validator)
        → balance_of overlay allocation.master + amount < u128_bound
        → (after : Accounts) × (release system view allocation amount overlay ≡ ok after)
          × ((a : Address)
              → balance_of after a + debit a (allocation, amount)
                ≡ balance_of overlay a + credit a (allocation, amount))
    unfolding release
    release_moves allocation amount overlay covered room =
        let master = allocation.master in
        let sub = system.stake_subaccount allocation.validator in
        let master_entry = entry_in (commit overlay accounts) master in
        let x = record master_entry { balance = master_entry.balance + amount } in
        let middle = insert master x overlay in
        let sub_entry = entry_in (commit middle accounts) sub in
        let y = record sub_entry { balance = sub_entry.balance - amount } in
        (
          insert sub y middle,
          ground (
            arith,
            overlay_entry-entry_in system view accounts reads overlay master,
            overlay_entry-entry_in system view accounts reads middle sub,
            entry_in-write master sub x overlay accounts,
          ),
          λ a. ground (
            arith,
            entry_in-write sub a y middle accounts,
            entry_in-write master a x overlay accounts,
            entry_in-write master sub x overlay accounts,
          ),
        )

    -- The row of one allocation after the loop: as the last round on it writes it.
    abbrev pub last_row :
        Address
        → Address
        → List (StakeAllocation × ℕ)
        → Option (Option StakeAllocation)
        → Option (Option StakeAllocation)
    last_row m v [] start = start
    last_row m v ((allocation, amount) ∷ due) start = last_row m v due (
        if is_of m v allocation
        then some (if allocation.active_amount == 0 then none else some allocation)
        else start)

    released_rows-last :
        (m v : Address) (allocation : StakeAllocation) (rows : StakeUpdates)
        → allocation_of (released_rows allocation rows) m v ≡ (
            if is_of m v allocation
            then some (if allocation.active_amount == 0 then none else some allocation)
            else allocation_of rows m v)
    released_rows-last m v allocation rows = ground (
      arith,
      get-insert {K = Address × Address} (allocation.master, allocation.validator) (m, v) none
          rows.allocations,
      get-insert {K = Address × Address} (allocation.master, allocation.validator) (m, v)
          (some allocation) rows.allocations,
    )

    pub release_all-pays :
        (due : List (StakeAllocation × ℕ)) (overlay : Accounts) (rows : StakeUpdates)
        → ((a : Address) → sum_by (debit a) due ≤ balance_of overlay a)
        → ((a : Address) → balance_of overlay a + sum_by (credit a) due < u128_bound)
        → (after : Accounts) × (written : StakeUpdates) × (release_all system view due overlay rows
            ≡ ok (after, written))
          × ((a : Address)
              → balance_of after a + sum_by (debit a) due
                ≡ balance_of overlay a + sum_by (credit a) due)
          × ((m v : Address)
              → allocation_of written m v ≡ last_row m v due (allocation_of rows m v))
    unfolding release_all sum_by
    release_all-pays [] overlay rows covered room = (overlay, rows, refl, λ a. refl, λ m v. refl)
    release_all-pays ((allocation, amount) ∷ due) overlay rows covered room =
        let sub = system.stake_subaccount allocation.validator in
        let (next, is, moves) =
          release_moves allocation amount overlay (ground (arith, covered sub))
            (ground (arith, room allocation.master)) in
        let (after, written, runs, sums, lasts) =
          release_all-pays due next (released_rows allocation rows)
            (λ a. ground (arith, covered a, moves a)) (λ a. ground (arith, room a, moves a)) in
        (
          after,
          written,
          ground (arith, is, runs),
          λ a. ground (arith, sums a, moves a),
          λ m v. ground (arith, lasts m v, released_rows-last m v allocation rows),
        )
