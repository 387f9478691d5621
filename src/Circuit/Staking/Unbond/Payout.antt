-- ===== src/Circuit/Staking/Unbond/Payout.antt =====
-- What resolving a height pays to each account and writes for each allocation, for any list of pairs
-- in the height's index row.
use arxium.Prelude.{ℕ, ◌≡◌, Option, none, some, List, ◌==◌, number_key, pair_key, if◌then◌else◌, ok}
use arxium.Prelude.Sets.{sum_by}
use arxium.Primitives.Address.{Address}
use arxium.Primitives.State.{StakeAllocation, Unbonding, SystemAccounts}
use arxium.Circuit.View.{View, Reads}
use arxium.Circuit.Ledger.{Accounts}
use arxium.Circuit.Staking.Unbond.{contains, collect_due}
use arxium.Circuit.Staking.Unbond.Releases.{credit, debit, last_row}

-- The stakes that a view reads: each row is stored under its own master and validator.
pub record Stakes (view : View) (stakes : Address → Address → Option StakeAllocation) : Type 0 where
  pub at : (m v : Address) → view.stake m v ≡ ok (stakes m v)
  pub keyed_master :
      (m v : Address) (row : StakeAllocation) → stakes m v ≡ some row → row.master ≡ m
  pub keyed_validator :
      (m v : Address) (row : StakeAllocation) → stakes m v ≡ some row → row.validator ≡ v

-- What an allocation has unbonding until the height.
abbrev pub due_of : ℕ → Option StakeAllocation → ℕ
due_of height none = 0
due_of height (some row) = elim row.unbonding [
  | none ↦ 0
  | some batch ↦ if batch.unlock_at_height == height then batch.amount else 0
]

-- What is left of an allocation when its unbonding is paid out: no row if nothing is active.
abbrev pub row_left : StakeAllocation → Option StakeAllocation
row_left row = if row.active_amount == 0 then none else some (record row { unbonding = none })

-- What the pair's allocation pays to the account, and takes from it, at the height.
abbrev pub paid_to :
    ℕ → (Address → Address → Option StakeAllocation) → Address → Address × Address → ℕ
paid_to height stakes a (m, v) = if m == a then due_of height (stakes m v) else 0

abbrev pub taken_from :
    SystemAccounts
    → ℕ
    → (Address → Address → Option StakeAllocation)
    → Address
    → Address × Address
    → ℕ
taken_from system height stakes a (m, v) =
    if system.stake_subaccount v == a then due_of height (stakes m v) else 0

module _ (system : SystemAccounts) (view : View) (accounts : Accounts) (reads : Reads view accounts)
    (height : ℕ) (stakes : Address → Address → Option StakeAllocation)
    (staked : Stakes view stakes) where
  -- What the first loop collects, against the index row that it reads.
  record Collects (pairs : List (Address × Address)) : Type 0 where
    due : List (StakeAllocation × ℕ)
    returns : collect_due view height pairs ≡ ok due
    credits : (a : Address) → sum_by (credit a) due ≡ sum_by (paid_to height stakes a) pairs
    debits :
        (a : Address)
        → sum_by (debit system a) due ≡ sum_by (taken_from system height stakes a) pairs
    lasts :
        (row : StakeAllocation) (batch : Unbonding) (start : Option (Option StakeAllocation))
        → stakes row.master row.validator ≡ some row
        → row.unbonding ≡ some batch
        → batch.unlock_at_height ≡ height
        → last_row system view accounts reads row.master row.validator due start
          ≡ (if contains (row.master, row.validator) pairs then some (row_left row) else start)
