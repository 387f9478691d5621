-- ===== src/Circuit/Updates.antt =====
-- core/storage/src/batch.rs: what circuits hand back for the block's atomic write.
use arxium.Prelude.{ℕ, Bool, Option, some, List, [], ◌≡◌, number_key, pair_key}
use arxium.Prelude.Map.{Map, get, insert, commit, get-insert_self}
use arxium.Primitives.Address.{Address, AssetRef}
use arxium.Primitives.State.{StakeAllocation}
use arxium.Primitives.Params.{ChainParams}
use arxium.Primitives.Governance.{Proposal}
use arxium.Primitives.Attestor.{AttestorRecord}

-- `none` removes the allocation, and an empty list of masters removes the index row.
pub record StakeUpdates : Type 0 where
  pub allocations : Map (Address × Address) (Option StakeAllocation)
  pub validator_index : Map Address (List Address)

-- The allocation that a set of updates writes for a pair, if it writes one.
abbrev pub allocation_of : StakeUpdates → Address → Address → Option (Option StakeAllocation)
allocation_of rows master validator = get (master, validator) rows.allocations

pub get-allocation :
    (master validator : Address) (row : Option StakeAllocation)
    → get {K = Address × Address} (master, validator) (insert (master, validator) row []) ≡ some row
get-allocation master validator row = get-insert_self _ row []

abbrev pub no_stake_updates : StakeUpdates
no_stake_updates = record { allocations = []; validator_index = [] }

abbrev pub AssetBalances : Type 0
AssetBalances = Map (AssetRef × Address) ℕ

abbrev pub balance_in : AssetRef → Address → AssetBalances → Option ℕ
balance_in asset owner = get {K = AssetRef × Address} (asset, owner)

abbrev pub put_balance : AssetRef → Address → ℕ → AssetBalances → AssetBalances
put_balance asset owner = insert {K = AssetRef × Address} (asset, owner)

abbrev pub commit_balances : AssetBalances → AssetBalances → AssetBalances
commit_balances = commit {K = AssetRef × Address}

-- One row of `GovernanceUpdates`: a typed key with the value put, or deleted.
pub data GovernanceRow : Type 0 where
  put_unbonding_due : ℕ → List (Address × Address) → GovernanceRow
  delete_unbonding_due : ℕ → GovernanceRow
  put_proposal : ℕ → Proposal → GovernanceRow
  put_next_proposal_id : ℕ → GovernanceRow
  put_vote : ℕ → Address → Bool → GovernanceRow
  put_chain_params : ChainParams → GovernanceRow
  delete_dispute_open : ℕ → ℕ → GovernanceRow
  delete_validator_status : Address → GovernanceRow
  put_attestor_name : List ℕ → Address → GovernanceRow
  delete_attestor_name : List ℕ → GovernanceRow
  put_attestor_record : Address → AttestorRecord → GovernanceRow

-- In the order of the writes.
abbrev pub GovernanceUpdates : Type 0
GovernanceUpdates = List GovernanceRow
