-- ===== src/Circuit/View.antt =====
-- core/circuit/src/lib.rs: `KvRead`, the view that every circuit reads, as one function for each
-- `KeySpec` that the modelled circuits use. A read fails with a `StorageError`
-- (core/storage/src/lib.rs) or says whether the row is there.
use arxium.Prelude.{
  ℕ, String, ◌≡◌, Option, Bool, List, Result, ok, map_err, number_key, unwrap_or, ◌>>=◌,
}
use arxium.Prelude.Map.{Map, get}
use arxium.Primitives.Address.{Address, AssetRef}
use arxium.Primitives.State.{AccountEntry, StakeAllocation, default_entry}
use arxium.Primitives.Params.{ChainParams, VotingPower, ValidatorStatus, DisputeCause}
use arxium.Primitives.Governance.{Proposal}
use arxium.Primitives.Attestor.{AttestorRecord}

-- The payloads that are another crate's error types are left out.
pub data StorageError : Type 0 where
  rocks : StorageError
  snapshot_rejected : String → StorageError
  encode : StorageError
  decode : StorageError
  corrupted_meta : StorageError
  schema_too_new : ℕ → ℕ → StorageError
  schema_too_old : ℕ → ℕ → StorageError
  invalid_root : String → StorageError
  missing_genesis_hash : StorageError
  unproven_read : StorageError
  revert_below_watermark : ℕ → ℕ → StorageError
  missing_undo_record : ℕ → StorageError
  missing_block : ℕ → StorageError
  revert_root_mismatch : ℕ → String → String → StorageError

pub record OpenDispute : Type 0 where
  pub culprit : Address
  pub challenger : Address
  pub cause : DisputeCause

abbrev pub Read : Type 0 → Type 0
Read V = Result StorageError (Option V)

pub record View : Type 0 where
  pub account : Address → Read AccountEntry
  pub stake : Address → Address → Read StakeAllocation
  pub stake_by_validator : Address → Read (List Address)
  pub unbonding_due : ℕ → Read (List (Address × Address))
  pub asset_balance : AssetRef → Address → Read ℕ
  pub params_row : Read ChainParams
  pub validator_set : ℕ → Read (Map Address VotingPower)
  pub proposal : ℕ → Read Proposal
  pub vote : ℕ → Address → Read Bool
  pub next_proposal_id : Read ℕ
  pub validator_status : Address → Read ValidatorStatus
  pub validator_candidates : Read (List Address)
  pub dispute_open : ℕ → ℕ → Read OpenDispute
  pub attestor_record : Address → Read AttestorRecord
  pub attestor_name : List ℕ → Read Address

-- `view.get(&AccountKey(a))?.unwrap_or_default()`; `from` is the conversion that `?` makes.
unfoldable pub read_account {ℓ} :
    {E : Type ℓ} → (StorageError → E) → View → Address → Result E AccountEntry
read_account from view a = do
  found ← map_err from (view.account a)
  ok (unwrap_or found default_entry)

-- The view's account rows are those of a map: what a committed ledger under a view looks like.
pub record Reads (view : View) (accounts : Map Address AccountEntry) : Type 0 where
  pub at : (a : Address) → view.account a ≡ ok (get a accounts)

-- The entry that a circuit works with: the stored one or the default.
unfoldable pub entry_in : Map Address AccountEntry → Address → AccountEntry
entry_in accounts a = unwrap_or (get a accounts) default_entry

pub read_account-entry_in {ℓ} :
    {E : Type ℓ} (from : StorageError → E) (view : View) (accounts : Map Address AccountEntry)
    (a : Address)
    → Reads view accounts
    → read_account from view a ≡ ok (entry_in accounts a)
unfolding read_account entry_in
read_account-entry_in from view accounts a r = rw (r.at a)
