-- ===== src/Primitives/Governance.antt =====
-- core/primitives/src/validator_set.rs: governance actions and proposals.
use arxium.Prelude.{ℕ, String, List}
use arxium.Primitives.Address.{Address}
use arxium.Primitives.Params.{ChainParams, DisputeCause}

pub data DisputeResolution : Type 0 where
  accept forked : DisputeResolution

-- `resolve_dispute height header resolution corrections cause bounty` and
-- `add_attestor attestor name owners threshold evidence_hash evidence_uri`, as in the source.
-- A 32-byte header commitment is a number.
pub data GovernanceAction : Type 0 where
  set_chain_params : ChainParams → GovernanceAction
  treasury_spend : Address → ℕ → GovernanceAction
  resolve_dispute :
      ℕ → ℕ → DisputeResolution → List (Address × ℕ) → DisputeCause → ℕ → GovernanceAction
  reinstate_validator : Address → GovernanceAction
  add_attestor : Address → String → List Address → ℕ → String → String → GovernanceAction
  remove_attestor : Address → GovernanceAction
  unblock_attestor : Address → GovernanceAction

pub data ProposalStatus : Type 0 where
  opened executed rejected : ProposalStatus

pub record Proposal : Type 0 where
  pub id : ℕ
  pub proposer : Address
  pub action : GovernanceAction
  pub description : String
  pub created_at : ℕ
  pub voting_ends_at : ℕ
  pub yes_power : ℕ
  pub no_power : ℕ
  pub status : ProposalStatus
  pub bond : ℕ
