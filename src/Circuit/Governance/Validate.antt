-- ===== src/Circuit/Governance/Validate.antt =====
-- circuits/governance/src/lib.rs: `validate_action`, the checks of an action that need no state.
use Prim.Native.String.{len}
use arxium.Prelude.{
  ℕ, String, Bool, true, false, not, ◌&&◌, ◌||◌, List, [], ◌∷◌, ltb, leb, ◌==◌, number_key, any,
  length, Result, ok, map_err, reject_if, ◌>>◌,
}
use arxium.Prelude.Word.{u32_bound, saturating_add}
use arxium.Primitives.Address.{Address}
use arxium.Primitives.State.{SystemAccounts}
use arxium.Primitives.Params.{ChainParams, DisputeCause, total_voting_power}
use arxium.Primitives.Governance.{GovernanceAction, DisputeResolution}
use arxium.Primitives.Attestor.{Keys, validate_attestor_name, validate_attestor_multisig}
use arxium.Circuit.Identity.{IdentityError}
use arxium.Circuit.Governance.Types.{GovernanceError}

abbrev refuse : Bool → String → Result GovernanceError (Unit {0})
refuse bad why = reject_if bad (GovernanceError.invalid_params why)

-- At most 32 release ids, each of 1 to 64 bytes.
abbrev pub bad_builds : List String → Bool
bad_builds builds = ltb 32 (length builds) || any (λ b. len b == 0 || ltb 64 (len b)) builds

unfoldable pub validate_params : ChainParams → Result GovernanceError (Unit {0})
validate_params p = do
  refuse (p.block_interval_secs == 0) "block_interval_secs must be positive"
  refuse (p.epoch_length == 0) "epoch_length must be positive"
  refuse (p.min_validator_set == 0 || ltb p.max_validator_set p.min_validator_set)
      "need 0 < min_validator_set <= max_validator_set"
  refuse (bad_builds p.canonical_builds)
      "canonical_builds: at most 32 non-empty ids of at most 64 bytes"
  refuse (p.max_block_weight == 0) "max_block_weight must be positive"
  refuse (p.voting_period_blocks == 0) "voting_period_blocks must be positive"
  refuse (ltb total_voting_power p.proposal_quorum_bps) "proposal_quorum_bps is over 10_000"
  refuse (p.action_fee == 0) "action_fee must be positive"
  refuse (p.min_validator_stake == 0) "min_validator_stake must be positive"
  refuse (ltb 10_000 p.equivocation_slash_bps || ltb 10_000 p.downtime_slash_bps)
      "a slash rate is over 100%"
  refuse (ltb 10_000 (saturating_add u32_bound p.fee_proposer_bps p.fee_treasury_bps))
      "fee_proposer_bps + fee_treasury_bps is over 100%"
  refuse (p.challenge_window_blocks == 0 || leb p.unbonding_blocks p.challenge_window_blocks)
      "challenge_window_blocks must be positive and below unbonding_blocks"
  refuse (ltb 1_000 p.challenger_reward_bps) "challenger_reward_bps is over 10%"

-- `pubkey_bytes().map_err(InvalidAddress)?`
abbrev pub require_address : Keys → Address → Result GovernanceError (Unit {0})
require_address keys a = reject_if (not (keys.decodes a)) (GovernanceError.invalid_address a)

abbrev pub require_addresses : Keys → List (Address × ℕ) → Result GovernanceError (Unit {0})
require_addresses keys [] = ok tt
require_addresses keys ((who, balance) ∷ rest) =
    require_address keys who >> require_addresses keys rest

abbrev pub is_forked : DisputeResolution → Bool
is_forked DisputeResolution.forked = true
is_forked DisputeResolution.accept = false

abbrev pub is_attack : DisputeCause → Bool
is_attack DisputeCause.attack = true
is_attack DisputeCause.bug = false

abbrev pub no_rows {ℓ} : {A : Type ℓ} → List A → Bool
no_rows [] = true
no_rows (x ∷ xs) = false

unfoldable pub validate_action :
    Keys → SystemAccounts → GovernanceAction → Result GovernanceError (Unit {0})
validate_action keys system (GovernanceAction.set_chain_params params) = validate_params params
validate_action keys system
      (GovernanceAction.add_attestor attestor name owners threshold evidence_hash evidence_uri) =
    do
      map_err (λ why. GovernanceError.identity (IdentityError.invalid_name why))
          (validate_attestor_name name)
      map_err (λ why. GovernanceError.identity (IdentityError.invalid_multisig why))
          (validate_attestor_multisig keys attestor owners threshold)
      reject_if
          (len evidence_hash == 0
            || ltb 128 (len evidence_hash)
            || len evidence_uri == 0
            || ltb 512 (len evidence_uri))
          GovernanceError.invalid_evidence
validate_action keys system (GovernanceAction.remove_attestor attestor) =
    require_address keys attestor
validate_action keys system (GovernanceAction.unblock_attestor attestor) =
    require_address keys attestor
validate_action keys system (GovernanceAction.treasury_spend to amount) = do
  reject_if (amount == 0) GovernanceError.zero_spend
  reject_if (to == system.treasury) (GovernanceError.invalid_address to)
  require_address keys to
validate_action keys system (GovernanceAction.reinstate_validator validator) =
    require_address keys validator
validate_action keys system
      (GovernanceAction.resolve_dispute height header resolution corrections cause bounty) =
    do
      reject_if (is_forked resolution && not (no_rows corrections))
          GovernanceError.forked_with_corrections
      reject_if (is_attack cause && (not (no_rows corrections) || ltb 0 bounty))
          GovernanceError.attack_with_payouts
      require_addresses keys corrections
