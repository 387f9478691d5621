-- ===== src/Primitives/Params.antt =====
-- core/primitives/src/validator_set.rs: the chain's parameters and a validator's standing.
use arxium.Prelude.{
  ℕ, ◌*◌, String, Bool, true, false, not, ◌||◌, Option, none, some, List, [], ◌∷◌, leb, ltb, ◌==◌,
  string_key, any, if◌then◌else◌,
}

abbrev pub VotingPower : Type 0
VotingPower = ℕ

abbrev pub total_voting_power : ℕ
total_voting_power = 10_000

abbrev pub quorum_power : ℕ
quorum_power = 6_667

pub record ChainParams : Type 0 where
  pub block_interval_secs : ℕ
  pub epoch_length : ℕ
  pub validator_attestation_required : Bool
  pub min_validator_set : ℕ
  pub max_validator_set : ℕ
  pub max_block_weight : ℕ
  pub reward_per_block : ℕ
  pub unbonding_blocks : ℕ
  pub voting_period_blocks : ℕ
  pub proposal_quorum_bps : ℕ
  pub action_fee : ℕ
  pub weight_fee : ℕ
  pub min_validator_stake : ℕ
  pub equivocation_slash_bps : ℕ
  pub downtime_slash_bps : ℕ
  pub fee_proposer_bps : ℕ
  pub fee_treasury_bps : ℕ
  pub challenge_window_blocks : ℕ
  pub challenger_reward_bps : ℕ
  pub token_create_fee : ℕ
  pub account_extensions_enabled : Bool
  pub attestor_apply_bond : ℕ
  pub attestor_removal_voting_blocks : ℕ
  pub attestor_removal_cooldown_blocks : ℕ
  pub canonical_builds : List String

-- `ChainParams::default()`
abbrev pub default_params : ChainParams
default_params = record {
  block_interval_secs = 2;
  epoch_length = 1_800;
  validator_attestation_required = false;
  min_validator_set = 4;
  max_validator_set = 100;
  max_block_weight = 1_000_000;
  reward_per_block = 4_300_000_000;
  unbonding_blocks = 604_800;
  voting_period_blocks = 302_400;
  proposal_quorum_bps = 5_000;
  action_fee = 1_000_000;
  weight_fee = 10_000;
  min_validator_stake = 100_000 * 1_000_000_000;
  equivocation_slash_bps = 10_000;
  downtime_slash_bps = 1;
  fee_proposer_bps = 3_000;
  fee_treasury_bps = 2_000;
  challenge_window_blocks = 21_600;
  challenger_reward_bps = 500;
  token_create_fee = 100 * 1_000_000_000;
  account_extensions_enabled = false;
  attestor_apply_bond = 100 * 1_000_000_000;
  attestor_removal_voting_blocks = 43_200;
  attestor_removal_cooldown_blocks = 129_600;
  canonical_builds = [];
}

pub data DisputeCause : Type 0 where
  bug attack : DisputeCause

-- `slice::last`
abbrev last {ℓ} : {A : Type ℓ} → List A → Option A
last [] = none
last (x ∷ []) = some x
last (x ∷ y ∷ xs) = last (y ∷ xs)

-- `ChainParams::classify_build`: the current build, and a build that is not listed, is an attack.
unfoldable pub classify_build : ChainParams → String → DisputeCause
classify_build params build_id = elim (last params.canonical_builds) [
  | none ↦ DisputeCause.bug
  | some current ↦
      if build_id == current || not (any (λ b. b == build_id) params.canonical_builds)
      then DisputeCause.attack
      else DisputeCause.bug
]

pub data ValidatorStatus : Type 0 where
  active : ValidatorStatus
  pending : ValidatorStatus
  jailed : ℕ → ValidatorStatus
  leaving : ℕ → ValidatorStatus
  tombstoned : ValidatorStatus

-- May a validator of this standing be in the set that starts at `next_epoch`?
unfoldable pub eligible_for : ValidatorStatus → ℕ → Bool
eligible_for ValidatorStatus.active next_epoch = true
eligible_for ValidatorStatus.pending next_epoch = true
eligible_for (ValidatorStatus.jailed until_epoch) next_epoch = leb until_epoch next_epoch
eligible_for (ValidatorStatus.leaving from_epoch) next_epoch = ltb next_epoch from_epoch
eligible_for ValidatorStatus.tombstoned next_epoch = false
