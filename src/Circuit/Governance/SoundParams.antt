-- ===== src/Circuit/Governance/SoundParams.antt =====
-- Which parameters may be proposed: `validate_params` of circuits/governance/src/lib.rs.
use Prim.Native.String.{len}
use arxium.Prelude.{
  ◌+◌, ◌≤◌, ◌<◌, ◌≡◌, ◌↔◌, false, ◌||◌, arith, ltb, ◌==◌, number_key, any, length, ok,
}
use arxium.Primitives.Params.{ChainParams, total_voting_power}
use arxium.Circuit.Governance.Validate.{validate_params}

-- What the checks of proposed parameters ask for.
pub record Sound (p : ChainParams) : Type 0 where
  pub interval : 1 ≤ p.block_interval_secs
  pub epoch : 1 ≤ p.epoch_length
  pub set_least : 1 ≤ p.min_validator_set
  pub set_order : p.min_validator_set ≤ p.max_validator_set
  pub few_builds : length p.canonical_builds ≤ 32
  pub named_builds : any (λ b. len b == 0 || ltb 64 (len b)) p.canonical_builds ≡ false
  pub weight : 1 ≤ p.max_block_weight
  pub voting : 1 ≤ p.voting_period_blocks
  pub quorum : p.proposal_quorum_bps ≤ total_voting_power
  pub fee : 1 ≤ p.action_fee
  pub stake : 1 ≤ p.min_validator_stake
  pub slash_double : p.equivocation_slash_bps ≤ 10_000
  pub slash_down : p.downtime_slash_bps ≤ 10_000
  pub split : p.fee_proposer_bps + p.fee_treasury_bps ≤ 10_000
  pub window : 1 ≤ p.challenge_window_blocks
  pub unbonding : p.challenge_window_blocks < p.unbonding_blocks
  pub reward : p.challenger_reward_bps ≤ 1_000

-- The checks of proposed parameters pass exactly on the parameters that are sound.
pub validate_params-Sound : (p : ChainParams) → (validate_params p ≡ ok tt) ↔ Sound p
unfolding validate_params
validate_params-Sound p = (
  λ h. record {
    interval = ground (arith, h);
    epoch = ground (arith, h);
    set_least = ground (arith, h);
    set_order = ground (arith, h);
    few_builds = ground (arith, h);
    named_builds = ground (arith, h);
    weight = ground (arith, h);
    voting = ground (arith, h);
    quorum = ground (arith, h);
    fee = ground (arith, h);
    stake = ground (arith, h);
    slash_double = ground (arith, h);
    slash_down = ground (arith, h);
    split = ground (arith, h);
    window = ground (arith, h);
    unbonding = ground (arith, h);
    reward = ground (arith, h);
  },
  λ s. ground (
    arith, s.interval, s.epoch, s.set_least, s.set_order, s.few_builds, s.named_builds, s.weight,
    s.voting, s.quorum, s.fee, s.stake, s.slash_double, s.slash_down, s.split, s.window,
    s.unbonding, s.reward,
  ),
)
