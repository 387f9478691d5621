-- ===== src/Circuit/Governance/Vote.antt =====
-- circuits/governance/src/lib.rs: `apply_vote`.
use arxium.Prelude.{
  ℕ, Bool, true, false, not, [], ◌∷◌, leb, if◌then◌else◌, Result, ok, map_err, reject_if, is_some,
  ◌>>=◌, ◌>>◌,
}
use arxium.Prelude.Word.{u32_bound, saturating_add}
use arxium.Primitives.Address.{Address}
use arxium.Primitives.Governance.{Proposal, ProposalStatus}
use arxium.Circuit.View.{View}
use arxium.Circuit.Updates.{GovernanceUpdates, put_proposal, put_vote}
use arxium.Circuit.Governance.Types.{GovernanceError, voting_power, find_proposal}

abbrev pub is_open : ProposalStatus → Bool
is_open ProposalStatus.opened = true
is_open ProposalStatus.executed = false
is_open ProposalStatus.rejected = false

abbrev pub tally_vote : Proposal → Bool → ℕ → Proposal
tally_vote proposal approve power =
    if approve
    then record proposal { yes_power = saturating_add u32_bound proposal.yes_power power }
    else record proposal { no_power = saturating_add u32_bound proposal.no_power power }

unfoldable pub apply_vote : View → Address → ℕ → Bool → ℕ → Result GovernanceError GovernanceUpdates
apply_vote view voter id approve height = do
  power ← voting_power view voter height
  proposal ← find_proposal view id
  reject_if (not (is_open proposal.status)) (GovernanceError.not_open id)
  reject_if (leb proposal.voting_ends_at height)
      (GovernanceError.voting_closed id proposal.voting_ends_at)
  earlier ← map_err GovernanceError.storage (view.vote id voter)
  reject_if (is_some earlier) (GovernanceError.already_voted id voter)
  ok (put_proposal id (tally_vote proposal approve power) ∷ put_vote id voter approve ∷ [])
