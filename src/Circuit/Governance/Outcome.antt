-- ===== src/Circuit/Governance/Outcome.antt =====
-- What a successful vote or execution has checked, and what it writes.
use arxium.Prelude.{
  ℕ, ◌<◌, ◌≤◌, ◌≡◌, none, inl, inr, Bool, true, [], ◌∷◌, ◌++◌, arith, ok, Result-cases,
}
use arxium.Primitives.Address.{Address}
use arxium.Primitives.State.{SystemAccounts}
use arxium.Primitives.Params.{ChainParams}
use arxium.Primitives.Governance.{Proposal}
use arxium.Primitives.Attestor.{Keys}
use arxium.Circuit.View.{View}
use arxium.Circuit.Updates.{GovernanceUpdates, put_proposal, put_vote}
use arxium.Circuit.Governance.Types.{chain_params, find_proposal, voting_power}
use arxium.Circuit.Governance.Vote.{is_open, tally_vote, apply_vote}
use arxium.Circuit.Governance.Execute.{Effects, act, close_removal, closed, apply_execute}

-- The parts of an execution that succeeded.
pub record Executed (keys : Keys) (system : SystemAccounts) (view : View) (id height : ℕ)
    (effects : Effects) : Type 0 where
  pub proposal : Proposal
  pub params : ChainParams
  pub acted : Effects
  pub cooling : GovernanceUpdates
  pub found : find_proposal view id ≡ ok proposal
  pub governed : chain_params view ≡ ok params
  pub open_still : is_open proposal.status ≡ true
  pub due : proposal.voting_ends_at ≤ height
  pub performed : act keys system view proposal params height ≡ ok acted
  pub cooling_off : close_removal view height acted.done proposal.action ≡ ok cooling
  pub written : effects ≡ record acted {
    updates = acted.updates ++ cooling ++ put_proposal id (closed proposal acted.done) ∷ [];
  }

pub apply_execute-Executed :
    (keys : Keys) (system : SystemAccounts) (view : View) (id height : ℕ) (effects : Effects)
    → apply_execute keys system view id height ≡ ok effects
    → Executed keys system view id height effects
unfolding apply_execute
apply_execute-Executed keys system view id height effects h =
    elim (Result-cases (find_proposal view id)) [
      | inr (inl (e, is)) ↦ absurd (ground (arith, is))
      | inr (inr is) ↦ absurd (ground (arith, is))
      | inl (proposal, found) ↦ elim (Result-cases (chain_params view)) [
        | inr (inl (e, is)) ↦ absurd (ground (arith, found, is))
        | inr (inr is) ↦ absurd (ground (arith, found, is))
        | inl (params, governed) ↦
            elim (Result-cases (act keys system view proposal params height)) [
              | inr (inl (e, is)) ↦ absurd (ground (arith, found, governed, is))
              | inr (inr is) ↦ absurd (ground (arith, found, governed, is))
              | inl (acted, performed) ↦
                  elim (Result-cases (close_removal view height acted.done proposal.action)) [
                    | inr (inl (e, is)) ↦ absurd (ground (arith, found, governed, performed, is))
                    | inr (inr is) ↦ absurd (ground (arith, found, governed, performed, is))
                    | inl (cooling, cooled) ↦ record {
                      proposal = proposal;
                      params = params;
                      acted = acted;
                      cooling = cooling;
                      found = found;
                      governed = governed;
                      open_still = ground (arith, found, governed, performed, cooled);
                      due = ground (arith, found, governed, performed, cooled);
                      performed = performed;
                      cooling_off = cooled;
                      written = ground (arith, found, governed, performed, cooled);
                    }
                  ]
            ]
      ]
    ]

pub record Voted (view : View) (voter : Address) (id : ℕ) (approve : Bool) (height : ℕ)
    (rows : GovernanceUpdates) : Type 0 where
  pub power : ℕ
  pub proposal : Proposal
  pub weighed : voting_power view voter height ≡ ok power
  pub found : find_proposal view id ≡ ok proposal
  pub open_still : is_open proposal.status ≡ true
  pub early : height < proposal.voting_ends_at
  pub unvoted : view.vote id voter ≡ ok none
  pub written :
      rows ≡ put_proposal id (tally_vote proposal approve power) ∷ put_vote id voter approve ∷ []

pub apply_vote-Voted :
    (view : View) (voter : Address) (id : ℕ) (approve : Bool) (height : ℕ)
    (rows : GovernanceUpdates)
    → apply_vote view voter id approve height ≡ ok rows
    → Voted view voter id approve height rows
unfolding apply_vote
apply_vote-Voted view voter id approve height rows h =
    elim (Result-cases (voting_power view voter height)) [
      | inr (inl (e, is)) ↦ absurd (ground (arith, is))
      | inr (inr is) ↦ absurd (ground (arith, is))
      | inl (power, weighed) ↦ elim (Result-cases (find_proposal view id)) [
        | inr (inl (e, is)) ↦ absurd (ground (arith, weighed, is))
        | inr (inr is) ↦ absurd (ground (arith, weighed, is))
        | inl (proposal, found) ↦ elim (Result-cases (view.vote id voter)) [
          | inr (inl (e, is)) ↦ absurd (ground (arith, weighed, found, is))
          | inr (inr is) ↦ absurd (ground (arith, weighed, found, is))
          | inl (earlier, read) ↦ record {
            power = power;
            proposal = proposal;
            weighed = weighed;
            found = found;
            open_still = ground (arith, weighed, found, read);
            early = ground (arith, weighed, found, read);
            unvoted = ground (arith, weighed, found, read);
            written = ground (arith, weighed, found, read);
          }
        ]
      ]
    ]
