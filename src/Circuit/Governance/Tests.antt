-- ===== src/Circuit/Governance/Tests.antt =====
-- Validator 1 has all the power, the treasury (99) holds 100, and proposal 0 is to spend 30 of it.
use mathlib.Core.Path.{subst}
use arxium.Prelude.{
  ℕ, ◌≤◌, ◌≡◌, ◌≢◌, ◌⊎◌, inl, inr, refl, Bool, true, false, none, some, [], ◌∷◌, arith, number_key,
  pair_key, ok, err, unwrap_or, ◌==◌, Bool-cases,
}
use arxium.Prelude.Map.{Map, get, insert, commit}
use arxium.Primitives.Params.{default_params}
use arxium.Primitives.Governance.{GovernanceAction, Proposal, ProposalStatus}
use arxium.Primitives.ValidatorSet.{epoch_of, validator_set_effective_height}
use arxium.Primitives.Action.{SignatureError}
use arxium.Primitives.Attestor.{Keys}
use arxium.Circuit.View.{View, Reads, read_account}
use arxium.Circuit.Ledger.{Accounts, supply}
use arxium.Circuit.Updates.{GovernanceUpdates, put_proposal, put_vote}
use arxium.Circuit.Sample.{view_of, holding, system}
use arxium.Circuit.Governance.Types.{
  GovernanceError, params_or_default, chain_params, voting_power, find_proposal,
}
use arxium.Circuit.Governance.Validate.{validate_params}
use arxium.Circuit.Governance.Vote.{tally_vote, apply_vote}
use arxium.Circuit.Governance.Execute.{
  Effects, nothing, spend, perform, close_removal, act, closed, apply_execute,
}
use arxium.Circuit.Governance.Rows.{Checked}
use arxium.Circuit.Governance.Chamber.{Chamber, vote_of, Sees, write_rows, Step, Run}
use arxium.Circuit.Governance.Once.{apply_vote-once, apply_execute-final}
use arxium.Circuit.Governance.Treasury.{apply_execute-mints_nothing}
use arxium.Circuit.Governance.SoundParams.{Sound}
use arxium.Circuit.Governance.Decisions.{Executes, Rejects, apply_execute-decides}
use arxium.Circuit.Governance.Runs.{Lawful, Run-params}

abbrev ledger : Accounts
ledger = (99, holding 100 0) ∷ []

abbrev keys : Keys
keys = record {
  decodes = λ a. true;
  single_key = λ a. some a;
  hashed_address = λ threshold members. err SignatureError.invalid;
}

abbrev proposal : Proposal
proposal = record {
  id = 0;
  proposer = 1;
  action = GovernanceAction.treasury_spend 5 30;
  description = "pay 5";
  created_at = 1;
  voting_ends_at = 10;
  yes_power = 0;
  no_power = 0;
  status = ProposalStatus.opened;
  bond = 0;
}

abbrev start : Chamber
start = record { proposals = (0, proposal) ∷ []; votes = []; next_id = some 1; params = none }

abbrev voted : Chamber
voted = record start {
  proposals = (0, tally_vote proposal true 10_000) ∷ [];
  votes = ((0, 1), true) ∷ [];
}

abbrev spent : Chamber
spent = record voted { proposals = (0, closed (tally_vote proposal true 10_000) true) ∷ [] }

abbrev view_of_chamber : Chamber → View
view_of_chamber chamber = record (view_of ledger) {
  proposal = λ id. ok (get id chamber.proposals);
  vote = λ id voter. ok (vote_of id voter chamber);
  next_proposal_id = ok chamber.next_id;
  params_row = ok chamber.params;
  validator_set = λ at. ok (some ((1, 10_000) ∷ []));
}

chamber-Sees : (chamber : Chamber) → Sees (view_of_chamber chamber) chamber
chamber-Sees chamber = record {
  proposal = λ id. refl;
  vote = λ id voter. refl;
  next_id = refl;
  params = refl;
}

ledger-Reads : (chamber : Chamber) → Reads (view_of_chamber chamber) ledger
ledger-Reads chamber = record { at = λ a. refl }

abbrev vote_rows : GovernanceUpdates
vote_rows = put_proposal 0 (tally_vote proposal true 10_000) ∷ put_vote 0 1 true ∷ []

abbrev spending : Effects
spending = record nothing {
  updates = put_proposal 0 (closed (tally_vote proposal true 10_000) true) ∷ [];
  accounts = (99, holding 70 0) ∷ (5, holding 30 0) ∷ [];
  done = true;
}

vote_runs : apply_vote (view_of_chamber start) 1 0 true 3 ≡ ok vote_rows
unfolding apply_vote voting_power find_proposal chain_params params_or_default unwrap_or get
    validator_set_effective_height epoch_of
vote_runs = refl

execute_runs : apply_execute keys system (view_of_chamber voted) 0 10 ≡ ok spending
unfolding apply_execute find_proposal chain_params params_or_default act perform spend read_account
    unwrap_or get close_removal insert
execute_runs = refl

abbrev one_step : Run keys system (write_rows vote_rows start) (write_rows spending.updates voted)
unfolding write_rows insert
one_step =
    Run.then_step Run.none_yet
      (Step.execute (view_of_chamber voted) 0 10 (chamber-Sees voted) execute_runs)

only :
    (j : ℕ) {row : Proposal} (p : Proposal) → get j ((0, p) ∷ []) ≡ some row → (0 ≡ j) × (p ≡ row)
unfolding get
only j p h = elim (Bool-cases (0 == j)) [
  | inl same ↦ (ground (arith, same), ground (arith, h, same))
  | inr other ↦ absurd (ground (arith, h, other))
]

default-Sound : validate_params default_params ≡ ok tt
unfolding validate_params
default-Sound = refl

-- Proposal 0 alone, with the default parameters.
alone-Lawful :
    (p : Proposal) (votes : Map (ℕ × ℕ) Bool)
    → Checked p.action
    → Lawful (record { proposals = (0, p) ∷ []; votes = votes; next_id = some 1; params = none })
unfolding params_or_default unwrap_or
alone-Lawful p votes checked = record {
  fresh = λ j row h. ground (arith, (only j p h).0);
  checked = λ j row h. subst (λ (q : Proposal). Checked q.action) (only j p h).1 checked;
  sane = default-Sound;
}

apply_vote-once_example :
    (vote_of 0 1 spent ≡ some true) × (apply_vote (view_of_chamber spent) 1 0 false 5 ≢ ok [])
unfolding write_rows insert
apply_vote-once_example =
    apply_vote-once keys system (view_of_chamber start) 1 0 true 3 vote_rows start spent
      (view_of_chamber spent) false 5 [] vote_runs one_step (chamber-Sees spent)

apply_execute-final_example :
    (get 0 spent.proposals ≡ get 0 spent.proposals)
    × (apply_execute keys system (view_of_chamber spent) 0 20 ≡ err (GovernanceError.not_open 0))
    × (apply_vote (view_of_chamber spent) 1 0 false 20 ≢ ok [])
unfolding write_rows insert
apply_execute-final_example =
    apply_execute-final keys system (view_of_chamber voted) 0 10 spending voted spent
      (view_of_chamber spent) 20 1 false []
      (alone-Lawful (tally_vote proposal true 10_000) voted.votes tt) (chamber-Sees voted)
      execute_runs Run.none_yet (chamber-Sees spent)

found_voted : find_proposal (view_of_chamber voted) 0 ≡ ok (tally_vote proposal true 10_000)
unfolding find_proposal get
found_voted = refl

governed_voted : chain_params (view_of_chamber voted) ≡ ok default_params
unfolding chain_params params_or_default
governed_voted = refl

other : proposal.proposer ≢ system.treasury
other h = omega (arith, h)

apply_execute-mints_nothing_example : supply (commit spending.accounts ledger) ≤ supply ledger
apply_execute-mints_nothing_example =
    apply_execute-mints_nothing system (view_of_chamber voted) ledger (ledger-Reads voted) keys 0 10
      (tally_vote proposal true 10_000) spending found_voted other refl execute_runs

apply_execute-decides_example :
    (10 ≤ 10)
    × (Executes keys system
          (view_of_chamber voted)
          0
          10
          (tally_vote proposal true 10_000)
          default_params
          spending
          voted
        ⊎ Rejects keys system
            (view_of_chamber voted)
            0
            10
            (tally_vote proposal true 10_000)
            default_params
            spending
            voted)
apply_execute-decides_example =
    apply_execute-decides keys system (view_of_chamber voted) 0 10 (tally_vote proposal true 10_000)
      default_params spending voted (chamber-Sees voted) found_voted governed_voted execute_runs

Run-params_example :
    Sound (params_or_default spent.params)
    × ((params_or_default spent.params).epoch_length
        ≡ (params_or_default voted.params).epoch_length)
unfolding write_rows insert
Run-params_example =
    Run-params keys system voted spent
      (alone-Lawful (tally_vote proposal true 10_000) voted.votes tt) one_step
