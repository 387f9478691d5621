-- ===== src/Circuit/Governance/Changes.antt =====
-- What one committed operation of governance changes: it opens a proposal, counts a vote, or closes a
-- proposal.
use Prim.Native.String.{◌++◌ as text_append}
use arxium.Prelude.{
  ℕ, ◌+◌, ◌≡◌, inl, inr, refl, ap, ◌∙◌, String, Bool, true, none, some, List, [], ◌∷◌, ◌++◌, arith,
  number_key, pair_key, ok, unwrap_or, Result-cases,
}
use arxium.Prelude.Map.{get, insert}
use arxium.Primitives.Address.{Address}
use arxium.Primitives.State.{SystemAccounts}
use arxium.Primitives.Governance.{GovernanceAction, Proposal}
use arxium.Primitives.Attestor.{Keys}
use arxium.Circuit.View.{View}
use arxium.Circuit.Ledger.{Accounts}
use arxium.Circuit.Updates.{GovernanceUpdates, put_proposal, put_next_proposal_id}
use arxium.Circuit.Governance.Types.{params_or_default}
use arxium.Circuit.Governance.Submit.{
  prepare, new_proposal, open_proposal, apply_submit, apply_attestor_application,
}
use arxium.Circuit.Governance.Vote.{is_open, tally_vote, apply_vote}
use arxium.Circuit.Governance.Execute.{Effects, closed}
use arxium.Circuit.Governance.Outcome.{Executed, apply_vote-Voted, apply_execute-Executed}
use arxium.Circuit.Governance.Chamber.{Chamber, vote_of, Sees, write_rows, write_rows-append, Step}
use arxium.Circuit.Governance.Rows.{
  Checked, params_after, KeepsEpoch, submit-Checked, write_opened, write_closed, chain_params-Sees,
  find_proposal-eq-ok, prepare-rows, close_removal-rows, act-rows,
}

pub data Change (before after : Chamber) : Type 0 where
  opened :
      (id : ℕ) (proposal : Proposal)
      → id ≡ unwrap_or before.next_id 0
      → is_open proposal.status ≡ true
      → Checked proposal.action
      → after
        ≡ record before { proposals = insert id proposal before.proposals; next_id = some (id + 1) }
      → Change before after
  voted :
      (id : ℕ) (proposal : Proposal) (voter : Address) (approve : Bool) (power : ℕ)
      → get id before.proposals ≡ some proposal
      → is_open proposal.status ≡ true
      → vote_of id voter before ≡ none
      → after ≡ record before {
        proposals = insert id (tally_vote proposal approve power) before.proposals;
        votes = insert {K = ℕ × Address} (id, voter) approve before.votes;
      }
      → Change before after
  ended :
      (id : ℕ) (proposal : Proposal) (done : Bool)
      → get id before.proposals ≡ some proposal
      → is_open proposal.status ≡ true
      → KeepsEpoch proposal.action done before.params
      → after ≡ record before {
        proposals = insert id (closed proposal done) before.proposals;
        params = params_after proposal.action done before.params;
      }
      → Change before after

module _ (view : View) (before : Chamber) (sees : Sees view before) where
  open_proposal-Change :
      (keys : Keys) (proposer : Address) (action : GovernanceAction) (description : String)
      (height bond id : ℕ) (rows : GovernanceUpdates)
      → Checked action
      → open_proposal keys view proposer action description height bond ≡ ok (id, rows)
      → Change before (write_rows rows before)
  unfolding open_proposal
  open_proposal-Change keys proposer action description height bond id rows checked h =
      let params = params_or_default before.params in
      elim (Result-cases (prepare keys view params action height)) [
        | inl (prepared, is) ↦
            (let proposal = new_proposal id proposer action description height prepared.1 bond in
              Change.opened id proposal
                (ground (arith, (chain_params-Sees view before sees), is, sees.next_id)) refl
                checked
                (ground (
                  arith,
                  (chain_params-Sees view before sees),
                  is,
                  sees.next_id,
                  write_rows-append prepared.0
                      (put_proposal id proposal ∷ put_next_proposal_id (id + 1) ∷ []) before,
                  write_opened id proposal (id + 1) (write_rows prepared.0 before),
                  prepare-rows view before sees keys params action height is,
                )))
        | inr (inl (e, is)) ↦ absurd (ground (arith, (chain_params-Sees view before sees), is))
        | inr (inr is) ↦ absurd (ground (arith, (chain_params-Sees view before sees), is))
      ]

  submit-Change :
      (keys : Keys) (system : SystemAccounts) (proposer : Address) (action : GovernanceAction)
      (description : String) (height : ℕ) (id : ℕ) (rows : GovernanceUpdates)
      → apply_submit keys system view proposer action description height ≡ ok (id, rows)
      → Change before (write_rows rows before)
  unfolding apply_submit
  submit-Change keys system proposer action description height id rows h =
      open_proposal-Change keys proposer action description height 0 id rows
        (submit-Checked keys system view proposer action description height h) (ground arith)

  application-Change :
      (keys : Keys) (system : SystemAccounts) (applicant : Address) (name : String)
      (owners : List Address) (threshold : ℕ) (hash uri : String) (height id : ℕ)
      (rows : GovernanceUpdates) {accounts : Accounts}
      → apply_attestor_application keys system view applicant name owners threshold hash uri height
        ≡ ok (id, rows, accounts)
      → Change before (write_rows rows before)
  unfolding apply_attestor_application
  application-Change keys system applicant name owners threshold hash uri height id rows h =
      open_proposal-Change keys applicant
        (GovernanceAction.add_attestor applicant name owners threshold hash uri)
        (text_append "Attestor application: " name) height
        (params_or_default before.params).attestor_apply_bond id rows tt
        (ground (arith, (chain_params-Sees view before sees)))

  vote-Change :
      (voter : Address) (id : ℕ) (approve : Bool) (height : ℕ) (rows : GovernanceUpdates)
      → apply_vote view voter id approve height ≡ ok rows
      → Change before (write_rows rows before)
  unfolding write_rows
  vote-Change voter id approve height rows h =
      let v = apply_vote-Voted view voter id approve height rows h in
      Change.voted id v.proposal voter approve v.power
        (find_proposal-eq-ok view before sees id v.found) v.open_still
        (ground (arith, v.unvoted, sees.vote id voter)) (ap (λ r. write_rows r before) v.written)

  pub execution_rows :
      (keys : Keys) (system : SystemAccounts) (id height : ℕ) (effects : Effects)
      (e : Executed keys system view id height effects)
      → write_rows effects.updates before ≡ record before {
        proposals = insert id (closed e.proposal e.acted.done) before.proposals;
        params = params_after e.proposal.action e.acted.done before.params;
      }
  execution_rows keys system id height effects e =
      let last = put_proposal id (closed e.proposal e.acted.done) ∷ [] in
      let middle = write_rows e.acted.updates before in
      ap (λ (x : Effects). write_rows x.updates before) e.written
      ∙ write_rows-append (e.acted.updates ++ e.cooling) last before
      ∙ ap (write_rows last) (
          write_rows-append e.acted.updates e.cooling before
          ∙ close_removal-rows view before sees height e.acted.done e.proposal.action middle
              e.cooling_off)
      ∙ write_closed id (closed e.proposal e.acted.done) middle
      ∙ ap
          (λ (c : Chamber). record c {
            proposals = insert id (closed e.proposal e.acted.done) c.proposals;
          })
          (act-rows view before sees keys system e.proposal e.params height {effects = e.acted}
            e.performed).0

  execute-Change :
      (keys : Keys) (system : SystemAccounts) (id height : ℕ) (effects : Effects)
      → Executed keys system view id height effects
      → Change before (write_rows effects.updates before)
  execute-Change keys system id height effects e =
      Change.ended id e.proposal e.acted.done (find_proposal-eq-ok view before sees id e.found)
        e.open_still
        (act-rows view before sees keys system e.proposal e.params height {effects = e.acted}
          e.performed).1
        (execution_rows keys system id height effects e)

-- Every operation that is committed is one of the three changes.
pub Step-Change :
    {keys : Keys} {system : SystemAccounts} {before after : Chamber}
    → Step keys system before after
    → Change before after
Step-Change {keys = keys} {system = system} {before = before}
      (Step.submit view proposer action description height {id = id} {rows = rows} sees h) =
    submit-Change view before sees keys system proposer action description height id rows h
Step-Change {keys = keys} {system = system} {before = before}
      (Step.application view applicant name owners threshold hash uri height {id = id} {rows = rows}
        sees h) =
    application-Change view before sees keys system applicant name owners threshold hash uri height
      id rows h
Step-Change {before = before} (Step.vote view voter id approve height {rows = rows} sees h) =
    vote-Change view before sees voter id approve height rows h
Step-Change {keys = keys} {system = system} {before = before}
      (Step.execute view id height {effects = effects} sees h) =
    execute-Change view before sees keys system id height effects
      (apply_execute-Executed keys system view id height effects h)
