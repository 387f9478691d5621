-- ===== src/Circuit/Governance/Decisions.antt =====
-- What decides a proposal.
use mathlib.Core.List.{append-nil}
use arxium.Prelude.{
  ℕ, ◌≤◌, ◌<◌, ◌≡◌, ◌⊎◌, inl, inr, true, false, none, [], arith, number_key, ok, Bool-cases, ◌≢◌,
  ap, ◌∙◌, some, ◌∷◌, ◌++◌,
}
use arxium.Primitives.State.{SystemAccounts}
use arxium.Primitives.Params.{ChainParams}
use arxium.Primitives.Governance.{GovernanceAction, Proposal, ProposalStatus}
use arxium.Primitives.Attestor.{Keys}
use arxium.Circuit.View.{View}
use arxium.Circuit.Governance.Types.{chain_params, find_proposal}
use arxium.Circuit.Governance.Execute.{
  Effects, nothing, set_params, spend, resolve_open, resolve, reinstate, register, perform, passes,
  act, apply_execute, close_removal, closed,
}
use arxium.Prelude.Map.{get, insert, get-insert_self}
use arxium.Circuit.Updates.{GovernanceUpdates, put_proposal}
use arxium.Circuit.Identity.{apply_set_self_blocked}
use arxium.Circuit.Governance.Chamber.{Chamber, Sees, write_rows}
use arxium.Circuit.Governance.Changes.{execution_rows}
use arxium.Circuit.Governance.Outcome.{apply_execute-Executed}

-- An action that is not done leaves nothing behind.
perform-not_done :
    (keys : Keys) (system : SystemAccounts) (view : View) (proposal : Proposal) (height : ℕ)
    (action : GovernanceAction) {effects : Effects}
    → perform keys system view proposal height action ≡ ok effects
    → effects.done ≡ false
    → effects ≡ nothing
unfolding perform set_params spend resolve resolve_open reinstate register
perform-not_done keys system view proposal height (GovernanceAction.set_chain_params p) h quiet =
    ground (arith)
perform-not_done keys system view proposal height (GovernanceAction.treasury_spend to amount) h
      quiet =
    ground (arith)
perform-not_done keys system view proposal height
      (GovernanceAction.resolve_dispute at header r cs cause bounty) h quiet =
    ground (arith)
perform-not_done keys system view proposal height (GovernanceAction.reinstate_validator v) h quiet =
    ground (arith)
perform-not_done keys system view proposal height (GovernanceAction.add_attestor a n os t hash uri)
      h quiet =
    ground (arith)
perform-not_done keys system view proposal height (GovernanceAction.remove_attestor a) h quiet =
    ground (arith)
perform-not_done keys system view proposal height (GovernanceAction.unblock_attestor a) h quiet =
    ground (arith)

pub Writes : Effects → Type 0
Writes effects =
    (effects.updates ≢ [])
    ⊎ (effects.accounts ≢ [])
    ⊎ (effects.registration ≢ none)
    ⊎ (effects.deregistration ≢ none)

-- An action that is done writes a row or an account, or says which attestor it added or removed.
perform-done :
    (keys : Keys) (system : SystemAccounts) (view : View) (proposal : Proposal) (height : ℕ)
    (action : GovernanceAction) {effects : Effects}
    → perform keys system view proposal height action ≡ ok effects
    → effects.done ≡ true
    → Writes effects
unfolding Writes perform set_params spend resolve resolve_open reinstate register
    apply_set_self_blocked insert
perform-done keys system view proposal height (GovernanceAction.set_chain_params p) h done =
    ground arith
perform-done keys system view proposal height (GovernanceAction.treasury_spend to amount) h done =
    ground arith
perform-done keys system view proposal height
      (GovernanceAction.resolve_dispute at header r cs cause bounty) h done =
    ground arith
perform-done keys system view proposal height (GovernanceAction.reinstate_validator v) h done =
    ground arith
perform-done keys system view proposal height (GovernanceAction.add_attestor a n os t hash uri) h
      done =
    ground arith
perform-done keys system view proposal height (GovernanceAction.remove_attestor a) h done =
    ground arith
perform-done keys system view proposal height (GovernanceAction.unblock_attestor a) h done =
    ground arith

close_removal-done :
    (view : View) (height : ℕ) (action : GovernanceAction) (rows : GovernanceUpdates)
    → close_removal view height true action ≡ ok rows
    → rows ≡ []
unfolding close_removal
close_removal-done view height (GovernanceAction.set_chain_params p) rows h = ground (arith, h)
close_removal-done view height (GovernanceAction.treasury_spend to amount) rows h =
    ground (arith, h)
close_removal-done view height (GovernanceAction.resolve_dispute at header r cs cause bounty) rows
      h =
    ground (arith, h)
close_removal-done view height (GovernanceAction.reinstate_validator v) rows h = ground (arith, h)
close_removal-done view height (GovernanceAction.add_attestor a n os t hash uri) rows h =
    ground (arith, h)
close_removal-done view height (GovernanceAction.remove_attestor a) rows h = ground (arith, h)
close_removal-done view height (GovernanceAction.unblock_attestor a) rows h = ground (arith, h)

module _ (keys : Keys) (system : SystemAccounts) (view : View) (id height : ℕ) (proposal : Proposal)
    (params : ChainParams) (effects : Effects) (before : Chamber) where
  -- The votes carried the proposal and its action was performed: the committed row says `Executed`,
  -- and all that is written besides it is what the action wrote.
  pub record Executes : Type 0 where
    pub majority : proposal.no_power < proposal.yes_power
    pub quorate : params.proposal_quorum_bps ≤ proposal.yes_power
    pub acted : Effects
    pub performed : perform keys system view proposal height proposal.action ≡ ok acted
    pub wrote : Writes acted
    pub row :
        get id (write_rows effects.updates before).proposals
        ≡ some (record proposal { status = ProposalStatus.executed })
    pub rows :
        effects.updates
        ≡ acted.updates
          ++ put_proposal id (record proposal { status = ProposalStatus.executed }) ∷ []
    pub accounts : effects.accounts ≡ acted.accounts
    pub slash : effects.slash ≡ acted.slash
    pub registration : effects.registration ≡ acted.registration
    pub deregistration : effects.deregistration ≡ acted.deregistration

  -- The votes did not carry the proposal, or its action could not be performed: the committed row
  -- says `Rejected`, and nothing is written besides it but the end of a removal vote.
  pub record Rejects : Type 0 where
    pub because :
        (proposal.yes_power ≤ proposal.no_power)
        ⊎ (proposal.yes_power < params.proposal_quorum_bps)
        ⊎ (perform keys system view proposal height proposal.action ≡ ok nothing)
    pub row :
        get id (write_rows effects.updates before).proposals
        ≡ some (record proposal { status = ProposalStatus.rejected })
    pub lifted : GovernanceUpdates
    pub lifting : close_removal view height false proposal.action ≡ ok lifted
    pub rows :
        effects.updates
        ≡ lifted ++ put_proposal id (record proposal { status = ProposalStatus.rejected }) ∷ []
    pub accounts : effects.accounts ≡ []
    pub slash : effects.slash ≡ none
    pub registration : effects.registration ≡ none
    pub deregistration : effects.deregistration ≡ none

  -- A proposal is executed only when its voting has ended. Its committed row then says `Executed` if
  -- there is more power for it than against it, at least the quorum is for it, and its action was
  -- performed; what is written besides the row is then what the action wrote, which is something. In
  -- every other case, that is without the majority, without the quorum, or where the action had no
  -- effect, the row says `Rejected`; then no account is changed, nobody is slashed, no attestor is
  -- registered or removed, and no other row is written but those that end a removal vote. The rows
  -- before it are those that the execution saw.
  pub apply_execute-decides :
      Sees view before
      → find_proposal view id ≡ ok proposal
      → chain_params view ≡ ok params
      → apply_execute keys system view id height ≡ ok effects
      → (proposal.voting_ends_at ≤ height) × (Executes ⊎ Rejects)
  unfolding act
  apply_execute-decides sees found governed h =
      let e = apply_execute-Executed keys system view id height effects h in
      let same : e.proposal ≡ proposal = ground (arith, e.found, found) in
      let ruled : e.params ≡ params = ground (arith, e.governed, governed) in
      let committed =
        ap (λ (c : Chamber). get id c.proposals)
          (execution_rows view before sees keys system id height effects e)
        ∙ get-insert_self id (closed e.proposal e.acted.done) before.proposals in
      (
        ground (arith, e.due, same),
        elim (Bool-cases (passes e.proposal e.params.proposal_quorum_bps)) [
          | inr failed ↦ inr (record {
            because = ground (arith, failed, same, ruled);
            row = ground (arith, committed, same, e.performed, failed);
            lifted = e.cooling;
            lifting = ground (arith, e.cooling_off, same, e.performed, failed);
            rows = ground (arith, e.written, same, e.performed, failed);
            accounts = ground (arith, e.written, e.performed, failed);
            slash = ground (arith, e.written, e.performed, failed);
            registration = ground (arith, e.written, e.performed, failed);
            deregistration = ground (arith, e.written, e.performed, failed);
          })
          | inl passed ↦
              (let acts : perform keys system view e.proposal height e.proposal.action
                    ≡ ok e.acted =
                  ground (arith, e.performed, passed) in
                elim (Bool-cases e.acted.done) [
                  | inl done ↦
                      (let no_more : e.cooling ≡ [] =
                          close_removal-done view height e.proposal.action e.cooling
                            (ground (arith, e.cooling_off, done)) in
                        let row_now : closed e.proposal e.acted.done
                            ≡ record proposal { status = ProposalStatus.executed } =
                          ground (arith, same, done) in
                        let last = put_proposal id (closed e.proposal e.acted.done) ∷ [] in
                        inl (record {
                          majority = ground (arith, passed, same);
                          quorate = ground (arith, passed, same, ruled);
                          acted = e.acted;
                          performed = ground (arith, acts, same);
                          wrote =
                              perform-done keys system view e.proposal height e.proposal.action acts
                                done;
                          row = ground (arith, committed, same, done);
                          rows =
                              ap (λ (x : Effects). x.updates) e.written
                              ∙ ap (λ rs. e.acted.updates ++ rs ++ last) no_more
                              ∙ ap (λ rs. rs ++ last) (append-nil e.acted.updates)
                              ∙ ap (λ p. e.acted.updates ++ put_proposal id p ∷ []) row_now;
                          accounts = ground (arith, e.written);
                          slash = ground (arith, e.written);
                          registration = ground (arith, e.written);
                          deregistration = ground (arith, e.written);
                        }))
                  | inr quiet ↦
                      (let idle : e.acted ≡ nothing =
                          perform-not_done keys system view e.proposal height e.proposal.action acts
                            quiet in
                        inr (record {
                          because = inr (inr (ground (arith, acts, idle, same)));
                          row = ground (arith, committed, same, quiet);
                          lifted = e.cooling;
                          lifting = ground (arith, e.cooling_off, same, quiet);
                          rows = ground (arith, e.written, same, idle);
                          accounts = ground (arith, e.written, idle);
                          slash = ground (arith, e.written, idle);
                          registration = ground (arith, e.written, idle);
                          deregistration = ground (arith, e.written, idle);
                        }))
                ])
        ],
      )
