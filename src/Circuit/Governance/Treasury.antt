-- ===== src/Circuit/Governance/Treasury.antt =====
-- What an execution does to the coins.
use arxium.Prelude.{
  ℕ, ◌+◌, ◌-◌, ◌≤◌, ◌≡◌, ◌≢◌, inl, inr, min, String, none, some, List, [], arith, number_key, ok,
  Result-cases, Bool-cases,
}
use arxium.Prelude.Map.{commit, commit-nil}
use arxium.Primitives.Address.{Address}
use arxium.Primitives.State.{AccountEntry, SystemAccounts}
use arxium.Primitives.Params.{DisputeCause}
use arxium.Primitives.Governance.{GovernanceAction, Proposal}
use arxium.Primitives.Attestor.{Keys}
use arxium.Circuit.View.{View, OpenDispute, Reads, entry_in, read_account, read_account-entry_in}
use arxium.Circuit.Ledger.{Accounts, supply, supply-two}
use arxium.Circuit.Governance.Types.{GovernanceError, find_proposal}
use arxium.Circuit.Governance.Execute.{
  Effects, pay, gaining, refund_bond, set_params, spend, pay_bounty, correct, resolve_open, resolve,
  reinstate, register, perform, passes, act, apply_execute,
}
use arxium.Circuit.Governance.Outcome.{apply_execute-Executed}

-- The balances that an action sets by hand.
abbrev pub corrections_of : GovernanceAction → List (Address × ℕ)
corrections_of (GovernanceAction.resolve_dispute at header r corrections cause bounty) = corrections
corrections_of _ = []

module _ (system : SystemAccounts) (view : View) (accounts : Accounts)
    (reads : Reads view accounts) where
  MintsNothing : Accounts → Type 0
  MintsNothing updates = supply (commit updates accounts) ≤ supply accounts

  nil-MintsNothing : MintsNothing []
  unfolding MintsNothing
  nil-MintsNothing = ground (arith, commit-nil {V = AccountEntry} accounts)

  pay-MintsNothing :
      (payer dest : Address) (rest amount : ℕ)
      → payer ≢ dest
      → rest + amount ≤ (entry_in accounts payer).balance
      → MintsNothing
          (pay payer (entry_in accounts payer) rest dest (gaining (entry_in accounts dest) amount))
  unfolding MintsNothing
  pay-MintsNothing payer dest rest amount ne paid = ground (
    arith,
    supply-two payer dest (record (entry_in accounts payer) { balance = rest })
        (gaining (entry_in accounts dest) amount) accounts ne,
    paid,
  )

  read : (a : Address) → read_account GovernanceError.storage view a ≡ ok (entry_in accounts a)
  read a = read_account-entry_in GovernanceError.storage view accounts a reads

  spend-MintsNothing :
      (to : Address) (amount : ℕ) {effects : Effects}
      → spend system view to amount ≡ ok effects
      → MintsNothing effects.accounts
  unfolding spend
  spend-MintsNothing to amount h = ground (
    arith,
    read system.treasury,
    read to,
    nil-MintsNothing,
    pay-MintsNothing system.treasury to ((entry_in accounts system.treasury).balance - amount)
        amount,
  )

  refund_bond-MintsNothing :
      (proposal : Proposal) {updates : Accounts}
      → proposal.proposer ≢ system.treasury
      → refund_bond system view proposal ≡ ok updates
      → MintsNothing updates
  unfolding refund_bond
  refund_bond-MintsNothing proposal other h = ground (
    arith,
    read system.treasury,
    read proposal.proposer,
    nil-MintsNothing,
    pay-MintsNothing system.treasury proposal.proposer
        ((entry_in accounts system.treasury).balance
          - min proposal.bond (entry_in accounts system.treasury).balance)
        (min proposal.bond (entry_in accounts system.treasury).balance),
  )

  pay_bounty-MintsNothing :
      (challenger : Address) (bounty : ℕ) {updates : Accounts}
      → pay_bounty system view challenger bounty ≡ ok (some updates)
      → MintsNothing updates
  unfolding pay_bounty
  pay_bounty-MintsNothing challenger bounty h = ground (
    arith,
    read system.treasury,
    read challenger,
    nil-MintsNothing,
    pay-MintsNothing system.treasury challenger
        ((entry_in accounts system.treasury).balance - bounty) bounty,
  )

  resolve_open-MintsNothing :
      (height header : ℕ) (cause : DisputeCause) (bounty : ℕ) (dispute : OpenDispute)
      {effects : Effects}
      → resolve_open system view height header [] cause bounty dispute ≡ ok effects
      → MintsNothing effects.accounts
  unfolding resolve_open correct
  resolve_open-MintsNothing height header cause bounty dispute h =
      elim (Result-cases (pay_bounty system view dispute.challenger bounty)) [
        | inl (none, is) ↦ ground (arith, is, nil-MintsNothing)
        | inl (some paid, is) ↦ ground (
          arith,
          is,
          nil-MintsNothing,
          pay_bounty-MintsNothing dispute.challenger bounty {updates = paid} is,
        )
        | inr (inl (e, is)) ↦ ground (arith, is, nil-MintsNothing)
        | inr (inr is) ↦ ground (arith, is, nil-MintsNothing)
      ]

  register-MintsNothing :
      (keys : Keys) (proposal : Proposal) (attestor : Address) (name : String)
      (owners : List Address) (threshold height : ℕ) {effects : Effects}
      → proposal.proposer ≢ system.treasury
      → register keys system view proposal attestor name owners threshold height ≡ ok effects
      → MintsNothing effects.accounts
  unfolding register
  register-MintsNothing keys proposal attestor name owners threshold height other h =
      elim (Result-cases (refund_bond system view proposal)) [
        | inl (paid, is) ↦ ground (
          arith,
          is,
          nil-MintsNothing,
          refund_bond-MintsNothing proposal {updates = paid} other is,
        )
        | inr (inl (e, is)) ↦ ground (arith, is, nil-MintsNothing)
        | inr (inr is) ↦ ground (arith, is, nil-MintsNothing)
      ]

  perform-MintsNothing :
      (keys : Keys) (proposal : Proposal) (height : ℕ) (action : GovernanceAction)
      {effects : Effects}
      → proposal.proposer ≢ system.treasury
      → corrections_of action ≡ []
      → perform keys system view proposal height action ≡ ok effects
      → MintsNothing effects.accounts
  unfolding perform set_params reinstate resolve
  perform-MintsNothing keys proposal height (GovernanceAction.set_chain_params p) other plain h =
      ground (arith, nil-MintsNothing)
  perform-MintsNothing keys proposal height (GovernanceAction.treasury_spend to amount)
        {effects = effects} other plain h =
      spend-MintsNothing to amount {effects = effects} h
  perform-MintsNothing keys proposal height
        (GovernanceAction.resolve_dispute at header r cs cause bounty) {effects = effects} other
        plain h =
      elim (Result-cases (view.dispute_open at header)) [
        | inl (none, is) ↦ ground (arith, is, nil-MintsNothing)
        | inl (some dispute, is) ↦
            resolve_open-MintsNothing at header cause bounty dispute {effects = effects}
              (ground (arith, is))
        | inr (inl (e, is)) ↦ ground (arith, is, nil-MintsNothing)
        | inr (inr is) ↦ ground (arith, is, nil-MintsNothing)
      ]
  perform-MintsNothing keys proposal height (GovernanceAction.reinstate_validator v) other plain h =
      ground (arith, nil-MintsNothing)
  perform-MintsNothing keys proposal height (GovernanceAction.add_attestor a n os t hash uri)
        {effects = effects} other plain h =
      register-MintsNothing keys proposal a n os t height {effects = effects} other h
  perform-MintsNothing keys proposal height (GovernanceAction.remove_attestor a) other plain h =
      ground (arith, nil-MintsNothing)
  perform-MintsNothing keys proposal height (GovernanceAction.unblock_attestor a) other plain h =
      ground (arith, nil-MintsNothing)

  -- An execution mints nothing, whatever the proposal does: if the treasury did not propose it and
  -- it sets no balance by hand as a correction, the supply after its account rows are committed is
  -- at most the supply before.
  pub apply_execute-mints_nothing :
      (keys : Keys) (id height : ℕ) (proposal : Proposal) (effects : Effects)
      → find_proposal view id ≡ ok proposal
      → proposal.proposer ≢ system.treasury
      → corrections_of proposal.action ≡ []
      → apply_execute keys system view id height ≡ ok effects
      → supply (commit effects.accounts accounts) ≤ supply accounts
  unfolding act MintsNothing
  apply_execute-mints_nothing keys id height proposal effects found other plain h =
      let e = apply_execute-Executed keys system view id height effects h in
      elim (Bool-cases (passes e.proposal e.params.proposal_quorum_bps)) [
        | inl passed ↦ ground (
          arith,
          e.written,
          e.found,
          found,
          perform-MintsNothing keys e.proposal height e.proposal.action {effects = e.acted}
              (ground (arith, found, e.found, other)) (ground (arith, found, e.found, plain))
              (ground (arith, e.performed, passed)),
        )
        | inr failed ↦ ground (arith, e.written, e.performed, failed, nil-MintsNothing)
      ]
