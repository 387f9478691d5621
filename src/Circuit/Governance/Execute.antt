-- ===== src/Circuit/Governance/Execute.antt =====
-- circuits/governance/src/lib.rs: `apply_execute` and `refund_bond`. A `match` arm of the source is a
-- function here; each says what the action writes, or that the proposal falls through as rejected.
use arxium.Prelude.{
  ℕ, ◌-◌, min, String, Bool, true, false, not, ◌&&◌, Option, none, some, List, [], ◌∷◌, ◌++◌, ltb,
  leb, ◌==◌, number_key, if◌then◌else◌, Result, ok, err, panic, map_err, reject_if, ◌>>=◌, ◌>>◌,
}
use arxium.Prelude.Word.{u128_bound, checked_sub, saturating_add}
use arxium.Prelude.Map.{get, insert}
use arxium.Primitives.Address.{Address}
use arxium.Primitives.State.{AccountEntry, SystemAccounts}
use arxium.Primitives.Params.{ChainParams, DisputeCause, ValidatorStatus}
use arxium.Primitives.Governance.{GovernanceAction, Proposal, ProposalStatus}
use arxium.Primitives.Attestor.{Keys}
use arxium.Circuit.View.{View, OpenDispute, read_account}
use arxium.Circuit.Ledger.{Accounts}
use arxium.Circuit.Updates.{
  GovernanceUpdates, put_proposal, put_chain_params, delete_dispute_open, delete_validator_status,
}
use arxium.Circuit.Identity.{
  IdentityError, AttestorRegistration, apply_register_attestor, apply_deregister_attestor,
  apply_set_self_blocked, apply_close_failed_removal,
}
use arxium.Circuit.Governance.Types.{
  GovernanceError, chain_params, find_proposal, changes_epoch_length,
}
use arxium.Circuit.Governance.Validate.{is_attack}
use arxium.Circuit.Governance.Vote.{is_open}

-- What the source's local variables hold after the `match`; `done` says that the status is `Executed`.
pub record Effects : Type 0 where
  pub updates : GovernanceUpdates
  pub accounts : Accounts
  pub slash : Option OpenDispute
  pub registration : Option AttestorRegistration
  pub deregistration : Option Address
  pub done : Bool

abbrev pub nothing : Effects
nothing = record {
  updates = [];
  accounts = [];
  slash = none;
  registration = none;
  deregistration = none;
  done = false;
}

-- `balance -= amount` at `payer` and `saturating_add` at another account.
abbrev pub pay : Address → AccountEntry → ℕ → Address → AccountEntry → Accounts
pay payer from rest to dest = insert to dest (insert payer (record from { balance = rest }) [])

abbrev pub gaining : AccountEntry → ℕ → AccountEntry
gaining entry amount = record entry { balance = saturating_add u128_bound entry.balance amount }

unfoldable pub refund_bond : SystemAccounts → View → Proposal → Result GovernanceError Accounts
refund_bond system view proposal = if proposal.bond == 0 then ok [] else (do
  from ← read_account GovernanceError.storage view system.treasury
  let refund = min proposal.bond from.balance
  to ← read_account GovernanceError.storage view proposal.proposer
  ok (pay system.treasury from (from.balance - refund) proposal.proposer (gaining to refund)))

-- `if let Ok(a) = ... { ... }`: every error is a rejection.
abbrev pub if_ok {ℓ} :
    {A : Type ℓ}
    → Result IdentityError A
    → (A → Result GovernanceError Effects)
    → Result GovernanceError Effects
if_ok (ok a) next = next a
if_ok (err e) next = ok nothing
if_ok panic next = panic

unfoldable pub set_params : View → ChainParams → Result GovernanceError Effects
set_params view params = do
  changes ← changes_epoch_length view params
  ok (
      if changes
      then nothing
      else record nothing { updates = put_chain_params params ∷ []; done = true })

unfoldable pub spend : SystemAccounts → View → Address → ℕ → Result GovernanceError Effects
spend system view to amount = do
  from ← read_account GovernanceError.storage view system.treasury
  if to == system.treasury then ok nothing else elim (checked_sub from.balance amount) [
    | none ↦ ok nothing
    | some rest ↦ read_account GovernanceError.storage view to >>= λ dest. ok (record nothing {
      accounts = pay system.treasury from rest to (gaining dest amount);
      done = true;
    })
  ]

-- `none` is a bounty that cannot be paid.
unfoldable pub pay_bounty :
    SystemAccounts → View → Address → ℕ → Result GovernanceError (Option Accounts)
pay_bounty system view challenger bounty = if not (ltb 0 bounty) then ok (some []) else (do
  from ← read_account GovernanceError.storage view system.treasury
  elim (checked_sub from.balance bounty) [
    | none ↦ ok none
    | some rest ↦
        if challenger == system.treasury
        then ok none
        else (read_account GovernanceError.storage view challenger >>= λ dest.
            ok (some (pay system.treasury from rest challenger (gaining dest bounty))))
  ])

-- An account as the corrections see it: an earlier write, or the view's row.
abbrev pub corrected_entry : View → Accounts → Address → Result GovernanceError AccountEntry
corrected_entry view accounts who = elim (get who accounts) [
  | some entry ↦ ok entry
  | none ↦ read_account GovernanceError.storage view who
]

unfoldable pub correct : View → List (Address × ℕ) → Accounts → Result GovernanceError Accounts
correct view [] accounts = ok accounts
correct view ((who, balance) ∷ corrections) accounts = do
  entry ← corrected_entry view accounts who
  correct view corrections (insert who (record entry { balance = balance }) accounts)

unfoldable pub resolve_open :
    SystemAccounts
    → View
    → ℕ
    → ℕ
    → List (Address × ℕ)
    → DisputeCause
    → ℕ
    → OpenDispute
    → Result GovernanceError Effects
resolve_open system view height header corrections cause bounty dispute =
    if not (is_attack dispute.cause) && is_attack cause then ok nothing else (do
      paid ← pay_bounty system view dispute.challenger bounty
      elim paid [
        | none ↦ ok nothing
        | some accounts ↦ correct view corrections accounts >>= λ corrected. ok (record nothing {
          updates = delete_dispute_open height header ∷ [];
          accounts = corrected;
          slash = if is_attack cause then some dispute else none;
          done = true;
        })
      ])

unfoldable pub resolve :
    SystemAccounts
    → View
    → ℕ
    → ℕ
    → List (Address × ℕ)
    → DisputeCause
    → ℕ
    → Result GovernanceError Effects
resolve system view height header corrections cause bounty = do
  found ← map_err GovernanceError.storage (view.dispute_open height header)
  elim found [
    | none ↦ ok nothing
    | some dispute ↦ resolve_open system view height header corrections cause bounty dispute
  ]

abbrev pub is_tombstoned : Option ValidatorStatus → Bool
is_tombstoned (some ValidatorStatus.tombstoned) = true
is_tombstoned (some ValidatorStatus.active) = false
is_tombstoned (some ValidatorStatus.pending) = false
is_tombstoned (some (ValidatorStatus.jailed until)) = false
is_tombstoned (some (ValidatorStatus.leaving from)) = false
is_tombstoned none = false

unfoldable pub reinstate : View → Address → Result GovernanceError Effects
reinstate view validator = do
  status ← map_err GovernanceError.storage (view.validator_status validator)
  ok (
      if is_tombstoned status
      then record nothing { updates = delete_validator_status validator ∷ []; done = true }
      else nothing)

unfoldable pub register :
    Keys
    → SystemAccounts
    → View
    → Proposal
    → Address
    → String
    → List Address
    → ℕ
    → ℕ
    → Result GovernanceError Effects
register keys system view proposal attestor name owners threshold height =
    if_ok (apply_register_attestor keys view attestor name owners threshold height) (λ written.
      refund_bond system view proposal >>= λ accounts. ok (record nothing {
        updates = written.1;
        accounts = accounts;
        registration = some written.0;
        done = true;
      }))

-- What a proposal that passed does.
unfoldable pub perform :
    Keys → SystemAccounts → View → Proposal → ℕ → GovernanceAction → Result GovernanceError Effects
perform keys system view proposal height (GovernanceAction.set_chain_params params) =
    set_params view params
perform keys system view proposal height
      (GovernanceAction.add_attestor attestor name owners threshold hash uri) =
    register keys system view proposal attestor name owners threshold height
perform keys system view proposal height (GovernanceAction.remove_attestor attestor) =
    if_ok (apply_deregister_attestor view attestor) (λ written.
      ok (record nothing { updates = written.1; deregistration = some written.0; done = true }))
perform keys system view proposal height (GovernanceAction.unblock_attestor attestor) =
    if_ok (apply_set_self_blocked view attestor false)
      (λ rows. ok (record nothing { updates = rows; done = true }))
perform keys system view proposal height (GovernanceAction.treasury_spend to amount) =
    spend system view to amount
perform keys system view proposal height
      (GovernanceAction.resolve_dispute at header resolution corrections cause bounty) =
    resolve system view at header corrections cause bounty
perform keys system view proposal height (GovernanceAction.reinstate_validator validator) =
    reinstate view validator

-- A removal vote that did not remove lifts the block that it raised.
unfoldable pub close_removal :
    View → ℕ → Bool → GovernanceAction → Result GovernanceError GovernanceUpdates
close_removal view height done (GovernanceAction.remove_attestor attestor) =
    if done then ok [] else (do
      params ← chain_params view
      map_err GovernanceError.identity
          (apply_close_failed_removal view attestor height params.attestor_removal_cooldown_blocks))
close_removal view height done _ = ok []

abbrev pub passes : Proposal → ℕ → Bool
passes proposal quorum = ltb proposal.no_power proposal.yes_power && leb quorum proposal.yes_power

abbrev pub closed : Proposal → Bool → Proposal
closed proposal done = record proposal {
  status = if done then ProposalStatus.executed else ProposalStatus.rejected;
}

-- The effects of a proposal that is due: those of its action if it passed.
unfoldable pub act :
    Keys → SystemAccounts → View → Proposal → ChainParams → ℕ → Result GovernanceError Effects
act keys system view proposal params height =
    if passes proposal params.proposal_quorum_bps
    then perform keys system view proposal height proposal.action
    else ok nothing

unfoldable pub apply_execute : Keys → SystemAccounts → View → ℕ → ℕ → Result GovernanceError Effects
apply_execute keys system view id height = do
  proposal ← find_proposal view id
  reject_if (not (is_open proposal.status)) (GovernanceError.not_open id)
  reject_if (ltb height proposal.voting_ends_at)
      (GovernanceError.voting_still_open id proposal.voting_ends_at)
  params ← chain_params view
  effects ← act keys system view proposal params height
  cooling ← close_removal view height effects.done proposal.action
  ok (record effects {
    updates = effects.updates ++ cooling ++ put_proposal id (closed proposal effects.done) ∷ [];
  })
