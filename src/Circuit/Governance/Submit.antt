-- ===== src/Circuit/Governance/Submit.antt =====
-- circuits/governance/src/lib.rs: `apply_submit`, `open_proposal` and `apply_attestor_application`.
use Prim.Native.String.{◌++◌ as text_append}
use arxium.Prelude.{
  ℕ, String, none, some, List, [], ◌∷◌, ◌++◌, number_key, Result, ok, err, map_err, reject_if,
  unwrap_or, ◌>>=◌, ◌>>◌,
}
use arxium.Prelude.Word.{u64_bound, u128_bound, add, checked_sub, saturating_add}
use arxium.Prelude.Map.{insert}
use arxium.Primitives.Address.{Address}
use arxium.Primitives.State.{SystemAccounts}
use arxium.Primitives.Params.{ChainParams}
use arxium.Primitives.Governance.{GovernanceAction, Proposal, ProposalStatus}
use arxium.Primitives.Attestor.{Keys}
use arxium.Circuit.View.{View, read_account}
use arxium.Circuit.Ledger.{Accounts}
use arxium.Circuit.Updates.{GovernanceUpdates, put_proposal, put_next_proposal_id}
use arxium.Circuit.Identity.{apply_register_attestor, apply_open_removal, require_attestor}
use arxium.Circuit.Governance.Types.{
  GovernanceError, chain_params, voting_power, changes_epoch_length,
}
use arxium.Circuit.Governance.Validate.{validate_action}

-- What `map_err(|_| e)` makes of an error.
abbrev pub replace_err {ℓ κ μ} :
    {E : Type ℓ} {F : Type κ} {A : Type μ} → F → Result E A → Result F A
replace_err e = map_err (λ _. e)

-- What an action needs from state before it is worth a vote: the rows written, and the blocks that
-- the vote runs for.
unfoldable pub prepare :
    Keys
    → View
    → ChainParams
    → GovernanceAction
    → ℕ
    → Result GovernanceError (GovernanceUpdates × ℕ)
prepare keys view params (GovernanceAction.add_attestor attestor name owners threshold hash uri)
      height =
    do
      registration ←
          map_err GovernanceError.identity
            (apply_register_attestor keys view attestor name owners threshold height)
      ok ([], params.voting_period_blocks)
prepare keys view params (GovernanceAction.remove_attestor attestor) height = do
  rows ← map_err GovernanceError.identity (apply_open_removal view attestor height)
  ok (rows, params.attestor_removal_voting_blocks)
prepare keys view params (GovernanceAction.unblock_attestor attestor) height = do
  found ← replace_err (GovernanceError.unknown_attestor attestor) (require_attestor view attestor)
  ok ([], params.voting_period_blocks)
prepare keys view params (GovernanceAction.set_chain_params p) height =
    ok ([], params.voting_period_blocks)
prepare keys view params (GovernanceAction.treasury_spend to amount) height =
    ok ([], params.voting_period_blocks)
prepare keys view params
      (GovernanceAction.resolve_dispute h header resolution corrections cause bounty) height =
    ok ([], params.voting_period_blocks)
prepare keys view params (GovernanceAction.reinstate_validator validator) height =
    ok ([], params.voting_period_blocks)

abbrev pub new_proposal : ℕ → Address → GovernanceAction → String → ℕ → ℕ → ℕ → Proposal
new_proposal id proposer action description height voting_blocks bond = record {
  id = id;
  proposer = proposer;
  action = action;
  description = description;
  created_at = height;
  voting_ends_at = saturating_add u64_bound height voting_blocks;
  yes_power = 0;
  no_power = 0;
  status = ProposalStatus.opened;
  bond = bond;
}

unfoldable pub open_proposal :
    Keys
    → View
    → Address
    → GovernanceAction
    → String
    → ℕ
    → ℕ
    → Result GovernanceError (ℕ × GovernanceUpdates)
open_proposal keys view proposer action description height bond = do
  params ← chain_params view
  prepared ← prepare keys view params action height
  found ← map_err GovernanceError.storage view.next_proposal_id
  let id = unwrap_or found 0
  next ← add u64_bound id 1
  ok (
    id,
    prepared.0
        ++ put_proposal id (new_proposal id proposer action description height prepared.1 bond)
          ∷ put_next_proposal_id next
          ∷ [],
  )

-- Refuses a change of the epoch length.
abbrev pub refuse_epoch_change : View → GovernanceAction → Result GovernanceError (Unit {0})
refuse_epoch_change view (GovernanceAction.set_chain_params params) = do
  changes ← changes_epoch_length view params
  reject_if changes (GovernanceError.invalid_params "epoch_length can't be changed by governance")
refuse_epoch_change view _ = ok tt

unfoldable pub apply_submit :
    Keys
    → SystemAccounts
    → View
    → Address
    → GovernanceAction
    → String
    → ℕ
    → Result GovernanceError (ℕ × GovernanceUpdates)
apply_submit keys system view proposer action description height = do
  power ← voting_power view proposer height
  validate_action keys system action
  refuse_epoch_change view action
  open_proposal keys view proposer action description height 0

-- The bond, from the applicant to the treasury. The treasury's row is the second of the two that the
-- map is built from, so it stays where the applicant is the treasury.
unfoldable pub pay_bond : SystemAccounts → View → Address → ℕ → Result GovernanceError Accounts
pay_bond system view applicant bond = do
  payer ← read_account GovernanceError.storage view applicant
  rest ← elim (checked_sub payer.balance bond) [
    | none ↦ err (GovernanceError.cannot_pay_bond bond payer.balance)
    | some rest ↦ ok rest
  ]
  treasury_entry ← read_account GovernanceError.storage view system.treasury
  ok (
      insert system.treasury
        (record treasury_entry { balance = saturating_add u128_bound treasury_entry.balance bond })
        (insert applicant (record payer { balance = rest }) []))

unfoldable pub apply_attestor_application :
    Keys
    → SystemAccounts
    → View
    → Address
    → String
    → List Address
    → ℕ
    → String
    → String
    → ℕ
    → Result GovernanceError (ℕ × GovernanceUpdates × Accounts)
apply_attestor_application keys system view applicant name owners threshold hash uri height = do
  let action = GovernanceAction.add_attestor applicant name owners threshold hash uri
  validate_action keys system action
  registration ←
      map_err GovernanceError.identity
        (apply_register_attestor keys view applicant name owners threshold height)
  params ← chain_params view
  accounts ← pay_bond system view applicant params.attestor_apply_bond
  opened ←
      open_proposal keys view applicant action (text_append "Attestor application: " name) height
        params.attestor_apply_bond
  ok (opened.0, opened.1, accounts)
