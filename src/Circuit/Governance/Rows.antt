-- ===== src/Circuit/Governance/Rows.antt =====
-- The rows that each part of an operation of governance writes, as the chamber sees them.
use arxium.Prelude.{
  ℕ, ◌≡◌, inl, inr, refl, String, Bool, true, false, Option, some, [], ◌∷◌, arith, number_key,
  pair_key, ok, Bool-cases,
}
use arxium.Prelude.Map.{get, insert}
use arxium.Primitives.Address.{Address}
use arxium.Primitives.State.{SystemAccounts}
use arxium.Primitives.Params.{ChainParams}
use arxium.Primitives.Governance.{GovernanceAction, Proposal}
use arxium.Primitives.Attestor.{Keys}
use arxium.Circuit.View.{View}
use arxium.Circuit.Updates.{GovernanceUpdates, put_proposal, put_next_proposal_id}
use arxium.Circuit.Identity.{
  apply_register_attestor, apply_deregister_attestor, apply_set_self_blocked, apply_open_removal,
  apply_close_failed_removal,
}
use arxium.Circuit.Governance.Types.{
  params_or_default, chain_params, find_proposal, changes_epoch_length,
}
use arxium.Circuit.Governance.Validate.{validate_params, validate_action}
use arxium.Circuit.Governance.Submit.{prepare, apply_submit}
use arxium.Circuit.Governance.Execute.{
  Effects, nothing, set_params, spend, resolve, resolve_open, reinstate, register, perform,
  close_removal, passes, act,
}
use arxium.Circuit.Governance.Chamber.{Chamber, Sees, write_rows}

-- Parameters in a proposal passed their checks.
abbrev pub Checked : GovernanceAction → Type 0
Checked (GovernanceAction.set_chain_params params) = validate_params params ≡ ok tt
Checked _ = Unit

abbrev pub params_after : GovernanceAction → Bool → Option ChainParams → Option ChainParams
params_after (GovernanceAction.set_chain_params params) true before = some params
params_after (GovernanceAction.set_chain_params params) false before = before
params_after _ done before = before

abbrev pub KeepsEpoch : GovernanceAction → Bool → Option ChainParams → Type 0
KeepsEpoch (GovernanceAction.set_chain_params params) done before =
    done ≡ true → params.epoch_length ≡ (params_or_default before).epoch_length
KeepsEpoch _ done before = Unit

pub submit-Checked :
    (keys : Keys) (system : SystemAccounts) (view : View) (proposer : Address)
    (action : GovernanceAction) (description : String) (height : ℕ) {opened : ℕ × GovernanceUpdates}
    → apply_submit keys system view proposer action description height ≡ ok opened
    → Checked action
unfolding apply_submit validate_action
submit-Checked keys system view proposer (GovernanceAction.set_chain_params p) description height
      h =
    ground (arith)
submit-Checked keys system view proposer (GovernanceAction.treasury_spend to amount) description
      height h =
    tt
submit-Checked keys system view proposer
      (GovernanceAction.resolve_dispute at header r cs cause bounty) description height h =
    tt
submit-Checked keys system view proposer (GovernanceAction.reinstate_validator v) description height
      h =
    tt
submit-Checked keys system view proposer (GovernanceAction.add_attestor a n os t hash uri)
      description height h =
    tt
submit-Checked keys system view proposer (GovernanceAction.remove_attestor a) description height h =
    tt
submit-Checked keys system view proposer (GovernanceAction.unblock_attestor a) description height
      h =
    tt

pub write_opened :
    (id : ℕ) (proposal : Proposal) (next : ℕ) (chamber : Chamber)
    → write_rows (put_proposal id proposal ∷ put_next_proposal_id next ∷ []) chamber
      ≡ record chamber { proposals = insert id proposal chamber.proposals; next_id = some next }
unfolding write_rows
write_opened id proposal next chamber = refl

pub write_closed :
    (id : ℕ) (proposal : Proposal) (chamber : Chamber)
    → write_rows (put_proposal id proposal ∷ []) chamber
      ≡ record chamber { proposals = insert id proposal chamber.proposals }
unfolding write_rows
write_closed id proposal chamber = refl

nothing-rows :
    (action : GovernanceAction) (before : Chamber) {effects : Effects}
    → effects ≡ nothing
    → (write_rows effects.updates before
        ≡ record before { params = params_after action effects.done before.params })
      × KeepsEpoch action effects.done before.params
unfolding write_rows
nothing-rows (GovernanceAction.set_chain_params p) before h =
    (ground arith, λ done. ground (arith, done))
nothing-rows (GovernanceAction.treasury_spend to amount) before h = (ground arith, tt)
nothing-rows (GovernanceAction.resolve_dispute at header r cs cause bounty) before h =
    (ground arith, tt)
nothing-rows (GovernanceAction.reinstate_validator v) before h = (ground arith, tt)
nothing-rows (GovernanceAction.add_attestor a n os t hash uri) before h = (ground arith, tt)
nothing-rows (GovernanceAction.remove_attestor a) before h = (ground arith, tt)
nothing-rows (GovernanceAction.unblock_attestor a) before h = (ground arith, tt)

module _ (view : View) (before : Chamber) (sees : Sees view before) where
  pub chain_params-Sees : chain_params view ≡ ok (params_or_default before.params)
  unfolding chain_params
  chain_params-Sees = rw sees.params

  pub find_proposal-eq-ok :
      (id : ℕ) {proposal : Proposal}
      → find_proposal view id ≡ ok proposal
      → get id before.proposals ≡ some proposal
  unfolding find_proposal
  find_proposal-eq-ok id h = ground (arith, sees.proposal id)

  -- The rows that an action needs before its vote are none of the chamber's.
  pub prepare-rows :
      (keys : Keys) (params : ChainParams) (action : GovernanceAction) (height : ℕ)
      {prepared : GovernanceUpdates × ℕ}
      → prepare keys view params action height ≡ ok prepared
      → write_rows prepared.0 before ≡ before
  unfolding prepare write_rows apply_open_removal
  prepare-rows keys params (GovernanceAction.set_chain_params p) height h = ground arith
  prepare-rows keys params (GovernanceAction.treasury_spend to amount) height h = ground arith
  prepare-rows keys params (GovernanceAction.resolve_dispute at header r cs cause bounty) height h =
      ground arith
  prepare-rows keys params (GovernanceAction.reinstate_validator v) height h = ground arith
  prepare-rows keys params (GovernanceAction.add_attestor a n os t hash uri) height h = ground arith
  prepare-rows keys params (GovernanceAction.remove_attestor a) height h = ground arith
  prepare-rows keys params (GovernanceAction.unblock_attestor a) height h = ground arith

  pub close_removal-rows :
      (height : ℕ) (done : Bool) (action : GovernanceAction) {cooling : GovernanceUpdates}
      (chamber : Chamber)
      → close_removal view height done action ≡ ok cooling
      → write_rows cooling chamber ≡ chamber
  unfolding close_removal write_rows apply_close_failed_removal
  close_removal-rows height done (GovernanceAction.set_chain_params p) chamber h = ground arith
  close_removal-rows height done (GovernanceAction.treasury_spend to amount) chamber h =
      ground arith
  close_removal-rows height done (GovernanceAction.resolve_dispute at header r cs cause bounty)
        chamber h =
      ground arith
  close_removal-rows height done (GovernanceAction.reinstate_validator v) chamber h = ground arith
  close_removal-rows height done (GovernanceAction.add_attestor a n os t hash uri) chamber h =
      ground arith
  close_removal-rows height done (GovernanceAction.remove_attestor a) chamber h = ground arith
  close_removal-rows height done (GovernanceAction.unblock_attestor a) chamber h = ground arith

  -- The rows of an executed action change at most the parameters.
  perform-rows :
      (keys : Keys) (system : SystemAccounts) (proposal : Proposal) (height : ℕ)
      (action : GovernanceAction) {effects : Effects}
      → perform keys system view proposal height action ≡ ok effects
      → (write_rows effects.updates before
          ≡ record before { params = params_after action effects.done before.params })
        × KeepsEpoch action effects.done before.params
  unfolding perform write_rows set_params changes_epoch_length spend resolve resolve_open reinstate
      register apply_register_attestor apply_deregister_attestor apply_set_self_blocked
  perform-rows keys system proposal height (GovernanceAction.set_chain_params p) h =
      (ground (arith, chain_params-Sees), λ done. ground (arith, chain_params-Sees, done))
  perform-rows keys system proposal height (GovernanceAction.treasury_spend to amount) h =
      (ground arith, tt)
  perform-rows keys system proposal height
        (GovernanceAction.resolve_dispute at header r cs cause bounty) h =
      (ground arith, tt)
  perform-rows keys system proposal height (GovernanceAction.reinstate_validator v) h =
      (ground arith, tt)
  perform-rows keys system proposal height (GovernanceAction.add_attestor a n os t hash uri) h =
      (ground arith, tt)
  perform-rows keys system proposal height (GovernanceAction.remove_attestor a) h =
      (ground arith, tt)
  perform-rows keys system proposal height (GovernanceAction.unblock_attestor a) h =
      (ground arith, tt)

  pub act-rows :
      (keys : Keys) (system : SystemAccounts) (proposal : Proposal) (params : ChainParams)
      (height : ℕ) {effects : Effects}
      → act keys system view proposal params height ≡ ok effects
      → (write_rows effects.updates before
          ≡ record before { params = params_after proposal.action effects.done before.params })
        × KeepsEpoch proposal.action effects.done before.params
  unfolding act
  act-rows keys system proposal params height {effects = effects} h =
      elim (Bool-cases (passes proposal params.proposal_quorum_bps)) [
        | inl passed ↦
            perform-rows keys system proposal height proposal.action {effects = effects}
              (ground (arith, passed))
        | inr failed ↦
            nothing-rows proposal.action before {effects = effects} (ground (arith, failed))
      ]
