-- ===== src/Circuit/Governance/Types.antt =====
-- circuits/governance/src/lib.rs: the errors, and what every operation reads.
use arxium.Prelude.{
  ℕ, String, Bool, not, Option, none, some, [], ◌==◌, number_key, Result, ok, err, panic, map_err,
  unwrap_or, ◌>>=◌,
}
use arxium.Prelude.Map.{get}
use arxium.Primitives.Address.{Address}
use arxium.Primitives.Params.{ChainParams, default_params}
use arxium.Primitives.Governance.{Proposal}
use arxium.Primitives.ValidatorSet.{NoError, validator_set_effective_height}
use arxium.Circuit.View.{View, StorageError}
use arxium.Circuit.Identity.{IdentityError, or_err}

pub data GovernanceError : Type 0 where
  storage : StorageError → GovernanceError
  not_validator : Address → GovernanceError
  unknown_proposal not_open : ℕ → GovernanceError
  voting_closed voting_still_open : ℕ → ℕ → GovernanceError
  already_voted : ℕ → Address → GovernanceError
  identity : IdentityError → GovernanceError
  invalid_evidence : GovernanceError
  unknown_attestor : Address → GovernanceError
  cannot_pay_bond : ℕ → ℕ → GovernanceError
  treasury_insufficient : ℕ → ℕ → GovernanceError
  zero_spend : GovernanceError
  invalid_address : Address → GovernanceError
  forked_with_corrections attack_with_payouts : GovernanceError
  invalid_params : String → GovernanceError

-- The row of the chain's parameters, or the default.
unfoldable pub params_or_default : Option ChainParams → ChainParams
params_or_default none = default_params
params_or_default (some params) = params

unfoldable pub chain_params : View → Result GovernanceError ChainParams
chain_params view = do
  found ← map_err GovernanceError.storage view.params_row
  ok (params_or_default found)

abbrev pub no_error {ℓ κ} : {E : Type ℓ} {A : Type κ} → Result NoError A → Result E A
no_error (ok a) = ok a
no_error (err e) = elim e [ ]
no_error panic = panic

unfoldable pub voting_power : View → Address → ℕ → Result GovernanceError ℕ
voting_power view who height = do
  params ← chain_params view
  effective ← no_error (validator_set_effective_height height params.epoch_length)
  found ← map_err GovernanceError.storage (view.validator_set effective)
  or_err (get who (unwrap_or found [])) (GovernanceError.not_validator who)

unfoldable pub find_proposal : View → ℕ → Result GovernanceError Proposal
find_proposal view id = do
  found ← map_err GovernanceError.storage (view.proposal id)
  or_err found (GovernanceError.unknown_proposal id)

unfoldable pub changes_epoch_length : View → ChainParams → Result GovernanceError Bool
changes_epoch_length view proposed = do
  params ← chain_params view
  ok (not (proposed.epoch_length == params.epoch_length))
