-- ===== src/Runtime/Epoch/Tests.antt =====
-- An epoch of ten blocks ends: validator 1 was pending and has stake, validator 2 was active and
-- has none.
use arxium.Prelude.{none, some, [], ◌∷◌, ok, number_key, ◌==◌, if◌then◌else◌}
use arxium.Primitives.State.{StakeAllocation}
use arxium.Primitives.Params.{ChainParams, ValidatorStatus, default_params}
use arxium.Circuit.View.{View}
use arxium.Circuit.Sample.{empty_view}
use arxium.Runtime.Epoch.{BlockUpdates}

abbrev params : ChainParams
params = record default_params { epoch_length = 10; min_validator_set = 1; min_validator_stake = 5 }

abbrev stake : StakeAllocation
stake = record {
  master = 7;
  validator = 1;
  active_amount = 100;
  unbonding = none;
  created_at = 0;
  updated_at = 0;
}

abbrev view : View
view = record empty_view {
  params_row = ok (some params);
  validator_candidates = ok (some (1 ∷ 2 ∷ []));
  validator_status =
      λ a. ok (some (if a == 1 then ValidatorStatus.pending else ValidatorStatus.active));
  stake_by_validator = λ v. ok (if v == 1 then some (7 ∷ []) else none);
  stake = λ m v. ok (if v == 1 then some stake else none);
}

abbrev chosen : BlockUpdates
chosen = record {
  validator_set = some ((1, 10_000) ∷ []);
  validator_statuses = (1, some ValidatorStatus.active) ∷ (2, some ValidatorStatus.pending) ∷ [];
}
