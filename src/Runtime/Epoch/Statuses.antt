-- ===== src/Runtime/Epoch/Statuses.antt =====
-- The validators' standing after a boundary, against the set that the boundary chose.
use arxium.Prelude.{ℕ, ◌+◌, ◌≡◌, max, Option, some, List, [], number_key, take, ok, unwrap_or}
use arxium.Prelude.Map.{Map}
use arxium.Primitives.Address.{Address}
use arxium.Primitives.Params.{ChainParams, VotingPower, ValidatorStatus}
use arxium.Primitives.ValidatorSet.{epoch_of, validator_set_effective_height}
use arxium.Circuit.View.{View}
use arxium.Circuit.Governance.Types.{params_or_default}
use arxium.Runtime.Epoch.{BlockUpdates, read_statuses, find_eligible, sort_by_stake}

-- The candidates that qualify for the next epoch, under the parameters in force.
pub record Qualifies (view : View) (candidates : List Address) (height : ℕ) (params : ChainParams)
    (qualified : List (Address × ℕ)) : Type 0 where
  pub row : Option ChainParams
  pub governed : view.params_row ≡ ok row
  pub in_force : params ≡ params_or_default row
  pub statuses : Map Address ValidatorStatus
  pub read : read_statuses view candidates ≡ ok statuses
  pub found :
      find_eligible view params (epoch_of height params.epoch_length + 1) statuses ≡ ok qualified

-- Those that qualify and get a seat: the highest stakes, up to the maximum of the parameters.
abbrev pub seated : ChainParams → List (Address × ℕ) → List (Address × ℕ)
seated params qualified = take (max params.max_validator_set 1) (sort_by_stake qualified)

-- The set in force stays, under the new epoch's height, and so does every status.
pub record Kept (view : View) (height epoch_length : ℕ) (updates : BlockUpdates) : Type 0 where
  pub current : ℕ
  pub in_force : Option (Map Address VotingPower)
  pub location : validator_set_effective_height height epoch_length ≡ ok current
  pub found : view.validator_set current ≡ ok in_force
  pub written :
      updates ≡ record { validator_set = some (unwrap_or in_force []); validator_statuses = [] }
