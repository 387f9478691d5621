-- ===== src/Runtime/Epoch.antt =====
-- arxd/runtime/src/epoch.rs: `boundary_hook`, the choice of the next epoch's validator set. A
-- `BTreeMap` or `BTreeSet` is a list in ascending order of its keys.
pub mod Rows
pub mod Statuses
mod Tests
use arxium.Prelude.{
  ℕ, ◌+◌, max, Bool, true, false, not, ◌&&◌, ◌||◌, Option, none, some, List, [], ◌∷◌, ◌++◌, ltb,
  ◌==◌, number_key, if◌then◌else◌, length, take, Result, ok, err, panic, map_err, unwrap_or,
  is_some, ◌>>=◌, ◌>>◌,
}
use arxium.Prelude.Word.{u64_bound, u128_bound, add, saturating_add}
use arxium.Prelude.Map.{Map, get, insert}
use arxium.Primitives.Address.{Address}
use arxium.Primitives.Params.{ChainParams, VotingPower, ValidatorStatus, eligible_for}
use arxium.Primitives.ValidatorSet.{NoError, epoch_of, is_boundary, validator_set_effective_height}
use arxium.Primitives.ValidatorSet.Power.{assign_voting_power}
use arxium.Circuit.View.{View, StorageError}
use arxium.Circuit.Identity.{is_attested}
use arxium.Circuit.Staking.Types.{read_masters}
use arxium.Circuit.Governance.Types.{params_or_default, no_error}

-- `BlockUpdates`: the two fields that the hook writes.
pub record BlockUpdates : Type 0 where
  pub validator_set : Option (Map Address VotingPower)
  pub validator_statuses : Map Address (Option ValidatorStatus)

abbrev pub no_updates : BlockUpdates
no_updates = record { validator_set = none; validator_statuses = [] }

-- `BTreeSet::insert` and `BTreeMap::insert`
abbrev pub place_new : Address → List Address → List Address
place_new a [] = a ∷ []
place_new a (b ∷ bs) = if ltb a b then a ∷ b ∷ bs else if a == b then b ∷ bs else b ∷ place_new a bs

abbrev pub place_row : Address → ℕ → Map Address ℕ → Map Address ℕ
place_row a stake [] = (a, stake) ∷ []
place_row a stake ((b, s) ∷ rows) =
    if ltb a b
    then (a, stake) ∷ (b, s) ∷ rows
    else if a == b
    then (a, stake) ∷ rows
    else (b, s) ∷ place_row a stake rows

unfoldable pub collect_set : List Address → List Address
collect_set [] = []
collect_set (a ∷ rest) = place_new a (collect_set rest)

-- The rows are of distinct addresses, so the order of their insertion does not matter.
unfoldable pub collect_map : List (Address × ℕ) → Map Address ℕ
collect_map [] = []
collect_map ((a, stake) ∷ rest) = place_row a stake (collect_map rest)

unfoldable pub sum_stakes : View → Address → List Address → ℕ → Result StorageError ℕ
sum_stakes view validator [] total = ok total
sum_stakes view validator (master ∷ masters) total = do
  found ← view.stake master validator
  let more : ℕ = elim found [
    | none ↦ total
    | some s ↦ saturating_add u128_bound total s.active_amount
  ]
  sum_stakes view validator masters more

unfoldable pub total_stake : View → Address → Result StorageError (Option ℕ)
total_stake view validator = do
  masters ← read_masters (λ e. e) view validator
  if length masters == 0
      then ok none
      else (sum_stakes view validator masters 0 >>= λ total. ok (some total))

unfoldable pub read_statuses :
    View → List Address → Result StorageError (Map Address ValidatorStatus)
read_statuses view [] = ok []
read_statuses view (address ∷ candidates) = do
  found ← view.validator_status address
  rest ← read_statuses view candidates
  ok (elim found [ none ↦ rest | some status ↦ (address, status) ∷ rest ])

-- The stake of a validator that may be in the next set.
unfoldable pub stake_if_eligible :
    View → ChainParams → ℕ → Address → ValidatorStatus → Result StorageError (Option ℕ)
stake_if_eligible view params next_epoch address status =
    if not (eligible_for status next_epoch)
    then ok none
    else (total_stake view address >>= λ found. elim found [
      | none ↦ ok none
      | some stake ↦
          if ltb stake params.min_validator_stake
          then ok none
          else if params.validator_attestation_required
          then (is_attested view address >>= λ attested. ok (if attested then some stake else none))
          else ok (some stake)
    ])

unfoldable pub find_eligible :
    View → ChainParams → ℕ → Map Address ValidatorStatus → Result StorageError (List (Address × ℕ))
find_eligible view params next_epoch [] = ok []
find_eligible view params next_epoch ((address, status) ∷ statuses) = do
  found ← stake_if_eligible view params next_epoch address status
  rest ← find_eligible view params next_epoch statuses
  ok (elim found [ none ↦ rest | some stake ↦ (address, stake) ∷ rest ])

-- More stake first, then the smaller address.
abbrev pub before : Address × ℕ → Address × ℕ → Bool
before (a, stake_a) (b, stake_b) = ltb stake_b stake_a || (stake_a == stake_b && ltb a b)

abbrev pub place_by_stake : Address × ℕ → List (Address × ℕ) → List (Address × ℕ)
place_by_stake row [] = row ∷ []
place_by_stake row (other ∷ rest) =
    if before other row then other ∷ place_by_stake row rest else row ∷ other ∷ rest

unfoldable pub sort_by_stake : List (Address × ℕ) → List (Address × ℕ)
sort_by_stake [] = []
sort_by_stake (row ∷ rest) = place_by_stake row (sort_by_stake rest)

-- The row that the next set makes of a status: `none` leaves it, `some none` deletes it.
unfoldable pub next_status : Bool → ValidatorStatus → ℕ → Option (Option ValidatorStatus)
next_status true status next_epoch = some (some ValidatorStatus.active)
next_status false ValidatorStatus.active next_epoch = some (some ValidatorStatus.pending)
next_status false (ValidatorStatus.leaving from_epoch) next_epoch =
    if ltb next_epoch from_epoch then none else some none
next_status false ValidatorStatus.pending next_epoch = none
next_status false (ValidatorStatus.jailed until_epoch) next_epoch = none
next_status false ValidatorStatus.tombstoned next_epoch = none

-- `next.as_ref() != Some(status)`, where `next` is not left: only an active row stays as it is.
abbrev pub unchanged : Option ValidatorStatus → ValidatorStatus → Bool
unchanged (some ValidatorStatus.active) ValidatorStatus.active = true
unchanged _ _ = false

unfoldable pub status_rows :
    Map Address VotingPower → ℕ → Map Address ValidatorStatus → Map Address (Option ValidatorStatus)
status_rows set next_epoch [] = []
status_rows set next_epoch ((address, status) ∷ statuses) =
    let rest = status_rows set next_epoch statuses in
    elim (next_status (is_some (get address set)) status next_epoch) [
      | none ↦ rest
      | some next ↦ if unchanged next status then rest else (address, next) ∷ rest
    ]

-- Enough rounds are given (`assign_voting_power-total`), so the second case does not arise.
abbrev pub assigned :
    Option (Map Address VotingPower) → Result StorageError (Map Address VotingPower)
assigned (some powers) = ok powers
assigned none = panic

unfoldable pub choose :
    View → ChainParams → ℕ → ℕ → Map Address ValidatorStatus → Result StorageError BlockUpdates
choose view params height next_epoch statuses = do
  found ← find_eligible view params next_epoch statuses
  let eligible = take (max params.max_validator_set 1) (sort_by_stake found)
  if ltb (length eligible) params.min_validator_set
      then (do
        current ← no_error (validator_set_effective_height height params.epoch_length)
        kept ← view.validator_set current
        ok (record no_updates { validator_set = some (unwrap_or kept []) }))
      else (do
        powers ← no_error (assign_voting_power (collect_map eligible))
        set ← assigned powers
        ok (record {
          validator_set = some set;
          validator_statuses = status_rows set next_epoch statuses;
        }))

unfoldable pub boundary_hook : View → List Address → ℕ → Result StorageError BlockUpdates
boundary_hook view written height = do
  found ← view.params_row
  let params = params_or_default found
  boundary ← no_error (is_boundary height params.epoch_length)
  if not boundary then ok no_updates else (do
    next_epoch ← add u64_bound (epoch_of height params.epoch_length) 1
    listed ← view.validator_candidates
    statuses ← read_statuses view (collect_set (unwrap_or listed [] ++ written))
    choose view params height next_epoch statuses)
