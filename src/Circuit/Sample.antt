-- ===== src/Circuit/Sample.antt =====
-- A view over given account rows, for tests.
use arxium.Prelude.{
  ℕ, ◌+◌, ◌&&◌, ◌==◌, if◌then◌else◌, some, [], ◌∷◌, none, Result, ok, err, panic, number_key,
}
use arxium.Prelude.Map.{get}
use arxium.Primitives.State.{AccountEntry, StakeAllocation, SystemAccounts, default_entry}
use arxium.Circuit.View.{View}
use arxium.Circuit.Ledger.{Accounts}

abbrev pub empty_view : View
empty_view = record {
  account = λ a. ok none;
  stake = λ m v. ok none;
  stake_by_validator = λ v. ok none;
  unbonding_due = λ h. ok none;
  asset_balance = λ r a. ok none;
  params_row = ok none;
  validator_set = λ h. ok none;
  proposal = λ i. ok none;
  vote = λ i a. ok none;
  next_proposal_id = ok none;
  validator_status = λ a. ok none;
  validator_candidates = ok none;
  dispute_open = λ h c. ok none;
  attestor_record = λ a. ok none;
  attestor_name = λ n. ok none;
}

abbrev pub view_of : Accounts → View
view_of accounts = record empty_view { account = λ a. ok (get a accounts) }

abbrev pub holding : ℕ → ℕ → AccountEntry
holding balance nonce = record default_entry { balance = balance; nonce = nonce }

-- What a call that is known to succeed returns.
abbrev pub ok_or {ℓ κ} : {E : Type ℓ} {A : Type κ} → Result E A → A → A
ok_or (ok a) d = a
ok_or (err e) d = d
ok_or panic d = d

-- The sub-account of validator v is 100 + v, the reward pool is 98 and the treasury 99.
abbrev pub system : SystemAccounts
system = record { stake_subaccount = λ v. 100 + v; reward_pool = 98; treasury = 99 }

-- A view of one allocation and its validator's index row, over given account rows.
abbrev pub staked_view : Accounts → StakeAllocation → View
staked_view accounts allocation = record (view_of accounts) {
  stake = λ m v.
      if m == allocation.master && v == allocation.validator then ok (some allocation) else ok none;
  stake_by_validator =
      λ v. if v == allocation.validator then ok (some (allocation.master ∷ [])) else ok none;
}
