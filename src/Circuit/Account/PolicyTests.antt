-- ===== src/Circuit/Account/PolicyTests.antt =====
-- An account that may spend 100 coins in ten blocks, with guardians and a delay of 50 blocks.
use arxium.Prelude.{
  ℕ, ◌+◌, ◌≤◌, ◌≡◌, refl, true, none, some, [], ◌∷◌, number_key, ltb, if◌then◌else◌, ok,
}
use arxium.Prelude.Sets.{count}
use arxium.Primitives.State.{AccountEntry, default_entry}
use arxium.Primitives.Attestor.{multisig_address}
use arxium.Primitives.Policy.{
  ThresholdPolicy, SpendAsset, SpendingLimit, RecoveryPolicy, ProgrammableAccount,
  AccountPolicyAction, PolicyAuthorization,
}
use arxium.Primitives.PolicyRules.{Formats, validate_threshold}
use arxium.Primitives.ValidatorSet.{sort}
use arxium.Circuit.Account.Policy.{refused, with_owners, manage, apply_policy_action}
use arxium.Circuit.Account.Spending.{
  spent_of, charge, charge_limits, charge_session, enforce_spending,
}
use arxium.Circuit.Account.Limits.{HasLimit}
use arxium.Circuit.Account.Periods.{Call, approved, taken_in, enforce_spending-period}
use arxium.Circuit.Account.Recovery.{apply_policy_action-timelock}

abbrev coins : SpendingLimit
coins = record { asset = SpendAsset.native; period_blocks = 10; amount = 100 }

abbrev alone : ThresholdPolicy
alone = record { threshold = 1; members = 5 ∷ [] }

abbrev state : ProgrammableAccount
state = record {
  policy = record {
    owners = alone;
    limits = coins ∷ [];
    recipients = none;
    sessions = [];
    recovery = some (record { guardians = alone; delay_blocks = 50 });
  };
  counters = [];
  pending_recovery = none;
}

coins-HasLimit : HasLimit coins state.policy.limits
unfolding count
coins-HasLimit = record { listed = refl; alone = refl }

abbrev debit : ℕ → ℕ → Call
debit height amount = record {
  auth = PolicyAuthorization.owner;
  height = height;
  spends = (SpendAsset.native, amount) ∷ [];
  recipients = 7 ∷ [];
  transfer = none;
}

-- The second debit is past the limit of its period, the third is in the next period.
debits_run :
    approved (debit 11 70 ∷ debit 15 40 ∷ debit 21 40 ∷ []) state ≡ debit 11 70 ∷ debit 21 40 ∷ []
unfolding approved enforce_spending charge_limits charge spent_of charge_session
debits_run = refl

enforce_spending-period_example :
    taken_in coins 1 (approved (debit 11 70 ∷ debit 15 40 ∷ debit 21 40 ∷ []) state) ≤ 100
enforce_spending-period_example =
    enforce_spending-period coins 1 (debit 11 70 ∷ debit 15 40 ∷ debit 21 40 ∷ []) state
      coins-HasLimit

abbrev formats : Formats
formats = record {
  keys = record {
    decodes = λ a. true;
    single_key = λ a. some a;
    hashed_address = λ threshold members. ok 300;
  };
  validate_account_address = λ a. ok tt;
  canonical_asset = λ a. ok tt;
  usable_key = λ key. true;
}

abbrev account : AccountEntry
account = record default_entry { programmable = some state }

abbrev proposed : ThresholdPolicy
proposed = record { threshold = 1; members = 6 ∷ [] }

abbrev started : AccountEntry
started = record default_entry {
  programmable =
      some (record state {
        pending_recovery = some (record { owners = proposed; execute_after = 62 });
      });
}

start_runs :
    apply_policy_action formats account
      (AccountPolicyAction.start_recovery proposed)
      PolicyAuthorization.guardian
      12
    ≡ ok started
unfolding apply_policy_action manage validate_threshold multisig_address sort
start_runs = refl

apply_policy_action-timelock_example :
    (s : ProgrammableAccount) × (recovery : RecoveryPolicy) × (account.programmable ≡ some s)
    × (s.policy.recovery ≡ some recovery)
    × (apply_policy_action formats started AccountPolicyAction.execute_recovery
          PolicyAuthorization.guardian 70
        ≡ (if ltb 70 (12 + recovery.delay_blocks)
            then refused "recovery timelock has not elapsed"
            else ok (record account { programmable = some (with_owners proposed s) })))
    × ((cancelled : AccountEntry) × (apply_policy_action formats started
            AccountPolicyAction.cancel_recovery PolicyAuthorization.owner 20
          ≡ ok cancelled)
        × (apply_policy_action formats cancelled AccountPolicyAction.execute_recovery
              PolicyAuthorization.guardian 70
            ≡ refused "no pending recovery"))
apply_policy_action-timelock_example =
    apply_policy_action-timelock formats account started proposed PolicyAuthorization.guardian 12 70
      20 start_runs
