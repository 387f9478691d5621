-- ===== src/Circuit/Account/Policy.antt =====
-- circuits/account/src/policy.rs: `apply_policy_action` and `enforce_spending`. Both change what a
-- `&mut` borrows; where they fail, the callers (arxd/runtime/src/account_policy.rs) drop the copy
-- that they passed, so the result holds the new value only on success.
use arxium.Prelude.{
  ℕ, String, Bool, true, false, not, ◌&&◌, Option, none, some, List, [], ◌∷◌, ◌++◌, ltb, leb, ◌==◌,
  number_key, any, retain, Result, ok, err, panic, reject_if, is_some, ◌>>=◌, ◌>>◌,
}
use arxium.Prelude.Word.{u64_bound, checked_add}
use arxium.Primitives.State.{AccountEntry}
use arxium.Primitives.Action.{SignatureError}
use arxium.Primitives.Policy.{
  ThresholdPolicy, SpendingLimit, SpendCounter, SessionKey, AccountPolicy, ProgrammableAccount,
  AccountPolicyAction, PolicyAuthorization,
}
use arxium.Primitives.PolicyRules.{Formats, asset_key, validate_threshold, validate_policy}

abbrev pub refused {ℓ} : {A : Type ℓ} → String → Result SignatureError A
refused message = err (SignatureError.bad_multisig message)

-- `.ok_or(invalid(message))?`
abbrev pub or_refused {ℓ} : {A : Type ℓ} → Option A → String → Result SignatureError A
or_refused none message = refused message
or_refused (some a) message = ok a

abbrev pub is_owner : PolicyAuthorization → Bool
is_owner PolicyAuthorization.owner = true
is_owner (PolicyAuthorization.session i) = false
is_owner PolicyAuthorization.guardian = false

abbrev pub is_guardian : PolicyAuthorization → Bool
is_guardian PolicyAuthorization.owner = false
is_guardian (PolicyAuthorization.session i) = false
is_guardian PolicyAuthorization.guardian = true

abbrev pub is_recovery : AccountPolicyAction → Bool
is_recovery (AccountPolicyAction.start_recovery owners) = true
is_recovery AccountPolicyAction.execute_recovery = true
is_recovery (AccountPolicyAction.set_policy policy) = false
is_recovery (AccountPolicyAction.rotate_members owners) = false
is_recovery (AccountPolicyAction.add_session session) = false
is_recovery (AccountPolicyAction.revoke_session key) = false
is_recovery AccountPolicyAction.cancel_recovery = false

-- The derived equality of limits.
abbrev pub same_limit : SpendingLimit → SpendingLimit → Bool
same_limit a b = a.asset == b.asset && a.period_blocks == b.period_blocks && a.amount == b.amount

-- The counters of limits that the new policy leaves as they were.
abbrev pub kept_counters : Option ProgrammableAccount → AccountPolicy → List SpendCounter
kept_counters none policy = []
kept_counters (some old) policy =
    retain
      (λ (c : SpendCounter).
        any
          (λ (l : SpendingLimit). l.asset == c.asset && any (λ new. same_limit new l) policy.limits)
          old.policy.limits)
      old.counters

abbrev pub with_owners : ThresholdPolicy → ProgrammableAccount → ProgrammableAccount
with_owners owners state = record state {
  policy = record state.policy { owners = owners; sessions = [] };
  pending_recovery = none;
}

abbrev pub open_recovery :
    ProgrammableAccount → ThresholdPolicy → ℕ → Result SignatureError ProgrammableAccount
open_recovery state owners height = do
  recovery ← or_refused state.policy.recovery "recovery disabled"
  execute_after ←
      or_refused (checked_add u64_bound height recovery.delay_blocks) "recovery height overflow"
  ok (record state {
    pending_recovery = some (record { owners = owners; execute_after = execute_after });
  })

-- The actions on a policy that is there.
unfoldable pub manage :
    Formats
    → ProgrammableAccount
    → PolicyAuthorization
    → ℕ
    → AccountPolicyAction
    → Result SignatureError ProgrammableAccount
manage formats state auth height (AccountPolicyAction.rotate_members owners) = do
  validate_threshold formats owners
  ok (with_owners owners state)
manage formats state auth height (AccountPolicyAction.add_session session) = do
  reject_if (leb session.expires_at height) (SignatureError.bad_multisig "session already expired")
  reject_if (any (λ (s : SessionKey). s.public_key == session.public_key) state.policy.sessions)
      (SignatureError.bad_multisig "session already exists; revoke before replacing")
  let policy = record state.policy { sessions = state.policy.sessions ++ session ∷ [] }
  validate_policy formats policy
  ok (record state { policy = policy })
manage formats state auth height (AccountPolicyAction.revoke_session public_key) =
    ok (record state {
      policy = record state.policy {
        sessions =
            retain (λ (s : SessionKey). not (s.public_key == public_key)) state.policy.sessions;
      };
    })
manage formats state auth height (AccountPolicyAction.start_recovery owners) = do
  reject_if (not (is_guardian auth)) (SignatureError.bad_multisig "recovery requires guardians")
  validate_threshold formats owners
  reject_if (is_some state.pending_recovery)
      (SignatureError.bad_multisig "recovery already pending")
  open_recovery state owners height
manage formats state auth height AccountPolicyAction.cancel_recovery =
    ok (record state { pending_recovery = none })
manage formats state auth height AccountPolicyAction.execute_recovery = do
  reject_if (not (is_guardian auth)) (SignatureError.bad_multisig "recovery requires guardians")
  pending ← or_refused state.pending_recovery "no pending recovery"
  reject_if (ltb height pending.execute_after)
      (SignatureError.bad_multisig "recovery timelock has not elapsed")
  ok (with_owners pending.owners state)
manage formats state auth height (AccountPolicyAction.set_policy policy) = panic

-- Owners are the only ones past the first test who may set a policy, so the second test of that is
-- never reached.
unfoldable pub apply_policy_action :
    Formats
    → AccountEntry
    → AccountPolicyAction
    → PolicyAuthorization
    → ℕ
    → Result SignatureError AccountEntry
apply_policy_action formats account action auth height = do
  reject_if (not (is_owner auth) && not (is_guardian auth && is_recovery action))
      (SignatureError.bad_multisig "capability cannot manage account policy")
  elim action as (λ a. Result SignatureError AccountEntry) [
    | AccountPolicyAction.set_policy policy ↦ (do
      reject_if (not (is_owner auth)) (SignatureError.bad_multisig "only owners may set policy")
      validate_policy formats policy
      ok (record account {
        programmable = some (record {
          policy = policy;
          counters = kept_counters account.programmable policy;
          pending_recovery = none;
        });
      }))
    | other ↦ (do
      state ← or_refused account.programmable "account has no policy"
      managed ← manage formats state auth height other
      ok (record account { programmable = some managed }))
  ]
