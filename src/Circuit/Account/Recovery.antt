-- ===== src/Circuit/Account/Recovery.antt =====
-- Recovery by guardians: what starting one allows later, and who may do what.
use arxium.Prelude.{
  ℕ, ◌+◌, ◌≡◌, inl, inr, refl, none, some, arith, ltb, if◌then◌else◌, ok, Option-cases,
}
use arxium.Primitives.State.{AccountEntry}
use arxium.Primitives.Policy.{
  ThresholdPolicy, RecoveryPolicy, ProgrammableAccount, AccountPolicyAction, PolicyAuthorization,
}
use arxium.Primitives.PolicyRules.{Formats}
use arxium.Circuit.Account.Policy.{refused, with_owners, manage, apply_policy_action}

-- What a start that was allowed has checked and written.
pub record Started (formats : Formats) (account : AccountEntry) (owners : ThresholdPolicy)
    (height : ℕ) (after : AccountEntry) : Type 0 where
  pub state : ProgrammableAccount
  pub recovery : RecoveryPolicy
  pub there : account.programmable ≡ some state
  pub enabled : state.policy.recovery ≡ some recovery
  pub idle : state.pending_recovery ≡ none
  pub written : after ≡ record account {
    programmable = some (record state {
      pending_recovery =
          some (record { owners = owners; execute_after = height + recovery.delay_blocks });
    });
  }

start-Started :
    (formats : Formats) (account after : AccountEntry) (owners : ThresholdPolicy)
    (auth : PolicyAuthorization) (height : ℕ)
    → apply_policy_action formats account (AccountPolicyAction.start_recovery owners) auth height
      ≡ ok after
    → Started formats account owners height after
unfolding apply_policy_action manage
start-Started formats account after owners auth height h =
    elim (Option-cases account.programmable) [
      | inl gone ↦ absurd (ground (arith, h, gone))
      | inr (state, there) ↦ elim (Option-cases state.policy.recovery) [
        | inl off ↦ absurd (ground (arith, h, there, off))
        | inr (recovery, enabled) ↦ record {
          state = state;
          recovery = recovery;
          there = there;
          enabled = enabled;
          idle = ground (arith, h, there, enabled);
          written = ground (arith, h, there, enabled);
        }
      ]
    ]

-- A recovery that was started at a height, with the owners it proposes, replaces the owners exactly
-- from the policy's delay on: an execution by the guardians before it is refused as timelocked, one
-- from then on sets those owners and clears sessions and the recovery. If an owner cancels it
-- first, no execution succeeds.
pub apply_policy_action-timelock :
    (formats : Formats) (account after : AccountEntry) (owners : ThresholdPolicy)
    (auth : PolicyAuthorization) (height later cancelled_at : ℕ)
    → apply_policy_action formats account (AccountPolicyAction.start_recovery owners) auth height
      ≡ ok after
    → (state : ProgrammableAccount) × (recovery : RecoveryPolicy) × (account.programmable
        ≡ some state)
      × (state.policy.recovery ≡ some recovery)
      × (apply_policy_action formats after AccountPolicyAction.execute_recovery
            PolicyAuthorization.guardian later
          ≡ (if ltb later (height + recovery.delay_blocks)
              then refused "recovery timelock has not elapsed"
              else ok (record account { programmable = some (with_owners owners state) })))
      × ((cancelled : AccountEntry) × (apply_policy_action formats after
              AccountPolicyAction.cancel_recovery PolicyAuthorization.owner cancelled_at
            ≡ ok cancelled)
          × (apply_policy_action formats cancelled AccountPolicyAction.execute_recovery
                PolicyAuthorization.guardian later
              ≡ refused "no pending recovery"))
unfolding apply_policy_action manage
apply_policy_action-timelock formats account after owners auth height later cancelled_at h =
    let s = start-Started formats account after owners auth height h in
    (
      s.state,
      s.recovery,
      s.there,
      s.enabled,
      ground (arith, s.written),
      (
        record account { programmable = some (record s.state { pending_recovery = none }) },
        ground (arith, s.written),
        refl,
      ),
    )
