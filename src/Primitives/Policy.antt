-- ===== src/Primitives/Policy.antt =====
-- core/primitives/src/policy.rs: the stored menu of a programmable account, and its actions.
use arxium.Prelude.{ℕ, Option, List}
use arxium.Primitives.Address.{Address, AssetRef, PublicKey}

pub record ThresholdPolicy : Type 0 where
  pub threshold : ℕ
  pub members : List PublicKey

pub data SpendAsset : Type 0 where
  native : SpendAsset
  asset : AssetRef → SpendAsset

pub record SpendingLimit : Type 0 where
  pub asset : SpendAsset
  pub period_blocks : ℕ
  pub amount : ℕ

pub record SpendCounter : Type 0 where
  pub asset : SpendAsset
  pub window : ℕ
  pub spent : ℕ

pub record SessionKey : Type 0 where
  pub public_key : PublicKey
  pub expires_at : ℕ
  pub asset : SpendAsset
  pub allowance : ℕ
  pub recipients : List Address

pub record RecoveryPolicy : Type 0 where
  pub guardians : ThresholdPolicy
  pub delay_blocks : ℕ

pub record PendingRecovery : Type 0 where
  pub owners : ThresholdPolicy
  pub execute_after : ℕ

pub record AccountPolicy : Type 0 where
  pub owners : ThresholdPolicy
  pub limits : List SpendingLimit
  pub recipients : Option (List Address)
  pub sessions : List SessionKey
  pub recovery : Option RecoveryPolicy

pub record ProgrammableAccount : Type 0 where
  pub policy : AccountPolicy
  pub counters : List SpendCounter
  pub pending_recovery : Option PendingRecovery

pub data AccountPolicyAction : Type 0 where
  set_policy : AccountPolicy → AccountPolicyAction
  rotate_members : ThresholdPolicy → AccountPolicyAction
  add_session : SessionKey → AccountPolicyAction
  revoke_session : PublicKey → AccountPolicyAction
  start_recovery : ThresholdPolicy → AccountPolicyAction
  cancel_recovery : AccountPolicyAction
  execute_recovery : AccountPolicyAction

pub data PolicyAuthorization : Type 0 where
  owner : PolicyAuthorization
  session : ℕ → PolicyAuthorization
  guardian : PolicyAuthorization
