-- ===== src/Primitives/PolicyRules.antt =====
-- core/primitives/src/policy.rs: what a stored policy must satisfy. The text forms of addresses and
-- asset references (bech32) and ed25519 keys are other packages' code, so whether each is canonical
-- is an argument, `Formats`.
use arxium.Prelude.{
  Bool, true, false, not, ◌&&◌, ◌||◌, Option, none, some, List, [], ◌∷◌, ltb, ◌==◌, number_key, Key,
  any, length, Result, ok, reject_if, ◌>>=◌, ◌>>◌, ◌↔◌, ◌≡◌, arith,
}
use arxium.Primitives.Address.{Address, AssetRef, PublicKey}
use arxium.Primitives.Action.{SignatureError}
use arxium.Primitives.Attestor.{Keys, ascending, multisig_address}
use arxium.Primitives.Policy.{
  ThresholdPolicy, SpendAsset, SpendingLimit, SessionKey, RecoveryPolicy, AccountPolicy,
}

-- `validate_account_address`, the length and canonical form of an asset reference, and that a
-- public key decodes and is not weak.
pub record Formats : Type 0 where
  pub keys : Keys
  pub validate_account_address : Address → Result SignatureError (Unit {0})
  pub canonical_asset : AssetRef → Result SignatureError (Unit {0})
  pub usable_key : PublicKey → Bool

-- The derived equality of `SpendAsset`.
abbrev pub same_asset : SpendAsset → SpendAsset → Bool
same_asset SpendAsset.native SpendAsset.native = true
same_asset SpendAsset.native (SpendAsset.asset b) = false
same_asset (SpendAsset.asset a) SpendAsset.native = false
same_asset (SpendAsset.asset a) (SpendAsset.asset b) = a == b

pub same_asset_iff : (a b : SpendAsset) → (same_asset a b ≡ true) ↔ (a ≡ b)
same_asset_iff a b = ground arith

instance abbrev pub asset_key : Key SpendAsset
asset_key = record { same = same_asset; same_iff = same_asset_iff }

abbrev usable_keys : Formats → List PublicKey → Result SignatureError (Unit {0})
usable_keys formats [] = ok tt
usable_keys formats (member ∷ members) =
    reject_if (not (formats.usable_key member)) SignatureError.invalid
    >> usable_keys formats members

unfoldable pub validate_threshold : Formats → ThresholdPolicy → Result SignatureError (Unit {0})
validate_threshold formats policy = do
  reject_if (not (ascending policy.members))
      (SignatureError.bad_multisig "members must be unique and ascending")
  derived ← multisig_address formats.keys policy.threshold policy.members
  usable_keys formats policy.members

abbrev pub validate_asset : Formats → SpendAsset → Result SignatureError (Unit {0})
validate_asset formats SpendAsset.native = ok tt
validate_asset formats (SpendAsset.asset asset) = formats.canonical_asset asset

-- The limits in order; `earlier` are those before, in any order.
unfoldable pub validate_limits :
    Formats → List SpendingLimit → List SpendingLimit → Result SignatureError (Unit {0})
validate_limits formats earlier [] = ok tt
validate_limits formats earlier (limit ∷ limits) = do
  validate_asset formats limit.asset
  reject_if
      (limit.period_blocks == 0 || any (λ (l : SpendingLimit). l.asset == limit.asset) earlier)
      (SignatureError.bad_multisig "invalid or duplicate spending limit")
  validate_limits formats (limit ∷ earlier) limits

abbrev canonical_all : Formats → List Address → Result SignatureError (Unit {0})
canonical_all formats [] = ok tt
canonical_all formats (address ∷ addresses) =
    formats.validate_account_address address >> canonical_all formats addresses

unfoldable pub validate_recipients : Formats → List Address → Result SignatureError (Unit {0})
validate_recipients formats addresses = do
  reject_if (ltb 64 (length addresses) || not (ascending addresses))
      (SignatureError.bad_multisig "recipients must be bounded, unique and ascending")
  canonical_all formats addresses

unfoldable pub validate_sessions :
    Formats → List SessionKey → List SessionKey → Result SignatureError (Unit {0})
validate_sessions formats earlier [] = ok tt
validate_sessions formats earlier (session ∷ sessions) = do
  validate_asset formats session.asset
  validate_recipients formats session.recipients
  validate_threshold formats (record { threshold = 1; members = session.public_key ∷ [] })
  reject_if (any (λ (s : SessionKey). s.public_key == session.public_key) earlier)
      (SignatureError.bad_multisig "duplicate session key")
  validate_sessions formats (session ∷ earlier) sessions

abbrev validate_allowlist : Formats → Option (List Address) → Result SignatureError (Unit {0})
validate_allowlist formats none = ok tt
validate_allowlist formats (some addresses) = validate_recipients formats addresses

abbrev validate_recovery : Formats → Option RecoveryPolicy → Result SignatureError (Unit {0})
validate_recovery formats none = ok tt
validate_recovery formats (some recovery) = do
  validate_threshold formats recovery.guardians
  reject_if (recovery.delay_blocks == 0)
      (SignatureError.bad_multisig "recovery delay must be positive")

unfoldable pub validate_policy : Formats → AccountPolicy → Result SignatureError (Unit {0})
validate_policy formats policy = do
  validate_threshold formats policy.owners
  reject_if (ltb 16 (length policy.limits) || ltb 16 (length policy.sessions))
      (SignatureError.bad_multisig "policy exceeds bounded menu")
  validate_limits formats [] policy.limits
  validate_allowlist formats policy.recipients
  validate_sessions formats [] policy.sessions
  reject_if
      (not (length policy.sessions == 0)
        && not (any (λ (l : SpendingLimit). l.asset == SpendAsset.native) policy.limits))
      (SignatureError.bad_multisig "session keys require a native spending limit to bound fees")
  validate_recovery formats policy.recovery
