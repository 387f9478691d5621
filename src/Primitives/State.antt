-- ===== src/Primitives/State.antt =====
-- core/primitives/src/state.rs: the records that a block reads and writes.
use arxium.Prelude.{ℕ, String, Bool, false, Option, none, List, []}
use arxium.Primitives.Address.{Address, AssetRef}
use arxium.Primitives.Policy.{ProgrammableAccount}

pub data ClaimTopic : Type 0 where
  kyc aml accredited jurisdiction : ClaimTopic

pub record AccountEntry : Type 0 where
  pub balance : ℕ
  pub nonce : ℕ
  pub identity_hash : Option String
  pub zk_identity_verified : Bool
  pub attested_by : Option Address
  pub claims : List ClaimTopic
  pub jurisdiction : Option String
  pub attested_at : Option ℕ
  pub programmable : Option ProgrammableAccount

-- `AccountEntry::default()`
abbrev pub default_entry : AccountEntry
default_entry = record {
  balance = 0;
  nonce = 0;
  identity_hash = none;
  zk_identity_verified = false;
  attested_by = none;
  claims = [];
  jurisdiction = none;
  attested_at = none;
  programmable = none;
}

pub record Unbonding : Type 0 where
  pub amount : ℕ
  pub unlock_at_height : ℕ

pub record StakeAllocation : Type 0 where
  pub master : Address
  pub validator : Address
  pub active_amount : ℕ
  pub unbonding : Option Unbonding
  pub created_at : ℕ
  pub updated_at : ℕ

-- The addresses that are hashes (`stake_subaccount`, `reward_pool_account`, `treasury_account`).
-- SHA-256 and bech32 are not the repository's code, so the addresses are given.
pub record SystemAccounts : Type 0 where
  pub stake_subaccount : Address → Address
  pub reward_pool : Address
  pub treasury : Address

pub data AssetClass : Type 0 where
  other real_estate equity bond stablecoin commodity token : AssetClass

-- `holders` is a cap table's list of addresses and units.
pub record CapTable : Type 0 where
  pub height : ℕ
  pub total : ℕ
  pub holders : List (Address × ℕ)

pub record Asset : Type 0 where
  pub asset_id : String
  pub issuer : Address
  pub compliance_required : Bool
  pub asset_class : AssetClass
  pub decimals : ℕ
  pub required_claims : List ClaimTopic
  pub allowed_jurisdictions : Option (List String)
  pub max_supply : Option ℕ
  pub total_supply : ℕ
  pub frozen : Bool
  pub metadata_uri : Option String
  pub registered_at : ℕ
  pub symbol : String
  pub name : String
  pub asset_ref : AssetRef
  pub issuance_locked : Bool
  pub max_holders : Option ℕ
  pub max_balance_per_holder : Option ℕ
  pub max_attestation_age : Option ℕ
  pub holder_count : ℕ
  pub snapshot : Option CapTable
  pub private_claims : Bool
