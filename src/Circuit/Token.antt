-- ===== src/Circuit/Token.antt =====
-- circuits/token/src/lib.rs: tokens. An operation that changes the `&mut Asset` returns it beside the
-- balances; after an error the caller drops the record, so an error carries none.
pub mod Create
pub mod Units
pub mod Steps
pub mod Supply
pub mod Holders
mod Tests
use arxium.Prelude.{
  ℕ, ◌-◌, Bool, true, false, not, ◌&&◌, Option, none, some, [], ltb, ◌==◌, number_key, pair_key,
  if◌then◌else◌, unwrap_or, Result, ok, err, map_err, reject_if, ◌>>=◌, ◌>>◌,
}
use arxium.Prelude.Word.{
  u32_bound, u128_bound, checked_add, checked_sub, saturating_add, saturating_sub,
}
use arxium.Prelude.Map.{insert}
use arxium.Primitives.Address.{Address, AssetRef}
use arxium.Primitives.State.{AccountEntry, Asset, AssetClass, SystemAccounts}
use arxium.Circuit.View.{View, StorageError, read_account}
use arxium.Circuit.Ledger.{Accounts}
use arxium.Circuit.Updates.{AssetBalances, put_balance}

pub data TokenError : Type 0 where
  storage : StorageError → TokenError
  not_a_token : AssetRef → TokenError
  not_creator : AssetRef → Address → Address → TokenError
  mint_renounced : AssetRef → TokenError
  zero_amount empty_fixed_supply : TokenError
  supply_cap_exceeded : AssetRef → ℕ → ℕ → ℕ → TokenError
  supply_overflow : AssetRef → TokenError
  insufficient_balance : AssetRef → Address → ℕ → ℕ → TokenError
  cannot_pay_create_fee : Address → ℕ → ℕ → TokenError

-- `asset_class == AssetClass::Token`
abbrev pub is_token : AssetClass → Bool
is_token AssetClass.token = true
is_token AssetClass.other = false
is_token AssetClass.real_estate = false
is_token AssetClass.equity = false
is_token AssetClass.bond = false
is_token AssetClass.stablecoin = false
is_token AssetClass.commodity = false

abbrev pub require_token : Asset → Result TokenError (Unit {0})
require_token asset =
    reject_if (not (is_token asset.asset_class)) (TokenError.not_a_token asset.asset_ref)

abbrev pub require_creator : Asset → Address → Result TokenError (Unit {0})
require_creator asset sender =
    reject_if (not (sender == asset.issuer))
      (TokenError.not_creator asset.asset_ref asset.issuer sender)

-- `unwrap_or(0)` of a stored balance
unfoldable pub stored : Option ℕ → ℕ
stored none = 0
stored (some balance) = balance

pub balance_of : View → AssetRef → Address → Result TokenError ℕ
balance_of view asset owner = do
  found ← map_err TokenError.storage (view.asset_balance asset owner)
  ok (stored found)

abbrev pub tracked : ℕ → ℕ → ℕ → ℕ
tracked before after count =
    if before == 0 && not (after == 0)
    then saturating_add u32_bound count 1
    else if not (before == 0) && after == 0
    then saturating_sub count 1
    else count

abbrev pub track_holder : ℕ → ℕ → Asset → Asset
track_holder before after asset = record asset {
  holder_count = tracked before after asset.holder_count;
}

-- `checked_add(..).ok_or_else(overflow)`
abbrev pub add_units : AssetRef → ℕ → ℕ → Result TokenError ℕ
add_units asset a b = elim (checked_add u128_bound a b) [
  | none ↦ err (TokenError.supply_overflow asset)
  | some total ↦ ok total
]

abbrev pub over_cap : Option ℕ → ℕ → Bool
over_cap none resulting = false
over_cap (some cap) resulting = ltb cap resulting

abbrev pub one_balance : AssetRef → Address → ℕ → AssetBalances
one_balance asset owner balance = put_balance asset owner balance []

pub mint_into : View → Asset → Address → ℕ → Result TokenError (Asset × AssetBalances)
mint_into view asset to amount = do
  resulting ← add_units asset.asset_ref asset.total_supply amount
  reject_if (over_cap asset.max_supply resulting)
      (TokenError.supply_cap_exceeded asset.asset_ref (stored asset.max_supply) resulting amount)
  before ← balance_of view asset.asset_ref to
  after ← add_units asset.asset_ref before amount
  ok (
    track_holder before after (record asset { total_supply = resulting }),
    one_balance asset.asset_ref to after,
  )

-- The creation fee, from the creator to the treasury. `BTreeMap::insert` of the treasury's row comes
-- last, so it wins where the creator is the treasury.
pub charge_fee : SystemAccounts → View → Address → ℕ → Result TokenError Accounts
charge_fee system view creator create_fee = do
  payer ← read_account TokenError.storage view creator
  balance ← elim (checked_sub payer.balance create_fee) [
    | none ↦ err (TokenError.cannot_pay_create_fee creator payer.balance create_fee)
    | some rest ↦ ok rest
  ]
  sink ← read_account TokenError.storage view system.treasury
  ok (
      insert system.treasury
        (record sink { balance = saturating_add u128_bound sink.balance create_fee })
        (insert creator (record payer { balance = balance }) []))

-- The two parts of a creation, each left out at 0.
pub mint_initial : View → Asset → ℕ → Result TokenError (Asset × AssetBalances)
mint_initial view asset initial_supply =
    if ltb 0 initial_supply
    then mint_into view asset asset.issuer initial_supply
    else ok (asset, [])

pub charge_positive : SystemAccounts → View → Address → ℕ → Result TokenError Accounts
charge_positive system view creator create_fee =
    if ltb 0 create_fee then charge_fee system view creator create_fee else ok []

pub apply_create :
    SystemAccounts → View → Asset → ℕ → ℕ → Result TokenError (Asset × Accounts × AssetBalances)
apply_create system view asset initial_supply create_fee = do
  require_token asset
  reject_if (initial_supply == 0 && asset.issuance_locked) TokenError.empty_fixed_supply
  minted ← mint_initial view asset initial_supply
  accounts ← charge_positive system view asset.issuer create_fee
  ok (minted.0, accounts, minted.1)

pub apply_mint : View → Asset → Address → Address → ℕ → Result TokenError (Asset × AssetBalances)
apply_mint view asset sender to amount = do
  require_token asset
  require_creator asset sender
  reject_if asset.issuance_locked (TokenError.mint_renounced asset.asset_ref)
  reject_if (amount == 0) TokenError.zero_amount
  mint_into view asset to amount

-- What is left to check and write once the sender's balance is known to be enough.
pub move : View → Asset → Address → ℕ → Address → ℕ → Result TokenError (Asset × AssetBalances)
move view asset sender from_balance to amount = if sender == to then ok (asset, []) else (do
  to_balance ← balance_of view asset.asset_ref to
  to_after ← add_units asset.asset_ref to_balance amount
  ok (
    track_holder to_balance to_after (track_holder from_balance (from_balance - amount) asset),
    put_balance asset.asset_ref to to_after
        (one_balance asset.asset_ref sender (from_balance - amount)),
  ))

pub apply_transfer :
    View → Asset → Address → Address → ℕ → Result TokenError (Asset × AssetBalances)
apply_transfer view asset sender to amount = do
  require_token asset
  reject_if (amount == 0) TokenError.zero_amount
  from_balance ← balance_of view asset.asset_ref sender
  reject_if (ltb from_balance amount)
      (TokenError.insufficient_balance asset.asset_ref sender from_balance amount)
  move view asset sender from_balance to amount

pub apply_burn : View → Asset → Address → ℕ → Result TokenError (Asset × AssetBalances)
apply_burn view asset holder amount = do
  require_token asset
  reject_if (amount == 0) TokenError.zero_amount
  balance ← balance_of view asset.asset_ref holder
  reject_if (ltb balance amount)
      (TokenError.insufficient_balance asset.asset_ref holder balance amount)
  ok (
    track_holder balance (balance - amount)
        (record asset { total_supply = saturating_sub asset.total_supply amount }),
    one_balance asset.asset_ref holder (balance - amount),
  )

pub apply_renounce_mint : Asset → Address → Result TokenError Asset
apply_renounce_mint asset sender = do
  require_token asset
  require_creator asset sender
  ok (record asset { issuance_locked = true })
