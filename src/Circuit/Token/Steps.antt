-- ===== src/Circuit/Token/Steps.antt =====
-- One committed token operation, what its success means, and runs of them.
use arxium.Prelude.{ℕ, ◌+◌, ◌-◌, ◌≤◌, ◌≡◌, ◌≢◌, ◌⊎◌, true, false, [], arith, number_key, ok}
use arxium.Primitives.Address.{Address}
use arxium.Primitives.State.{Asset}
use arxium.Circuit.View.{View}
use arxium.Circuit.Updates.{AssetBalances, put_balance, commit_balances}
use arxium.Circuit.Token.{
  track_holder, over_cap, one_balance, mint_into, apply_mint, move, apply_transfer, apply_burn,
  apply_renounce_mint,
}
use arxium.Circuit.Token.Units.{Holds, units_of, balance_of-units_of, issued}

-- One committed operation on a token and its balances.
pub data Step (asset : Asset) (balances : AssetBalances) : Asset → AssetBalances → Type 0 where
  mint :
      (view : View) (sender to : Address) (amount : ℕ) {after : Asset} {updates : AssetBalances}
      → Holds view balances
      → apply_mint view asset sender to amount ≡ ok (after, updates)
      → Step asset balances after (commit_balances updates balances)
  transfer :
      (view : View) (sender to : Address) (amount : ℕ) {after : Asset} {updates : AssetBalances}
      → Holds view balances
      → apply_transfer view asset sender to amount ≡ ok (after, updates)
      → Step asset balances after (commit_balances updates balances)
  burn :
      (view : View) (holder : Address) (amount : ℕ) {after : Asset} {updates : AssetBalances}
      → Holds view balances
      → apply_burn view asset holder amount ≡ ok (after, updates)
      → Step asset balances after (commit_balances updates balances)
  renounce :
      (sender : Address) {after : Asset}
      → apply_renounce_mint asset sender ≡ ok after
      → Step asset balances after balances

-- Any number of them.
pub data Run (asset : Asset) (balances : AssetBalances) : Asset → AssetBalances → Type 0 where
  none_yet : Run asset balances asset balances
  then_step :
      {middle after : Asset} {between units : AssetBalances}
      → Run asset balances middle between
      → Step middle between after units
      → Run asset balances after units

-- The record counts the units that exist, and they are within the cap.
pub record Sound (asset : Asset) (balances : AssetBalances) : Type 0 where
  pub counted : issued asset.asset_ref balances ≡ asset.total_supply
  pub capped : over_cap asset.max_supply asset.total_supply ≡ false

module _ (view : View) (asset : Asset) (balances : AssetBalances) (holds : Holds view balances)
    {after : Asset} {updates : AssetBalances} where
  pub apply_mint-eq-ok :
      (sender to : Address) (amount : ℕ)
      → apply_mint view asset sender to amount ≡ ok (after, updates)
      → let before = units_of asset.asset_ref to balances in
        (sender ≡ asset.issuer)
        × (asset.issuance_locked ≡ false)
        × (over_cap asset.max_supply (asset.total_supply + amount) ≡ false)
        × (after
            ≡ track_holder before
                (before + amount)
                (record asset { total_supply = asset.total_supply + amount }))
        × (updates ≡ one_balance asset.asset_ref to (before + amount))
  unfolding apply_mint mint_into
  apply_mint-eq-ok sender to amount h =
      ground (arith, h, balance_of-units_of view balances asset.asset_ref to holds)

  pub apply_transfer-eq-ok :
      (sender to : Address) (amount : ℕ)
      → apply_transfer view asset sender to amount ≡ ok (after, updates)
      → let from = units_of asset.asset_ref sender balances in
        let receiver = units_of asset.asset_ref to balances in
        (amount ≤ from)
        × ((sender ≡ to) × (after ≡ asset) × (updates ≡ [])
            ⊎ (sender ≢ to)
              × (after
                  ≡ track_holder receiver
                      (receiver + amount)
                      (track_holder from (from - amount) asset))
              × (updates
                  ≡ put_balance asset.asset_ref to
                      (receiver + amount)
                      (one_balance asset.asset_ref sender (from - amount))))
  unfolding apply_transfer move
  apply_transfer-eq-ok sender to amount h = ground (
    arith,
    h,
    balance_of-units_of view balances asset.asset_ref sender holds,
    balance_of-units_of view balances asset.asset_ref to holds,
  )

  pub apply_burn-eq-ok :
      (holder : Address) (amount : ℕ)
      → apply_burn view asset holder amount ≡ ok (after, updates)
      → let held = units_of asset.asset_ref holder balances in
        (amount ≤ held)
        × (after
            ≡ track_holder held
                (held - amount)
                (record asset { total_supply = asset.total_supply - amount }))
        × (updates ≡ one_balance asset.asset_ref holder (held - amount))
  unfolding apply_burn
  apply_burn-eq-ok holder amount h =
      ground (arith, h, balance_of-units_of view balances asset.asset_ref holder holds)

pub apply_renounce_mint-eq-ok :
    (asset : Asset) (sender : Address) {after : Asset}
    → apply_renounce_mint asset sender ≡ ok after
    → after ≡ record asset { issuance_locked = true }
unfolding apply_renounce_mint
apply_renounce_mint-eq-ok asset sender h = ground (arith, h)
