-- ===== src/Circuit/Token/Holders.antt =====
-- The record's count of holders.
use arxium.Prelude.{◌+◌, ◌-◌, ◌<◌, ◌≡◌, refl, arith, number_key, pair_key}
use arxium.Prelude.Word.{u32_bound}
use arxium.Prelude.Map.{commit-nil}
use arxium.Primitives.Address.{Address, AssetRef}
use arxium.Primitives.State.{Asset}
use arxium.Circuit.Updates.{AssetBalances}
use arxium.Circuit.Token.Units.{units_of, tally-one, tally-two, present, holders}
use arxium.Circuit.Token.Steps.{
  Step, apply_mint-eq-ok, apply_transfer-eq-ok, apply_burn-eq-ok, apply_renounce_mint-eq-ok,
}

-- While the count has room in u32, every operation keeps it equal to the number of owners whose
-- balance of the asset is not 0.
pub Step-holders :
    {asset after : Asset} {balances units : AssetBalances}
    → Step asset balances after units
    → holders asset.asset_ref balances ≡ asset.holder_count
    → asset.holder_count + 1 < u32_bound
    → holders after.asset_ref units ≡ after.holder_count
Step-holders {asset = asset} {balances = balances} (Step.mint view sender to amount holds h) count
      room =
    ground (
      arith,
      apply_mint-eq-ok view asset balances holds sender to amount h,
      tally-one present refl asset.asset_ref to (units_of asset.asset_ref to balances + amount)
          balances,
    )
Step-holders {asset = asset} {balances = balances} (Step.transfer view sender to amount holds h)
      count room =
    ground (
      arith,
      apply_transfer-eq-ok view asset balances holds sender to amount h,
      tally-two present refl asset.asset_ref sender to
          (units_of asset.asset_ref sender balances - amount)
          (units_of asset.asset_ref to balances + amount) balances,
      tally-one present refl asset.asset_ref sender 0 balances,
      commit-nil {K = AssetRef × Address} balances,
    )
Step-holders {asset = asset} {balances = balances} (Step.burn view holder amount holds h) count
      room =
    ground (
      arith,
      apply_burn-eq-ok view asset balances holds holder amount h,
      tally-one present refl asset.asset_ref holder
          (units_of asset.asset_ref holder balances - amount) balances,
    )
Step-holders {asset = asset} (Step.renounce sender h) count room =
    ground (arith, apply_renounce_mint-eq-ok asset sender h)
