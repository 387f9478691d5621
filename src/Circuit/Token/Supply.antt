-- ===== src/Circuit/Token/Supply.antt =====
-- The supply of a token along any run of its operations.
use arxium.Prelude.{
  ℕ, ◌+◌, ◌-◌, ◌≤◌, ◌≡◌, ◌⊎◌, refl, true, false, Option, none, some, arith, number_key, pair_key,
  ok,
}
use arxium.Prelude.Map.{commit-nil}
use arxium.Primitives.Address.{Address, AssetRef}
use arxium.Primitives.State.{Asset}
use arxium.Circuit.View.{View}
use arxium.Circuit.Updates.{AssetBalances, commit_balances}
use arxium.Circuit.Token.{over_cap, apply_transfer}
use arxium.Circuit.Token.Units.{Holds, units_of, units_of-two, each, tally-one, tally-two, issued}
use arxium.Circuit.Token.Steps.{
  Step, Run, Sound, apply_mint-eq-ok, apply_transfer-eq-ok, apply_burn-eq-ok,
  apply_renounce_mint-eq-ok,
}

-- What an operation leaves alone, and that a renounced supply does not grow.
abbrev Keeps : Asset → Asset → Type 0
Keeps asset after =
    (after.asset_ref ≡ asset.asset_ref)
    × (after.max_supply ≡ asset.max_supply)
    × (after.issuer ≡ asset.issuer)
    × (asset.issuance_locked ≡ true
        → (after.issuance_locked ≡ true) × (after.total_supply ≤ asset.total_supply))

Step-Keeps :
    {asset after : Asset} {balances units : AssetBalances}
    → Step asset balances after units
    → Keeps asset after
Step-Keeps {asset = asset} {balances = balances} (Step.mint view sender to amount holds h) =
    ground (arith, apply_mint-eq-ok view asset balances holds sender to amount h)
Step-Keeps {asset = asset} {balances = balances} (Step.transfer view sender to amount holds h) =
    ground (arith, apply_transfer-eq-ok view asset balances holds sender to amount h)
Step-Keeps {asset = asset} {balances = balances} (Step.burn view holder amount holds h) =
    ground (arith, apply_burn-eq-ok view asset balances holds holder amount h)
Step-Keeps {asset = asset} (Step.renounce sender h) =
    ground (arith, apply_renounce_mint-eq-ok asset sender h)

lower_cap :
    (cap : Option ℕ) (total less : ℕ)
    → less ≤ total
    → over_cap cap total ≡ false
    → over_cap cap less ≡ false
lower_cap none total less h k = refl
lower_cap (some cap) total less h k = ground arith

Step-Sound :
    {asset after : Asset} {balances units : AssetBalances}
    → Step asset balances after units
    → Sound asset balances
    → Sound after units
Step-Sound {asset = asset} {balances = balances} (Step.mint view sender to amount holds h) sound =
    ground (
      arith,
      apply_mint-eq-ok view asset balances holds sender to amount h,
      sound.counted,
      tally-one (each) refl asset.asset_ref to (units_of asset.asset_ref to balances + amount)
          balances,
    )
Step-Sound {asset = asset} {balances = balances} (Step.transfer view sender to amount holds h)
      sound =
    ground (
      arith,
      apply_transfer-eq-ok view asset balances holds sender to amount h,
      sound.counted,
      sound.capped,
      tally-two each refl asset.asset_ref sender to
          (units_of asset.asset_ref sender balances - amount)
          (units_of asset.asset_ref to balances + amount) balances,
      commit-nil {K = AssetRef × Address} balances,
    )
Step-Sound {asset = asset} {balances = balances} (Step.burn view holder amount holds h) sound =
    ground (
      arith,
      apply_burn-eq-ok view asset balances holds holder amount h,
      sound.counted,
      tally-one each refl asset.asset_ref holder (units_of asset.asset_ref holder balances - amount)
          balances,
      lower_cap asset.max_supply asset.total_supply (asset.total_supply - amount) (omega arith)
          sound.capped,
    )
Step-Sound {asset = asset} (Step.renounce sender h) sound =
    ground (arith, apply_renounce_mint-eq-ok asset sender h, sound.counted, sound.capped)

-- Where a token's total supply is the sum of all balances of it and within its cap, it stays so along
-- every run of mints, transfers, burns and renouncements, in any order and each committed before the
-- next.
pub Run-Sound :
    {asset : Asset} {balances : AssetBalances} {after : Asset} {units : AssetBalances}
    → Run asset balances after units
    → Sound asset balances
    → Sound after units
Run-Sound Run.none_yet sound = sound
Run-Sound (Run.then_step run step) sound = Step-Sound step (Run-Sound run sound)

-- Once minting is renounced, no run of operations makes the total supply grow or minting possible
-- again, and the asset keeps its reference, its cap and its issuer.
pub Run-renounced :
    {asset : Asset} {balances : AssetBalances} {after : Asset} {units : AssetBalances}
    → Run asset balances after units
    → asset.issuance_locked ≡ true
    → (after.issuance_locked ≡ true)
      × (after.total_supply ≤ asset.total_supply)
      × (after.asset_ref ≡ asset.asset_ref)
      × (after.max_supply ≡ asset.max_supply)
      × (after.issuer ≡ asset.issuer)
Run-renounced Run.none_yet locked = ground arith
Run-renounced {asset = asset} {after = after} (Run.then_step {middle = middle} run step) locked =
    ground (arith, Run-renounced run locked, Step-Keeps step)

-- A transfer of tokens that succeeds leaves how many units of the asset exist, and moves exactly
-- `amount` units between two different owners.
pub apply_transfer-issued :
    (view : View) (asset : Asset) (balances : AssetBalances) (sender to : Address) (amount : ℕ)
    {after : Asset} {updates : AssetBalances}
    → Holds view balances
    → apply_transfer view asset sender to amount ≡ ok (after, updates)
    → let ref = asset.asset_ref in
      let moved = commit_balances updates balances in
      (issued ref moved ≡ issued ref balances)
      × ((sender ≡ to)
          ⊎ (units_of ref sender moved + amount ≡ units_of ref sender balances)
            × (units_of ref to moved ≡ units_of ref to balances + amount))
apply_transfer-issued view asset balances sender to amount holds h = ground (
  arith,
  apply_transfer-eq-ok view asset balances holds sender to amount h,
  tally-two each refl asset.asset_ref sender to (units_of asset.asset_ref sender balances - amount)
      (units_of asset.asset_ref to balances + amount) balances,
  commit-nil {K = AssetRef × Address} balances,
  units_of-two asset.asset_ref sender to sender (units_of asset.asset_ref sender balances - amount)
      (units_of asset.asset_ref to balances + amount) balances,
  units_of-two asset.asset_ref sender to to (units_of asset.asset_ref sender balances - amount)
      (units_of asset.asset_ref to balances + amount) balances,
)
