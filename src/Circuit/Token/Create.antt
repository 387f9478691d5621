-- ===== src/Circuit/Token/Create.antt =====
-- What the creation of a token does to the ledger of coins and to the new token's units.
use arxium.Prelude.{ℕ, ◌+◌, ◌-◌, ◌<◌, ◌≡◌, ◌≢◌, refl, arith, number_key, pair_key, ok}
use arxium.Prelude.Word.{u128_bound}
use arxium.Prelude.Map.{commit, commit-nil}
use arxium.Primitives.Address.{Address, AssetRef}
use arxium.Primitives.State.{AccountEntry, Asset, SystemAccounts}
use arxium.Circuit.View.{View, Reads, entry_in, read_account-entry_in}
use arxium.Circuit.Ledger.{Accounts, supply, supply-two, entry_in-two}
use arxium.Circuit.Updates.{AssetBalances, commit_balances}
use arxium.Circuit.Token.{
  TokenError, mint_into, mint_initial, charge_fee, charge_positive, apply_create,
}
use arxium.Circuit.Token.Units.{
  Holds, units_of, units_of-one, balance_of-units_of, each, tally-one, issued,
}

abbrev with_balance : AccountEntry → ℕ → AccountEntry
with_balance entry balance = record entry { balance = balance }

module _ (system : SystemAccounts) (view : View) (accounts : Accounts)
    (reads : Reads view accounts) where
  charge_fee-pays :
      (creator : Address) (fee : ℕ) {updates : Accounts}
      → creator ≢ system.treasury
      → (entry_in accounts system.treasury).balance + fee < u128_bound
      → charge_positive system view creator fee ≡ ok updates
      → (supply (commit updates accounts) ≡ supply accounts)
        × ((entry_in (commit updates accounts) creator).balance + fee
            ≡ (entry_in accounts creator).balance)
        × ((entry_in (commit updates accounts) system.treasury).balance
            ≡ (entry_in accounts system.treasury).balance + fee)
  unfolding charge_positive charge_fee
  charge_fee-pays creator fee other room h =
      let payer = entry_in accounts creator in
      let sink = entry_in accounts system.treasury in
      let paid = with_balance payer (payer.balance - fee) in
      let filled = with_balance sink (sink.balance + fee) in
      ground (
        arith,
        read_account-entry_in TokenError.storage view accounts creator reads,
        read_account-entry_in TokenError.storage view accounts system.treasury reads,
        supply-two creator system.treasury paid filled accounts,
        entry_in-two creator system.treasury creator paid filled accounts,
        entry_in-two creator system.treasury system.treasury paid filled accounts,
        commit-nil {V = AccountEntry} accounts,
      )

  mint_initial-effect :
      (asset : Asset) (balances : AssetBalances) (initial_supply : ℕ) {after : Asset}
      {units : AssetBalances}
      → Holds view balances
      → mint_initial view asset initial_supply ≡ ok (after, units)
      → let ref = asset.asset_ref in
        (after.total_supply ≡ asset.total_supply + initial_supply)
        × (issued ref (commit_balances units balances) ≡ issued ref balances + initial_supply)
        × (units_of ref asset.issuer (commit_balances units balances)
            ≡ units_of ref asset.issuer balances + initial_supply)
  unfolding mint_initial mint_into
  mint_initial-effect asset balances initial_supply holds h =
      let grown = units_of asset.asset_ref asset.issuer balances + initial_supply in
      ground (
        arith,
        balance_of-units_of view balances asset.asset_ref asset.issuer holds,
        tally-one each refl asset.asset_ref asset.issuer grown balances,
        units_of-one asset.asset_ref asset.issuer asset.issuer grown balances,
        commit-nil {K = AssetRef × Address} balances,
      )

  apply_create-eq-ok :
      (asset : Asset) (initial_supply fee : ℕ) {after : Asset} {updates : Accounts}
      {units : AssetBalances}
      → apply_create system view asset initial_supply fee ≡ ok (after, updates, units)
      → (mint_initial view asset initial_supply ≡ ok (after, units))
        × (charge_positive system view asset.issuer fee ≡ ok updates)
  unfolding apply_create
  apply_create-eq-ok asset initial_supply fee h = ground arith

  -- Where the creator is not the treasury, and the treasury's balance has room for the fee, a
  -- creation that succeeds moves exactly the fee from the creator to the treasury, keeps the supply
  -- of coins, and brings into being exactly the initial supply of units, all of it the creator's.
  pub apply_create-effect :
      (asset : Asset) (balances : AssetBalances) (initial_supply fee : ℕ) {after : Asset}
      {updates : Accounts} {units : AssetBalances}
      → Holds view balances
      → asset.issuer ≢ system.treasury
      → (entry_in accounts system.treasury).balance + fee < u128_bound
      → apply_create system view asset initial_supply fee ≡ ok (after, updates, units)
      → (supply (commit updates accounts) ≡ supply accounts)
        × ((entry_in (commit updates accounts) asset.issuer).balance + fee
            ≡ (entry_in accounts asset.issuer).balance)
        × ((entry_in (commit updates accounts) system.treasury).balance
            ≡ (entry_in accounts system.treasury).balance + fee)
        × (after.total_supply ≡ asset.total_supply + initial_supply)
        × (issued asset.asset_ref (commit_balances units balances)
            ≡ issued asset.asset_ref balances + initial_supply)
        × (units_of asset.asset_ref asset.issuer (commit_balances units balances)
            ≡ units_of asset.asset_ref asset.issuer balances + initial_supply)
  apply_create-effect asset balances initial_supply fee holds other room h =
      let parts = apply_create-eq-ok asset initial_supply fee h in
      ground (
        arith,
        charge_fee-pays asset.issuer fee other room parts.1,
        mint_initial-effect asset balances initial_supply holds parts.0,
      )
