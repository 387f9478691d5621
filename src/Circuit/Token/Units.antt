-- ===== src/Circuit/Token/Units.antt =====
-- The committed balances of an asset: its issued units and its holders, and what a write does to each.
use arxium.Prelude.{ℕ, ◌+◌, ◌≡◌, ◌≢◌, [], arith, ◌==◌, number_key, pair_key, if◌then◌else◌, ok}
use arxium.Prelude.Map.{commit-nil, get-commit-insert}
use arxium.Prelude.Ledger.{sum_of, sum_of-commit-insert}
use arxium.Primitives.Address.{Address, AssetRef}
use arxium.Circuit.View.{View}
use arxium.Circuit.Updates.{AssetBalances, balance_in, put_balance, commit_balances}
use arxium.Circuit.Token.{stored, balance_of, one_balance}

-- The view's balance rows are those of a map.
pub record Holds (view : View) (balances : AssetBalances) : Type 0 where
  pub at :
      (asset : AssetRef) (owner : Address)
      → view.asset_balance asset owner ≡ ok (balance_in asset owner balances)

unfoldable pub units_of : AssetRef → Address → AssetBalances → ℕ
units_of asset owner balances = stored (balance_in asset owner balances)

pub balance_of-units_of :
    (view : View) (balances : AssetBalances) (asset : AssetRef) (owner : Address)
    → Holds view balances
    → balance_of view asset owner ≡ ok (units_of asset owner balances)
unfolding balance_of units_of
balance_of-units_of view balances asset owner holds = rw (holds.at asset owner)

-- The sum of a weight over the balances of an asset.
abbrev weigh : (ℕ → ℕ) → AssetRef → AssetRef × Address → ℕ → ℕ
weigh weight asset key balance = if key.0 == asset then weight balance else 0

unfoldable pub tally : (ℕ → ℕ) → AssetRef → AssetBalances → ℕ
tally weight asset = sum_of {K = AssetRef × Address} (weigh weight asset)

abbrev pub each : ℕ → ℕ
each balance = balance

abbrev pub present : ℕ → ℕ
present balance = if balance == 0 then 0 else 1

-- All units that exist, and the number of owners that have any.
abbrev pub issued : AssetRef → AssetBalances → ℕ
issued = tally each

abbrev pub holders : AssetRef → AssetBalances → ℕ
holders = tally present

pub units_of-write :
    (asset : AssetRef) (a b : Address) (balance : ℕ) (updates balances : AssetBalances)
    → units_of asset b (commit_balances (put_balance asset a balance updates) balances)
      ≡ (if a == b then balance else units_of asset b (commit_balances updates balances))
unfolding units_of stored
units_of-write asset a b balance updates balances = ground (
  arith,
  get-commit-insert {K = AssetRef × Address} (asset, a) (asset, b) balance updates balances,
)

pub units_of-one :
    (asset : AssetRef) (a b : Address) (balance : ℕ) (balances : AssetBalances)
    → units_of asset b (commit_balances (one_balance asset a balance) balances)
      ≡ (if a == b then balance else units_of asset b balances)
units_of-one asset a b balance balances = ground (
  arith,
  units_of-write asset a b balance [] balances,
  commit-nil {K = AssetRef × Address} balances,
)

pub units_of-two :
    (asset : AssetRef) (a b c : Address) (balance_a balance_b : ℕ) (balances : AssetBalances)
    → units_of asset c
        (commit_balances (put_balance asset b balance_b (one_balance asset a balance_a)) balances)
      ≡ (if b == c then balance_b else if a == c then balance_a else units_of asset c balances)
units_of-two asset a b c balance_a balance_b balances = ground (
  arith,
  units_of-write asset b c balance_b (one_balance asset a balance_a) balances,
  units_of-one asset a c balance_a balances,
)

module _ (weight : ℕ → ℕ) (nothing : weight 0 ≡ 0) where
  tally-write :
      (asset : AssetRef) (a : Address) (balance : ℕ) (updates balances : AssetBalances)
      → tally weight asset (commit_balances (put_balance asset a balance updates) balances)
          + weight (units_of asset a (commit_balances updates balances))
        ≡ tally weight asset (commit_balances updates balances) + weight balance
  unfolding tally units_of stored
  tally-write asset a balance updates balances = ground (
    arith,
    nothing,
    sum_of-commit-insert {K = AssetRef × Address} (weigh weight asset) (asset, a) balance updates
        balances,
  )

  tally-write_other :
      (asset other : AssetRef) (a : Address) (balance : ℕ) (updates balances : AssetBalances)
      → other ≢ asset
      → tally weight other (commit_balances (put_balance asset a balance updates) balances)
        ≡ tally weight other (commit_balances updates balances)
  unfolding tally
  tally-write_other asset other a balance updates balances ne = ground (
    arith,
    sum_of-commit-insert {K = AssetRef × Address} (weigh weight other) (asset, a) balance updates
        balances,
  )

  pub tally-one :
      (asset : AssetRef) (a : Address) (balance : ℕ) (balances : AssetBalances)
      → tally weight asset (commit_balances (one_balance asset a balance) balances)
          + weight (units_of asset a balances)
        ≡ tally weight asset balances + weight balance
  tally-one asset a balance balances =
      ground (
        arith,
        tally-write asset a balance [] balances,
        commit-nil {K = AssetRef × Address} balances,
      )

  pub tally-two :
      (asset : AssetRef) (a b : Address) (balance_a balance_b : ℕ) (balances : AssetBalances)
      → a ≢ b
      → tally weight asset (
            commit_balances
              (put_balance asset b balance_b (one_balance asset a balance_a))
              balances)
          + weight (units_of asset a balances)
          + weight (units_of asset b balances)
        ≡ tally weight asset balances + weight balance_a + weight balance_b
  tally-two asset a b balance_a balance_b balances ne = ground (
    arith,
    tally-write asset b balance_b (one_balance asset a balance_a) balances,
    units_of-write asset a b balance_a [] balances,
    commit-nil {K = AssetRef × Address} balances,
    tally-one asset a balance_a balances,
  )

  pub tally-one_other :
      (asset other : AssetRef) (a : Address) (balance : ℕ) (balances : AssetBalances)
      → other ≢ asset
      → tally weight other (commit_balances (one_balance asset a balance) balances)
        ≡ tally weight other balances
  tally-one_other asset other a balance balances ne = ground (
    arith,
    tally-write_other asset other a balance [] balances ne,
    commit-nil {K = AssetRef × Address} balances,
  )
