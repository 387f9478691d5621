-- ===== src/Circuit/Token/Tests.antt =====
-- A token of account 1 on a small ledger, and the theorems at work on it.
use arxium.Prelude.{
  ℕ, ◌+◌, ◌≤◌, ◌≡◌, ◌⊎◌, refl, true, false, none, some, [], ◌∷◌, arith, number_key, pair_key, ok,
  err, unwrap_or,
}
use arxium.Prelude.Map.{get, insert, commit}
use arxium.Prelude.Ledger.{sum_of}
use arxium.Primitives.State.{Asset, AssetClass}
use arxium.Circuit.View.{View, Reads, entry_in, read_account}
use arxium.Circuit.Ledger.{Accounts, supply}
use arxium.Circuit.Updates.{AssetBalances, balance_in, commit_balances}
use arxium.Circuit.Sample.{view_of, holding, system}
use arxium.Circuit.Token.{
  TokenError, stored, balance_of, mint_into, mint_initial, charge_fee, charge_positive,
  apply_create, apply_mint, move, apply_transfer, apply_burn,
}
use arxium.Circuit.Token.Units.{Holds, units_of, tally, issued, holders}
use arxium.Circuit.Token.Steps.{Step, Run, Sound}
use arxium.Circuit.Token.Supply.{Run-Sound, Run-renounced, apply_transfer-issued}
use arxium.Circuit.Token.Holders.{Step-holders}
use arxium.Circuit.Token.Create.{apply_create-effect}

abbrev coins : Accounts
coins = (1, holding 50 7) ∷ []

-- Asset 4 of account 1, capped at 100.
abbrev token : ℕ → ℕ → Asset
token total holder_count = record {
  asset_id = "t";
  issuer = 1;
  compliance_required = false;
  asset_class = AssetClass.token;
  decimals = 6;
  required_claims = [];
  allowed_jurisdictions = none;
  max_supply = some 100;
  total_supply = total;
  frozen = false;
  metadata_uri = none;
  registered_at = 3;
  symbol = "T";
  name = "Token";
  asset_ref = 4;
  issuance_locked = false;
  max_holders = none;
  max_balance_per_holder = none;
  max_attestation_age = none;
  holder_count = holder_count;
  snapshot = none;
  private_claims = false;
}

abbrev view : AssetBalances → View
view balances = record (view_of coins) {
  asset_balance = λ asset owner. ok (balance_in asset owner balances);
}

view-Holds : (balances : AssetBalances) → Holds (view balances) balances
view-Holds balances = record { at = λ asset owner. refl }

view-Reads : (balances : AssetBalances) → Reads (view balances) coins
view-Reads balances = record { at = λ a. refl }

abbrev minted : AssetBalances
minted = ((4, 1), 60) ∷ []

minted_lem : apply_mint (view []) (token 0 0) 1 1 60 ≡ ok (token 60 1, minted)
unfolding apply_mint mint_into balance_of stored get insert
minted_lem = refl

-- 41 more would pass the cap.
capped :
    apply_mint (view minted) (token 60 1) 1 2 41 ≡ err (TokenError.supply_cap_exceeded 4 100 101 41)
unfolding apply_mint mint_into balance_of stored get insert
capped = refl

abbrev moved : AssetBalances
moved = ((4, 1), 0) ∷ ((4, 2), 60) ∷ []

moved_lem : apply_transfer (view minted) (token 60 1) 1 2 60 ≡ ok (token 60 1, moved)
unfolding apply_transfer move balance_of stored get insert
moved_lem = refl

mint-Step : Step (token 0 0) [] (token 60 1) (commit_balances minted [])
mint-Step = Step.mint (view []) 1 1 60 (view-Holds []) minted_lem

committed : commit_balances minted [] ≡ minted
unfolding commit insert
committed = refl

transfer-Step : Step (token 60 1) minted (token 60 1) (commit_balances moved minted)
transfer-Step = Step.transfer (view minted) 1 2 60 (view-Holds minted) moved_lem

fresh-Sound : Sound (token 0 0) []
unfolding tally sum_of
fresh-Sound = record { counted = refl; capped = refl }

Run-Sound_example : Sound (token 60 1) (commit_balances minted [])
Run-Sound_example = Run-Sound (Run.then_step Run.none_yet mint-Step) fresh-Sound

abbrev locked : Asset
locked = record (token 60 1) { issuance_locked = true }

abbrev burned : AssetBalances
burned = ((4, 1), 40) ∷ []

abbrev after_burn : Asset
after_burn = record (token 40 1) { issuance_locked = true }

burned_lem : apply_burn (view minted) locked 1 20 ≡ ok (after_burn, burned)
unfolding apply_burn balance_of stored get insert
burned_lem = refl

Run-renounced_example :
    (after_burn.issuance_locked ≡ true)
    × (after_burn.total_supply ≤ locked.total_supply)
    × (after_burn.asset_ref ≡ locked.asset_ref)
    × (after_burn.max_supply ≡ locked.max_supply)
    × (after_burn.issuer ≡ locked.issuer)
Run-renounced_example =
    Run-renounced
      (Run.then_step Run.none_yet (Step.burn (view minted) 1 20 (view-Holds minted) burned_lem))
      refl

apply_transfer-issued_example :
    (issued 4 (commit_balances moved minted) ≡ issued 4 minted)
    × ((◌≡◌ {A = ℕ} 1 2)
        ⊎ (units_of 4 1 (commit_balances moved minted) + 60 ≡ units_of 4 1 minted)
          × (units_of 4 2 (commit_balances moved minted) ≡ units_of 4 2 minted + 60))
apply_transfer-issued_example =
    apply_transfer-issued (view minted) (token 60 1) minted 1 2 60 (view-Holds minted) moved_lem

one_holder : holders 4 minted ≡ 1
unfolding tally sum_of
one_holder = refl

Step-holders_example : holders 4 (commit_balances moved minted) ≡ 1
Step-holders_example = Step-holders transfer-Step one_holder (omega arith)

abbrev paid : Accounts
paid = (1, holding 20 7) ∷ (99, holding 30 0) ∷ []

created : apply_create system (view []) (token 0 0) 60 30 ≡ ok (token 60 1, paid, minted)
unfolding apply_create mint_initial mint_into charge_positive charge_fee balance_of stored
    read_account get insert unwrap_or
created = refl

no_treasury : (entry_in coins 99).balance ≡ 0
unfolding entry_in get unwrap_or
no_treasury = refl

apply_create-effect_example :
    (supply (commit paid coins) ≡ supply coins)
    × ((entry_in (commit paid coins) 1).balance + 30 ≡ (entry_in coins 1).balance)
    × ((entry_in (commit paid coins) 99).balance ≡ (entry_in coins 99).balance + 30)
    × ((token 60 1).total_supply ≡ (token 0 0).total_supply + 60)
    × (issued 4 (commit_balances minted []) ≡ issued 4 [] + 60)
    × (units_of 4 1 (commit_balances minted []) ≡ units_of 4 1 [] + 60)
apply_create-effect_example =
    apply_create-effect system (view []) coins (view-Reads []) (token 0 0) [] 60 30 (view-Holds [])
      (omega arith) (ground (arith, no_treasury)) created
