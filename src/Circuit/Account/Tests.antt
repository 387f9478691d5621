-- ===== src/Circuit/Account/Tests.antt =====
-- Transfers on a small ledger: account 1 holds 50 at nonce 7, account 2 holds 5, account 3 is new.
use arxium.Prelude.{◌+◌, ◌≡◌, refl, [], ◌∷◌, number_key, ok, err, unwrap_or}
use arxium.Prelude.Map.{get, insert, commit}
use arxium.Circuit.View.{Reads, entry_in, read_account}
use arxium.Circuit.Ledger.{Accounts, supply}
use arxium.Circuit.Account.{AccountError, apply_transfer}
use arxium.Circuit.Account.Transfer.{
  apply_transfer-supply, apply_transfer-no_replay, apply_transfer-moves,
}
use arxium.Circuit.Sample.{view_of, holding}

abbrev ledger : Accounts
ledger = (1, holding 50 7) ∷ (2, holding 5 0) ∷ []

ledger-Reads : Reads (view_of ledger) ledger
ledger-Reads = record { at = λ a. refl }

abbrev moved : Accounts
moved = (1, holding 20 8) ∷ (3, holding 30 0) ∷ []

moved_lem : apply_transfer (view_of ledger) 1 7 3 30 ≡ ok moved
unfolding apply_transfer read_account get insert unwrap_or
moved_lem = refl

overdraft : apply_transfer (view_of ledger) 2 0 1 6 ≡ err (AccountError.insufficient_balance 2 5 6)
unfolding apply_transfer read_account get insert unwrap_or
overdraft = refl

apply_transfer-supply_example : supply (commit moved ledger) ≡ supply ledger
apply_transfer-supply_example =
    apply_transfer-supply (view_of ledger) ledger ledger-Reads 1 7 3 30 moved_lem

apply_transfer-no_replay_example :
    apply_transfer (view_of (commit moved ledger)) 1 7 2 1
    ≡ err (AccountError.invalid_nonce 1 (7 + 1) 7)
apply_transfer-no_replay_example =
    apply_transfer-no_replay (view_of ledger) ledger ledger-Reads 1 7 3 30 moved_lem
      (view_of (commit moved ledger)) 2 1 (record { at = λ a. refl })

apply_transfer-moves_example :
    (7 ≡ (entry_in ledger 1).nonce)
    × ((entry_in (commit moved ledger) 1).balance + 30 ≡ (entry_in ledger 1).balance + 0)
    × (entry_in (commit moved ledger) 1 ≡ record (entry_in ledger 1) {
      balance = (entry_in (commit moved ledger) 1).balance;
      nonce = (entry_in ledger 1).nonce + 1;
    })
apply_transfer-moves_example =
    apply_transfer-moves (view_of ledger) ledger ledger-Reads 1 7 3 30 moved_lem 1
