-- ===== src/Circuit/Account.antt =====
-- circuits/account/src/lib.rs: the transfer of native coins.
pub mod Transfer
pub mod Policy
pub mod Spending
pub mod Limits
pub mod Periods
pub mod Recovery
mod PolicyTests
mod Tests
use arxium.Prelude.{
  ℕ, ◌-◌, not, List, [], ltb, ◌==◌, number_key, if◌then◌else◌, Result, ok, err, ◌>>=◌, ◌>>◌,
  reject_if, some, none,
}
use arxium.Prelude.Word.{u64_bound, u128_bound, add, checked_add}
use arxium.Prelude.Map.{insert}
use arxium.Primitives.Address.{Address}
use arxium.Primitives.State.{AccountEntry}
use arxium.Circuit.View.{View, StorageError, read_account}
use arxium.Circuit.Ledger.{Accounts}

pub data AccountError : Type 0 where
  storage : StorageError → AccountError
  invalid_nonce : Address → ℕ → ℕ → AccountError
  insufficient_balance : Address → ℕ → ℕ → AccountError
  overflow : Address → AccountError

-- `checked_add(amount).ok_or_else(|| Overflow)`
abbrev pub credit : ℕ → ℕ → Address → Result AccountError ℕ
credit balance amount account = elim (checked_add u128_bound balance amount) [
  | none ↦ err (AccountError.overflow account)
  | some total ↦ ok total
]

-- The two rows of a transfer between different accounts, or the one row of a self-transfer.
abbrev pub move : View → Address → AccountEntry → Address → ℕ → Result AccountError Accounts
move view sender sender_entry to amount =
    if to == sender
    then (do
      nonce ← add u64_bound sender_entry.nonce 1
      ok (insert sender (record sender_entry { nonce = nonce }) []))
    else (do
      receiver_entry ← read_account AccountError.storage view to
      nonce ← add u64_bound sender_entry.nonce 1
      balance ← credit receiver_entry.balance amount to
      ok (
          insert to (record receiver_entry { balance = balance })
            (insert sender
              (record sender_entry { balance = sender_entry.balance - amount; nonce = nonce }) [])))

pub apply_transfer : View → Address → ℕ → Address → ℕ → Result AccountError Accounts
apply_transfer view sender nonce to amount = do
  sender_entry ← read_account AccountError.storage view sender
  reject_if (not (nonce == sender_entry.nonce))
      (AccountError.invalid_nonce sender sender_entry.nonce nonce)
  reject_if (ltb sender_entry.balance amount)
      (AccountError.insufficient_balance sender sender_entry.balance amount)
  move view sender sender_entry to amount
