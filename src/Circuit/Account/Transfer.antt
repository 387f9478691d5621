-- ===== src/Circuit/Account/Transfer.antt =====
-- What a transfer does to the committed ledger.
use arxium.Prelude.{
  ℕ, ◌+◌, ◌-◌, ◌≤◌, ◌<◌, ◌≡◌, ◌≢◌, ◌⊎◌, [], arith, ◌==◌, number_key, if◌then◌else◌, ok, err,
}
use arxium.Prelude.Word.{u128_bound}
use arxium.Prelude.Map.{insert, commit}
use arxium.Primitives.Address.{Address}
use arxium.Primitives.State.{AccountEntry}
use arxium.Circuit.View.{View, Reads, entry_in, read_account-entry_in}
use arxium.Circuit.Ledger.{Accounts, supply, supply-one, supply-two, entry_in-one, entry_in-two}
use arxium.Circuit.Account.{AccountError, apply_transfer}

-- The sender's row after a self-transfer, and the two rows after any other.
abbrev pub bumped : AccountEntry → AccountEntry
bumped entry = record entry { nonce = entry.nonce + 1 }

abbrev pub debited : AccountEntry → ℕ → AccountEntry
debited entry amount = record entry { balance = entry.balance - amount; nonce = entry.nonce + 1 }

abbrev pub credited : AccountEntry → ℕ → AccountEntry
credited entry amount = record entry { balance = entry.balance + amount }

module _ (view : View) (accounts : Accounts) (reads : Reads view accounts) (sender : Address)
    (nonce : ℕ) (to : Address) (amount : ℕ) {updates : Accounts}
    (applied : apply_transfer view sender nonce to amount ≡ ok updates) where
  -- What a successful transfer has checked, and the rows that it returns.
  pub apply_transfer-eq-ok :
      (nonce ≡ (entry_in accounts sender).nonce)
      × (amount ≤ (entry_in accounts sender).balance)
      × ((to ≡ sender) × (updates ≡ insert sender (bumped (entry_in accounts sender)) [])
          ⊎ (to ≢ sender)
            × ((entry_in accounts to).balance + amount < u128_bound)
            × (updates
                ≡ insert to
                    (credited (entry_in accounts to) amount)
                    (insert sender (debited (entry_in accounts sender) amount) [])))
  unfolding apply_transfer
  apply_transfer-eq-ok = ground (
    arith,
    read_account-entry_in AccountError.storage view accounts sender reads,
    read_account-entry_in AccountError.storage view accounts to reads,
  )

  -- The coins in existence are the same after a transfer, also one from an account to itself.
  pub apply_transfer-supply : supply (commit updates accounts) ≡ supply accounts
  apply_transfer-supply = ground (
    arith,
    apply_transfer-eq-ok,
    supply-one sender (bumped (entry_in accounts sender)) accounts,
    supply-two sender to (debited (entry_in accounts sender) amount)
        (credited (entry_in accounts to) amount) accounts,
  )

  -- A transfer that succeeds carries the nonce that the sender's account has. Once it is committed,
  -- each account has what it had, the sender without the amount and the receiver with it, so a
  -- transfer to oneself leaves the balance; the sender's nonce is one higher, and
  -- nothing else of any account is changed.
  pub apply_transfer-moves :
      (a : Address)
      → (nonce ≡ (entry_in accounts sender).nonce)
        × ((entry_in (commit updates accounts) a).balance + (if sender == a then amount else 0)
            ≡ (entry_in accounts a).balance + (if to == a then amount else 0))
        × (entry_in (commit updates accounts) a ≡ record (entry_in accounts a) {
          balance = (entry_in (commit updates accounts) a).balance;
          nonce = (entry_in accounts a).nonce + (if sender == a then 1 else 0);
        })
  apply_transfer-moves a = ground (
    arith,
    apply_transfer-eq-ok,
    entry_in-one sender a (bumped (entry_in accounts sender)) accounts,
    entry_in-two sender to a (debited (entry_in accounts sender) amount)
        (credited (entry_in accounts to) amount) accounts,
  )

  sender_nonce : (entry_in (commit updates accounts) sender).nonce ≡ nonce + 1
  sender_nonce = ground (
    arith,
    apply_transfer-eq-ok,
    entry_in-one sender sender (bumped (entry_in accounts sender)) accounts,
    entry_in-two sender to sender (debited (entry_in accounts sender) amount)
        (credited (entry_in accounts to) amount) accounts,
  )

  -- Once a transfer is committed, no transfer of the sender's with the same nonce is accepted: the
  -- answer is the nonce that is expected now.
  pub apply_transfer-no_replay :
      (later : View) (again : Address) (more : ℕ)
      → Reads later (commit updates accounts)
      → apply_transfer later sender nonce again more
        ≡ err (AccountError.invalid_nonce sender (nonce + 1) nonce)
  unfolding apply_transfer
  apply_transfer-no_replay later again more committed = ground (
    arith,
    sender_nonce,
    read_account-entry_in AccountError.storage later (commit updates accounts) sender committed,
  )
