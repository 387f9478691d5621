-- ===== src/Circuit/Ledger.antt =====
-- Account rows as a ledger: the entry of an address, the supply, and what one write does to each.
use arxium.Prelude.{
  ℕ, ◌+◌, ◌≡◌, ◌≢◌, [], some, none, arith, ◌==◌, number_key, if◌then◌else◌, unwrap_or,
}
use arxium.Prelude.Map.{Map, get, insert, commit, commit-nil, get-commit, get-commit-insert}
use arxium.Prelude.Ledger.{sum_of, sum_of-commit-insert}
use arxium.Primitives.Address.{Address}
use arxium.Primitives.State.{AccountEntry}
use arxium.Circuit.View.{entry_in}

abbrev pub Accounts : Type 0
Accounts = Map Address AccountEntry

-- The coins that exist: the sum of all balances.
unfoldable pub supply : Accounts → ℕ
supply = sum_of (λ (a : Address) (entry : AccountEntry). entry.balance)

pub entry_in-write :
    (a b : Address) (entry : AccountEntry) (updates accounts : Accounts)
    → entry_in (commit (insert a entry updates) accounts) b
      ≡ (if a == b then entry else entry_in (commit updates accounts) b)
unfolding entry_in unwrap_or
entry_in-write a b entry updates accounts =
    ground (arith, get-commit-insert a b entry updates accounts)

pub supply-write :
    (a : Address) (entry : AccountEntry) (updates accounts : Accounts)
    → supply (commit (insert a entry updates) accounts)
        + (entry_in (commit updates accounts) a).balance
      ≡ supply (commit updates accounts) + entry.balance
unfolding supply entry_in unwrap_or
supply-write a entry updates accounts = ground (
  arith,
  sum_of-commit-insert (λ (a : Address) (entry : AccountEntry). entry.balance) a entry updates
      accounts,
)

-- One row written, and two rows of different accounts.
pub supply-one :
    (a : Address) (entry : AccountEntry) (accounts : Accounts)
    → supply (commit (insert a entry []) accounts) + (entry_in accounts a).balance
      ≡ supply accounts + entry.balance
supply-one a entry accounts =
    ground (arith, supply-write a entry [] accounts, commit-nil {V = AccountEntry} accounts)

pub entry_in-one :
    (a b : Address) (entry : AccountEntry) (accounts : Accounts)
    → entry_in (commit (insert a entry []) accounts) b
      ≡ (if a == b then entry else entry_in accounts b)
entry_in-one a b entry accounts =
    ground (arith, entry_in-write a b entry [] accounts, commit-nil {V = AccountEntry} accounts)

pub supply-two :
    (a b : Address) (entry_a entry_b : AccountEntry) (accounts : Accounts)
    → a ≢ b
    → supply (commit (insert b entry_b (insert a entry_a [])) accounts)
        + (entry_in accounts a).balance
        + (entry_in accounts b).balance
      ≡ supply accounts + entry_a.balance + entry_b.balance
supply-two a b entry_a entry_b accounts ne = ground (
  arith,
  supply-write b entry_b (insert a entry_a []) accounts,
  entry_in-one a b entry_a accounts,
  supply-one a entry_a accounts,
)

pub entry_in-two :
    (a b c : Address) (entry_a entry_b : AccountEntry) (accounts : Accounts)
    → entry_in (commit (insert b entry_b (insert a entry_a [])) accounts) c
      ≡ (if b == c then entry_b else if a == c then entry_a else entry_in accounts c)
entry_in-two a b c entry_a entry_b accounts = ground (
  arith,
  entry_in-write b c entry_b (insert a entry_a []) accounts,
  entry_in-one a c entry_a accounts,
)

pub supply-three :
    (a b c : Address) (entry_a entry_b entry_c : AccountEntry) (accounts : Accounts)
    → a ≢ b
    → a ≢ c
    → b ≢ c
    → supply (commit (insert c entry_c (insert b entry_b (insert a entry_a []))) accounts)
        + (entry_in accounts a).balance
        + (entry_in accounts b).balance
        + (entry_in accounts c).balance
      ≡ supply accounts + entry_a.balance + entry_b.balance + entry_c.balance
supply-three a b c entry_a entry_b entry_c accounts ab ac bc = ground (
  arith,
  supply-write c entry_c (insert b entry_b (insert a entry_a [])) accounts,
  entry_in-two a b c entry_a entry_b accounts,
  supply-two a b entry_a entry_b accounts,
)

pub entry_in-three :
    (a b c d : Address) (entry_a entry_b entry_c : AccountEntry) (accounts : Accounts)
    → entry_in (commit (insert c entry_c (insert b entry_b (insert a entry_a []))) accounts) d ≡ (
        if c == d
        then entry_c
        else if b == d
        then entry_b
        else if a == d
        then entry_a
        else entry_in accounts d)
entry_in-three a b c d entry_a entry_b entry_c accounts = ground (
  arith,
  entry_in-write c d entry_c (insert b entry_b (insert a entry_a [])) accounts,
  entry_in-two a b d entry_a entry_b accounts,
)

-- A committed entry is the written one, or the one that was there.
pub entry_in-commit :
    (a : Address) (updates accounts : Accounts)
    → entry_in (commit updates accounts) a
      ≡ elim (get a updates) [ some entry ↦ entry | none ↦ entry_in accounts a ]
unfolding entry_in unwrap_or
entry_in-commit a updates accounts = ground (arith, get-commit a updates accounts)
