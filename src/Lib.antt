-- ===== src/Lib.antt =====
-- Arxium: a verification library for the chain's state transitions.
--
-- Parts, and the file that models each (paths from the repository's root):
--
-- - core/primitives/src: `Primitives/` holds the shared records, field by field: accounts, stakes and
--   assets (state.rs) in State, the chain's parameters and validator standing (validator_set.rs) in
--   Params, proposals in Governance, programmable accounts (policy.rs) in Policy. An address, an asset
--   reference or a public key is a number that stands for its place in the order, since the code that
--   is modelled only compares them. The three derived addresses (`stake_subaccount`,
--   `reward_pool_account`, `treasury_account`) come from SHA-256 and bech32, which are not the
--   repository's code: they are the record `SystemAccounts`, an argument of every operation that uses
--   them, and a theorem that needs two of them to differ says so.
-- - core/circuit/src/lib.rs: `Circuit/View.antt` is `KvRead`, one function for each key that a circuit
--   reads. A read fails with a `StorageError` or says whether the row is there. `Reads view accounts`
--   says that the account rows of a view are those of a map; it is what a database under
--   `xc_storage::BlockView` provides, and every theorem about a committed ledger takes it.
-- - core/storage/src/batch.rs: `Circuit/Updates.antt` has the updates that circuits return.
--   `Prelude/Map.antt` commits them over the rows that were there, and `Circuit/Ledger.antt` says what
--   a write does to the supply and to each entry.
-- - circuits/account/src/lib.rs: `Circuit/Account.antt` (`apply_transfer`).
-- - circuits/staking/src/lib.rs: `Circuit/Staking/` (`Reward`, `Stake`, `Slash` and `Unbond`).
--   The two loops of `resolve_due_unbonding` are followed in `Unbond/Payout` (what is collected) and
--   `Unbond/Releases` (what is paid).
-- - arxd/finality/src/signed_votes.rs: `Finality/SignedVotes.antt`, the record of a validator's own votes:
--   `claim` and its three callers, `lock` (here `locked`) and `prune_below`. The durable write is a
--   parameter, a test of the record it is given. Reading the file back (`load`) is left out.
-- - circuits/token/src/lib.rs: `Circuit/Token.antt`, every operation. One that changes the `&mut Asset`
--   returns it; `Circuit/Token/Steps.antt` commits the balances that come with it and has the runs.
-- - core/primitives/src/validator_set.rs and consensus.rs: `Primitives/ValidatorSet.antt`, signed power,
--   quorums, epochs, the rotation of the proposers and (in `Power`) the assignment of voting power.
-- - circuits/identity/src/lib.rs: `Circuit/Identity.antt` has the registry of attestors (registration, removal,
--   blocks) and the grants and revocations of attestations; names and multisigs are checked in
--   `Primitives/Attestor.antt` (core/primitives/src/attestor.rs). What an address decodes to and the hash of a
--   multisig are bech32 and SHA-256, so they are the record `Keys`, an argument of the operations. The two
--   checks of zero-knowledge proofs are calls of other packages and left out.
-- - circuits/governance/src/lib.rs: `Circuit/Governance/` has the checks of an action (`Validate`), `Submit`, `Vote` and
--   `Execute`. A chamber (`Chamber`) is the committed rows of governance, a `Step` commits one operation that
--   succeeded on a view of those rows, and a `Run` is any sequence of steps. `Changes` shows that a step opens
--   a proposal, counts a vote or closes a proposal; `Runs`, `Once`, `Treasury` and `Decisions` stand on it.
-- - core/mempool/src/lib.rs: `Mempool/Pool.antt` has the queue and its operations, `Mempool/Admission.antt` the checks
--   before a push. The hash sets are lists, and the encoded size of an action (bincode) is an argument. `Reached` is
--   any sequence of calls; `Indexes` and `Valid` say how the sets, the counts and the bytes go with the queue,
--   and `Signatures` and `SignatureRuns` how the set of signatures does, where no two actions of different senders or
--   nonces have the same one (a signature is made over both).
-- - circuits/account/src/policy.rs: `Circuit/Account/Policy.antt` (`apply_policy_action`) and `Circuit/Account/Spending.antt`
--   (`enforce_spending`), with the rules of a stored policy (core/primitives/src/policy.rs) in
--   `Primitives/PolicyRules.antt`. Whether an address, an asset reference or a key is canonical is decided by
--   bech32 and ed25519, so it is the record `Formats`, an argument. `Limits`, `Periods` and `Recovery` are the proofs.
-- - arxd/runtime/src/epoch.rs: `Runtime/Epoch.antt` (`boundary_hook`), which chooses the next validator set from the
--   candidates, their stakes and attestations with `assign_voting_power`. A block's effects are those two fields of
--   `BlockUpdates` (core/executor/src/lib.rs) that it writes.
--
-- Numbers are unbounded, and each operation carries the width that the source has. The release profile
-- has `overflow-checks = true`, so `+`, `-` and `*` out of range are `panic`, as is a failed `expect`;
-- `checked_add` and `saturating_add` are as in Rust. A function that the source lets fail returns
-- `Result`, with the source's error type.
--
-- The loop of `assign_voting_power` has as many rounds of fuel as there are validators: each round but the
-- last takes one of them out of the pool. All other recursion is on the data.
--
-- Not modelled: RocksDB and the Merkle trie, the network, the RPC server, cryptography (BLS, ed25519,
-- Groth16), process start-up and the command line.
pub mod Circuit
pub mod Finality
pub mod Mempool
pub mod Prelude
pub mod Primitives
pub mod Runtime
