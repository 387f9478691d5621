-- ===== src/Circuit/Staking/Reward/Supply.antt =====
-- What a block's reward does to the coins: the pool pays, and only the block's fees are added back.
use native.Mathlib.Nat.{mul-le-mul_left}
use arxium.Prelude.{ℕ, ◌+◌, ◌-◌, ◌*◌, ◌/◌, ◌≤◌, ◌≡◌, ◌≢◌, min, [], arith, number_key, ok}
use arxium.Prelude.Map.{insert, commit}
use arxium.Primitives.Address.{Address}
use arxium.Primitives.State.{AccountEntry, SystemAccounts}
use arxium.Circuit.View.{View, Reads, entry_in, read_account-entry_in}
use arxium.Circuit.Ledger.{Accounts, supply, supply-three, entry_in-three}
use arxium.Circuit.Staking.Reward.{apply_block_reward}

abbrev gained : AccountEntry → ℕ → AccountEntry
gained entry amount = record entry { balance = entry.balance + amount }

abbrev paid : AccountEntry → ℕ → AccountEntry
paid entry amount = record entry { balance = entry.balance - amount }

shares_le : (fees p t : ℕ) → p + t ≤ 10_000 → fees * p / 10_000 + fees * t / 10_000 ≤ fees
shares_le fees p t h =
    let bound : fees * (p + t) ≤ fees * 10_000 = mul-le-mul_left fees h in omega (arith, bound)

module _ (system : SystemAccounts) (view : View) (accounts : Accounts) (reads : Reads view accounts)
    (proposer : Address) (fees reward proposer_bps treasury_bps : ℕ) {updates : Accounts}
    (applied : apply_block_reward system view proposer fees reward proposer_bps treasury_bps
      ≡ ok updates) where
  apply_block_reward-eq-ok :
      let pool = entry_in accounts system.reward_pool in
      let income = min reward pool.balance + fees * proposer_bps / 10_000 in
      updates
      ≡ insert system.treasury
          (gained (entry_in accounts system.treasury) (fees * treasury_bps / 10_000))
          (insert proposer
            (gained (entry_in accounts proposer) income)
            (insert system.reward_pool (paid pool (min reward pool.balance)) []))
  unfolding apply_block_reward
  apply_block_reward-eq-ok = ground (
    arith,
    read_account-entry_in (λ e. e) view accounts system.reward_pool reads,
    read_account-entry_in (λ e. e) view accounts proposer reads,
    read_account-entry_in (λ e. e) view accounts system.treasury reads,
  )

  -- Where the reward pool, the proposer and the treasury are three accounts, the pool pays the block
  -- reward, capped at what it holds, the proposer gets it with its share of the fees, the treasury
  -- gets its share, and the supply grows by the two shares of the fees, which were debited when the
  -- actions ran.
  pub apply_block_reward-pays :
      system.reward_pool ≢ proposer
      → system.reward_pool ≢ system.treasury
      → proposer ≢ system.treasury
      → let after = commit updates accounts in
        let block_reward = min reward (entry_in accounts system.reward_pool).balance in
        ((entry_in after system.reward_pool).balance + block_reward
          ≡ (entry_in accounts system.reward_pool).balance)
        × ((entry_in after proposer).balance
            ≡ (entry_in accounts proposer).balance + block_reward + fees * proposer_bps / 10_000)
        × ((entry_in after system.treasury).balance
            ≡ (entry_in accounts system.treasury).balance + fees * treasury_bps / 10_000)
        × (supply after
            ≡ supply accounts + fees * proposer_bps / 10_000 + fees * treasury_bps / 10_000)
  apply_block_reward-pays pool_proposer pool_treasury proposer_treasury =
      let pool = entry_in accounts system.reward_pool in
      let block_reward = min reward pool.balance in
      let a = paid pool block_reward in
      let b = gained (entry_in accounts proposer) (block_reward + fees * proposer_bps / 10_000) in
      let c = gained (entry_in accounts system.treasury) (fees * treasury_bps / 10_000) in
      let at = λ (d : Address).
        entry_in-three system.reward_pool proposer system.treasury d a b c accounts in
      ground (
        arith,
        apply_block_reward-eq-ok,
        supply-three system.reward_pool proposer system.treasury a b c accounts,
        at system.reward_pool,
        at proposer,
        at system.treasury,
      )

  -- Under a fee split of at most 100%, a block's reward brings back into the supply at most the fees
  -- that were collected: nothing is minted.
  pub apply_block_reward-mints_nothing :
      system.reward_pool ≢ proposer
      → system.reward_pool ≢ system.treasury
      → proposer ≢ system.treasury
      → proposer_bps + treasury_bps ≤ 10_000
      → supply (commit updates accounts) ≤ supply accounts + fees
  apply_block_reward-mints_nothing pool_proposer pool_treasury proposer_treasury split = omega (
    arith,
    apply_block_reward-pays pool_proposer pool_treasury proposer_treasury,
    shares_le fees proposer_bps treasury_bps split,
  )
