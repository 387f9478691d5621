-- ===== src/Circuit/Staking/Slash/Downtime.antt =====
-- When a missed slot slashes, and by how much.
use arxium.Prelude.{
  ℕ, ◌+◌, ◌*◌, ◌/◌, ◌≤◌, ◌<◌, ◌≡◌, ◌≢◌, ◌⊎◌, inl, inr, Option, none, some, List, [], ◌∷◌, arith,
  number_key, pair_key, Result, ok, err, panic, unwrap_or, ap, refl,
}
use arxium.Prelude.Map.{get}
use arxium.Primitives.Address.{Address}
use arxium.Primitives.State.{StakeAllocation, SystemAccounts}
use arxium.Circuit.View.{View, Reads}
use arxium.Circuit.Ledger.{Accounts}
use arxium.Circuit.Updates.{StakeUpdates, allocation_of, no_stake_updates}
use arxium.Circuit.Staking.Types.{StakingError, SlashReason, read_masters, staked, staked_in}
use arxium.Circuit.Staking.Slash.{apply_slash, apply_downtime_slash, downtime_outcome}
use arxium.Circuit.Staking.Slash.Effects.{apply_slash-allocation}

downtime_outcome-eq-ok :
    (r : Result StakingError (Accounts × StakeUpdates)) {rows : Accounts × StakeUpdates}
    → downtime_outcome r ≡ ok rows
    → (r ≡ ok rows) ⊎ (rows ≡ ([], no_stake_updates))
downtime_outcome-eq-ok (ok r) h = inl (ground arith)
downtime_outcome-eq-ok panic h = cc
downtime_outcome-eq-ok (err (StakingError.storage e)) h = cc
downtime_outcome-eq-ok (err _) h = inr (ground arith)

no_row : (master validator : Address) → allocation_of no_stake_updates master validator ≡ none
unfolding get
no_row master validator = refl

share_le : (total bps : ℕ) → bps ≤ 10_000 → total * bps / 10_000 ≤ total
share_le total bps h = grind arith

module _ (system : SystemAccounts) (view : View) (accounts : Accounts) (reads : Reads view accounts)
    (primary actual master : Address) (now_height downtime_slash_bps : ℕ) (rest : List Address)
    (indexed : view.stake_by_validator primary ≡ ok (some (master ∷ rest)))
    (existing : StakeAllocation) (read : view.stake master primary ≡ ok (some existing))
    {rows : Accounts × StakeUpdates}
    (applied : apply_downtime_slash system view primary actual now_height downtime_slash_bps
      ≡ ok rows) where
  -- A successful downtime check either changes nothing, or the primary missed its slot and the
  -- result is that of a slash by its share of the stake, which is positive.
  apply_downtime_slash-eq-ok :
      (rows ≡ ([], no_stake_updates))
      ⊎ (primary ≢ actual)
        × (0 < staked existing * downtime_slash_bps / 10_000)
        × (apply_slash system view primary
              (staked existing * downtime_slash_bps / 10_000)
              SlashReason.downtime
              now_height
            ≡ ok rows)
  unfolding apply_downtime_slash read_masters unwrap_or
  apply_downtime_slash-eq-ok = ground (
    arith,
    indexed,
    read,
    downtime_outcome-eq-ok (
        apply_slash system view primary (staked existing * downtime_slash_bps / 10_000)
          SlashReason.downtime now_height),
  )

  -- A downtime slash that rewrites the primary's allocation was for a missed slot, and takes from
  -- it, at a rate of at most 100%, exactly the rate's share of the stake rounded down.
  apply_downtime_slash-share :
      (left : Option StakeAllocation)
      → downtime_slash_bps ≤ 10_000
      → allocation_of rows.1 master primary ≡ some left
      → (primary ≢ actual)
        × (staked_in left + staked existing * downtime_slash_bps / 10_000 ≡ staked existing)
  apply_downtime_slash-share left rate written = elim apply_downtime_slash-eq-ok [
    | inl nothing ↦ absurd (cc (nothing, written, no_row master primary))
    | inr (missed, positive, slashed) ↦
        let share = staked existing * downtime_slash_bps / 10_000 in
        let (row, row_written, cut, _, _) =
          apply_slash-allocation system view accounts reads master primary share
            SlashReason.downtime now_height rest indexed existing read slashed in
        let same : row ≡ left = cc (row_written, written) in
        (
          missed,
          omega (arith, cut, ap staked_in same, share_le (staked existing) downtime_slash_bps rate),
        )
  ]
