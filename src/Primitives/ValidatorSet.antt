-- ===== src/Primitives/ValidatorSet.antt =====
-- core/primitives/src/validator_set.rs and consensus.rs: signed power, epochs and the proposer. What a
-- function here may do wrong is panic, so its error type is empty.
pub mod Power
pub mod Quorum
pub mod Epochs
pub mod Rotation
mod Tests
use arxium.Prelude.{
  ℕ, ◌+◌, ◌-◌, ◌*◌, ◌/◌, ◌%◌, max, Bool, true, false, not, ◌||◌, ◌&&◌, Option, none, some, List, [],
  ◌∷◌, ltb, leb, ◌==◌, number_key, if◌then◌else◌, any, length, get_elem?, Result, ok, panic, ◌>>=◌,
  ◌>>◌,
}
use arxium.Prelude.Word.{u32_bound, u64_bound, add, sub, mul}
use arxium.Prelude.Map.{Map, get}
use arxium.Primitives.Address.{Address}
use arxium.Primitives.Params.{VotingPower, quorum_power}

pub data NoError : Type 0 where

abbrev pub member : Address → List Address → Bool
member a = any (λ b. b == a)

abbrev pub power_of : Option VotingPower → ℕ
power_of none = 0
power_of (some power) = power

-- The fold of `signed_power`: `seen` is the set of the signers met so far, `sum` their power.
unfoldable pub signed_after :
    Map Address VotingPower → List Address → ℕ → List Address → Result NoError ℕ
signed_after set seen sum [] = ok sum
signed_after set seen sum (s ∷ signers) = elim (member s seen) [
  | true ↦ signed_after set seen sum signers
  | false ↦
      add u32_bound sum (power_of (get s set)) >>= λ more. signed_after set (s ∷ seen) more signers
]

pub signed_power : Map Address VotingPower → List Address → Result NoError ℕ
signed_power set signers = signed_after set [] 0 signers

pub quorum_reached : Map Address VotingPower → List Address → Result NoError Bool
quorum_reached set signers = do power ← signed_power set signers; ok (leb quorum_power power)

unfoldable pub epoch_of : ℕ → ℕ → ℕ
epoch_of height epoch_length = height / max epoch_length 1

pub boundary_of : ℕ → ℕ → Result NoError ℕ
boundary_of epoch epoch_length = do
  next ← add u64_bound epoch 1
  product ← mul u64_bound next (max epoch_length 1)
  sub product 1

unfoldable pub validator_set_effective_height : ℕ → ℕ → Result NoError ℕ
validator_set_effective_height height epoch_length =
    mul u64_bound (epoch_of height epoch_length) (max epoch_length 1)

unfoldable pub is_boundary : ℕ → ℕ → Result NoError Bool
is_boundary height epoch_length = do
  next ← add u64_bound height 1
  ok (next % max epoch_length 1 == 0)

-- `sort`, by insertion
abbrev pub place : Address → List Address → List Address
place a [] = a ∷ []
place a (b ∷ bs) = if ltb b a then b ∷ place a bs else a ∷ b ∷ bs

unfoldable pub sort : List Address → List Address
sort [] = []
sort (a ∷ rest) = place a (sort rest)

-- `usize` is 64 bits wide.
pub eligible_proposer : List Address → ℕ → ℕ → Option Address
eligible_proposer validators height round =
    if length validators == 0
    then none
    else get_elem? (sort validators) ((height + round) % u64_bound % length (sort validators))

pub expected_proposer : List Address → ℕ → Option Address
expected_proposer validators height = eligible_proposer validators height 0
