-- ===== src/Primitives/ValidatorSet/Tests.antt =====
-- A set of three validators, and the theorems at work on it.
use arxium.Prelude.{
  ℕ, ◌*◌, ◌<◌, ◌≡◌, refl, true, some, List, [], ◌∷◌, arith, number_key, length, retain, ok,
}
use arxium.Prelude.Map.{Map, get}
use arxium.Primitives.Address.{Address}
use arxium.Primitives.Params.{VotingPower, total_voting_power}
use arxium.Primitives.ValidatorSet.{
  member, signed_after, signed_power, quorum_reached, eligible_proposer, sort,
}
use arxium.Primitives.ValidatorSet.Quorum.{
  power_where, everyone, Distinct, signed_power-power_where, quorum_reached-overlap,
}
use arxium.Primitives.ValidatorSet.Rotation.{eligible_proposer-turn}

abbrev set : Map Address VotingPower
set = (1, 3_334) ∷ (2, 3_333) ∷ (5, 3_333) ∷ []

set-Distinct : Distinct set
unfolding get
set-Distinct = (refl, (refl, (refl, tt)))

whole : power_where everyone set ≡ 10_000
unfolding power_where
whole = refl

-- 9 is not in the set, and 1 comes twice.
signed_twice : signed_power set (1 ∷ 9 ∷ 2 ∷ 1 ∷ []) ≡ ok 6_667
unfolding signed_power signed_after get
signed_twice = refl

one : quorum_reached set (1 ∷ 2 ∷ []) ≡ ok true
unfolding quorum_reached signed_power signed_after get
one = refl

other : quorum_reached set (5 ∷ 1 ∷ []) ≡ ok true
unfolding quorum_reached signed_power signed_after get
other = refl

quorum_reached-overlap_example :
    (common : ℕ) × (signed_power set (retain (λ s. member s (5 ∷ 1 ∷ [])) (1 ∷ 2 ∷ [])) ≡ ok common)
    × (total_voting_power < 3 * common)
quorum_reached-overlap_example =
    quorum_reached-overlap set (1 ∷ 2 ∷ []) (5 ∷ 1 ∷ []) set-Distinct whole one other

signed_power-power_where_example :
    signed_power set (1 ∷ 9 ∷ 2 ∷ 1 ∷ [])
    ≡ ok (power_where (λ a. member a (1 ∷ 9 ∷ 2 ∷ 1 ∷ [])) set)
unfolding power_where
signed_power-power_where_example =
    signed_power-power_where set (1 ∷ 9 ∷ 2 ∷ 1 ∷ []) set-Distinct (omega arith)

abbrev validators : List Address
validators = 5 ∷ 1 ∷ 2 ∷ []

second : eligible_proposer validators 3 1 ≡ some 2
unfolding eligible_proposer sort
second = refl

eligible_proposer-turn_example :
    (round : ℕ) × (round < length validators) × (eligible_proposer validators 3 round ≡ some 5)
eligible_proposer-turn_example = eligible_proposer-turn validators 3 5 refl (omega arith)
