-- ===== src/Primitives/ValidatorSet/Power/Tests.antt =====
-- Stakes of three and of four validators, and the theorems at work on them.
use arxium.Prelude.{ℕ, ◌-◌, ◌≤◌, ◌≡◌, refl, some, [], ◌∷◌, arith, number_key, ok}
use arxium.Prelude.Map.{Map}
use arxium.Primitives.Address.{Address}
use arxium.Primitives.Params.{total_voting_power, quorum_power}
use arxium.Primitives.ValidatorSet.Power.{
  put, stake_sum, share, assign_shares, spread, over, fix, extend, pass, loop, power_cap,
  assign_voting_power,
}
use arxium.Primitives.ValidatorSet.Power.Shares.{total}
use arxium.Primitives.ValidatorSet.Power.Total.{assign_voting_power-total, power_cap-below_third}

abbrev stakes : Map Address ℕ
stakes = (1, 500) ∷ (2, 30) ∷ (5, 20) ∷ []

-- The cap of three validators is 3,334: the second validator hits it in the second round.
three : assign_voting_power stakes ≡ ok (some ((1, 3_334) ∷ (2, 3_334) ∷ (5, 3_332) ∷ []))
unfolding assign_voting_power power_cap loop pass stake_sum assign_shares share spread over fix
    extend put
three = refl

unfunded :
    assign_voting_power ((1, 0) ∷ (2, 0) ∷ (5, 0) ∷ [])
    ≡ ok (some ((1, 3_334) ∷ (2, 3_333) ∷ (5, 3_333) ∷ []))
unfolding assign_voting_power power_cap loop pass stake_sum assign_shares share spread over fix
    extend put
unfunded = refl

stake_total : total stakes ≡ 550
unfolding total
stake_total = refl

assign_voting_power-total_example :
    (cap : ℕ) × (power_cap 3 ≡ ok cap)
    × (powers : Map Address ℕ) × (assign_voting_power stakes ≡ ok (some powers))
    × (total powers ≡ total_voting_power)
    × (over cap powers ≡ [])
assign_voting_power-total_example =
    assign_voting_power-total stakes (omega arith) (omega arith) (refl, (refl, (refl, tt)))
      (ground (arith, stake_total))

power_cap-below_third_example :
    (cap : ℕ) × (power_cap 4 ≡ ok cap) × (quorum_power ≤ total_voting_power - cap)
power_cap-below_third_example = power_cap-below_third 4 (omega arith) (omega arith)
