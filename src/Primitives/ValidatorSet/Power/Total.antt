-- ===== src/Primitives/ValidatorSet/Power/Total.antt =====
-- The whole loop: it ends, gives out exactly the whole power, and nobody passes the cap.
use native.Mathlib.Nat.{div-add-mod, mod-lt, mod-eq_of_lt, mul-le-mul}
use arxium.Prelude.{
  ℕ, zero, suc, ◌+◌, ◌-◌, ◌*◌, ◌/◌, ◌≤◌, ◌<◌, ◌≡◌, refl, sym, ap, ◌∙◌, min, max, Option, some, List,
  [], ◌∷◌, arith, number_key, length, Result, ok, ◌>>=◌,
}
use mathlib.Core.Path.{subst}
use arxium.Prelude.Word.{u32_bound, u128_bound}
use arxium.Prelude.Map.{Map}
use arxium.Primitives.Address.{Address}
use arxium.Primitives.Params.{total_voting_power, quorum_power}
use arxium.Primitives.ValidatorSet.{NoError, member}
use arxium.Primitives.ValidatorSet.Power.{
  over, Round, fix, extend, spread, finished, loop, power_cap, assign_voting_power,
}
use arxium.Primitives.ValidatorSet.Power.Shares.{total, keys}
use arxium.Primitives.ValidatorSet.Power.Pass.{pass-total}
use arxium.Primitives.ValidatorSet.Power.Rounds.{
  Single, Kept, extend-total, fix-Kept, over-member, over-Single, over-total,
}

spread-none : (m : Map Address ℕ) → spread 0 m ≡ ok m
unfolding spread
spread-none [] = refl
spread-none ((a, p) ∷ m) = refl

-- What an assignment must be.
abbrev Assigned : ℕ → Result NoError (Option (Map Address ℕ)) → Type 0
Assigned cap result =
    (powers : Map Address ℕ) × (result ≡ ok (some powers))
    × (total powers ≡ total_voting_power)
    × (over cap powers ≡ [])

-- Where everybody is fixed at the cap, nothing is left.
finished-Assigned :
    (n cap : ℕ) (round : Round)
    → Kept n cap round
    → total_voting_power ≤ cap * n
    → length round.pool ≡ 0
    → Assigned cap (finished round)
finished-Assigned n cap round k enough empty =
    let everyone : length round.powers ≡ n = ground (arith, k.count, empty) in
    let all = ap (λ c. cap * c) everyone in
    let nothing : round.remaining_power ≡ 0 = ground (arith, k.sum, k.fixed, enough, all) in
    (
      round.powers,
      ground (arith, ap (λ left. spread left round.powers) nothing, spread-none round.powers),
      ground (arith, k.sum, nothing),
      k.within,
    )

-- The rest of a round, by what the pass gave out.
abbrev after_fix : ℕ → ℕ → Round → Result NoError (Option (Map Address ℕ))
after_fix fuel cap fixed = elim fixed.pool [
  | [] ↦ finished fixed
  | row ∷ rows ↦ loop fuel cap fixed
]

after_fix-Assigned :
    (n cap fuel : ℕ) (round : Round) (pool : Map Address ℕ)
    → round.pool ≡ pool
    → Kept n cap round
    → total_voting_power ≤ cap * n
    → (0 < length round.pool → Assigned cap (loop fuel cap round))
    → Assigned cap (after_fix fuel cap round)
after_fix-Assigned n cap fuel round [] is k enough again =
    let closed = finished-Assigned n cap round k enough (ap length is) in
    (closed.0, ground (arith, is, closed.1), closed.2, closed.3)
after_fix-Assigned n cap fuel round (row ∷ rows) is k enough again =
    let more = again (ground (arith, ap length is)) in
    (more.0, ground (arith, is, more.1), more.2, more.3)

abbrev after_pass : ℕ → ℕ → Round → Map Address ℕ → Result NoError (Option (Map Address ℕ))
after_pass fuel cap round assigned = elim (over cap assigned) [
  | [] ↦ ok (some (extend assigned round.powers))
  | a ∷ rest ↦ fix cap (a ∷ rest) round >>= λ fixed. after_fix fuel cap fixed
]

after_pass-Assigned :
    (n cap fuel : ℕ) (round : Round) (assigned : Map Address ℕ) (heavy : List Address)
    → over cap assigned ≡ heavy
    → Kept n cap round
    → total_voting_power ≤ cap * n
    → total assigned ≡ round.remaining_power
    → keys assigned ≡ keys round.pool
    → ((after : Round)
        → Kept n cap after
        → 0 < length after.pool
        → length after.pool < length round.pool
        → Assigned cap (loop fuel cap after))
    → Assigned cap (after_pass fuel cap round assigned)
after_pass-Assigned n cap fuel round assigned [] is k enough gave same again =
    let out =
      extend-total cap assigned round.powers (subst Single (sym same) k.single)
        (λ b there. k.apart b (ap (member b) (sym same) ∙ there)) is k.within in
    (extend assigned round.powers, ground (arith, is), ground (arith, out.0, gave, k.sum), out.1)
after_pass-Assigned n cap fuel round assigned (a ∷ rest) is k enough gave same again =
    let done =
      fix-Kept n cap (a ∷ rest) round k
        (subst Single is (over-Single cap assigned (subst Single (sym same) k.single)))
        (λ b there.
          sym (ap (member b) same) ∙ over-member cap assigned b (ap (member b) is ∙ there))
        (ground (arith, gave, over-total cap assigned, ap (λ l. cap * length l) is)) in
    let closed =
      after_fix-Assigned n cap fuel done.0 done.0.pool refl done.2 enough
        (λ there. again done.0 done.2 there (ground (arith, done.3))) in
    (closed.0, ground (arith, is, done.1, closed.1), closed.2, closed.3)

loop-Assigned :
    (n cap fuel : ℕ) (round : Round)
    → Kept n cap round
    → n < u32_bound
    → total_voting_power ≤ cap * n
    → 0 < length round.pool
    → length round.pool ≤ fuel
    → Assigned cap (loop fuel cap round)
unfolding loop
loop-Assigned n cap zero round k short enough there fuelled = ground arith
loop-Assigned n cap (suc fuel) round k short enough there fuelled =
    let given =
      pass-total round there (ground (arith, k.count, short)) (ground (arith, k.sum)) k.stake in
    let rest =
      after_pass-Assigned n cap fuel round given.0 (over cap given.0) refl k enough given.2 given.3
        (λ after kept left fewer.
          loop-Assigned n cap fuel after kept short enough left (ground (arith, fewer, fuelled))) in
    (rest.0, ap (λ found. found >>= after_pass fuel cap round) given.1 ∙ rest.1, rest.2, rest.3)

-- The cap times the number of validators covers the whole power.
power_cap-covers :
    (n : ℕ)
    → 0 < n
    → n < u32_bound
    → (cap : ℕ) × (power_cap n ≡ ok cap) × (total_voting_power ≤ cap * n)
unfolding power_cap
power_cap-covers n pos short =
    let equal = (total_voting_power + n - 1) / n in
    let cap = max (min (max (2 * total_voting_power / n) (total_voting_power / 10)) 3_333) equal in
    (
      cap,
      ground (arith, pos, mod-eq_of_lt {n = n} {m = u32_bound} short),
      ground (
        arith,
        pos,
        div-add-mod (total_voting_power + n - 1) n,
        mod-lt (total_voting_power + n - 1) {m = n} pos,
        mul-le-mul {n₁ = equal} {m₁ = n} {n₂ = cap} {m₂ = n} (omega arith) (omega arith),
      ),
    )

abbrev start : Map Address ℕ → Round
start stakes = record { powers = []; remaining_power = total_voting_power; pool = stakes }

start-Kept :
    (cap : ℕ) (stakes : Map Address ℕ)
    → Single (keys stakes)
    → total_voting_power * total stakes < u128_bound
    → Kept (length stakes) cap (start stakes)
unfolding total over
start-Kept cap stakes single fits = record {
  sum = refl;
  apart = λ b there. refl;
  fixed = omega arith;
  count = omega arith;
  single = single;
  stake = fits;
  within = refl;
}

-- For every set of stakes with one row for each address, of at least one and fewer than 2^32 rows, and
-- whose sum times 10,000 fits in u128, the assignment ends without a panic, within as many rounds as
-- there are validators; the powers add up to exactly 10,000, and none is above the cap for that number
-- of validators.
pub assign_voting_power-total :
    (stakes : Map Address ℕ)
    → 0 < length stakes
    → length stakes < u32_bound
    → Single (keys stakes)
    → total_voting_power * total stakes < u128_bound
    → (cap : ℕ) × (power_cap (length stakes) ≡ ok cap)
      × (powers : Map Address ℕ) × (assign_voting_power stakes ≡ ok (some powers))
      × (total powers ≡ total_voting_power)
      × (over cap powers ≡ [])
unfolding assign_voting_power
assign_voting_power-total [] pos short single fits = ground arith
assign_voting_power-total (row ∷ rows) pos short single fits =
    let covers = power_cap-covers (length (row ∷ rows)) pos short in
    let result =
      loop-Assigned (length (row ∷ rows)) covers.0 (length (row ∷ rows)) (start (row ∷ rows))
        (start-Kept covers.0 (row ∷ rows) single fits) short covers.2 pos (omega arith) in
    (
      covers.0,
      covers.1,
      result.0,
      ap (λ cap. cap >>= λ c. loop (length (row ∷ rows)) c (start (row ∷ rows))) covers.1
          ∙ result.1,
      result.2,
      result.3,
    )

at_least : (n q : ℕ) → 2_501 ≤ q → n * 2_501 ≤ n * q
at_least n q h = mul-le-mul {n₁ = n} {m₁ = 2_501} {n₂ = n} {m₂ = q} (omega arith) h

-- From four validators on, and for fewer than 2^32, what the whole power has left without one
-- validator at the cap still reaches the quorum.
pub power_cap-below_third :
    (n : ℕ)
    → 4 ≤ n
    → n < u32_bound
    → (cap : ℕ) × (power_cap n ≡ ok cap) × (quorum_power ≤ total_voting_power - cap)
unfolding power_cap
power_cap-below_third n four short =
    let equal = (total_voting_power + n - 1) / n in
    (
      max (min (max (2 * total_voting_power / n) (total_voting_power / 10)) 3_333) equal,
      ground (arith, four, mod-eq_of_lt {n = n} {m = u32_bound} short),
      ground (arith, four, div-add-mod (total_voting_power + n - 1) n, at_least n equal),
    )
