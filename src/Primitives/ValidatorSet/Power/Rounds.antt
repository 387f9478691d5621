-- ===== src/Primitives/ValidatorSet/Power/Rounds.antt =====
-- What one round of the loop keeps: fixing those over the cap, and closing the assignment.
use arxium.Prelude.{
  ℕ, ◌+◌, ◌-◌, ◌*◌, ◌≤◌, ◌<◌, ◌≡◌, inl, inr, refl, ap, Bool, true, false, not, ◌||◌, ◌&&◌, List, [],
  ◌∷◌, arith, ◌==◌, number_key, same_number_iff, length, Bool-cases, retain, ok,
}
use arxium.Prelude.Word.{u128_bound}
use arxium.Prelude.Map.{Map}
use arxium.Primitives.Address.{Address}
use arxium.Primitives.Params.{total_voting_power}
use arxium.Primitives.ValidatorSet.{member}
use arxium.Primitives.ValidatorSet.Power.{put, over, Round, fix, extend}
use arxium.Primitives.ValidatorSet.Power.Shares.{total, keys}

abbrev pub has : Address → Map Address ℕ → Bool
has a m = member a (keys m)

abbrev pub Single : List Address → Type 0
Single [] = Unit
Single (a ∷ rest) = (member a rest ≡ false) × Single rest

put-lem :
    (a : Address) (p cap : ℕ) (m : Map Address ℕ)
    → has a m ≡ false
    → (total (put a p m) ≡ total m + p) × (length (put a p m) ≡ length m + 1)
unfolding put total
put-lem a p cap [] h = ground arith
put-lem a p cap ((b, q) ∷ m) h = ground (arith, h, put-lem a p cap m)

has-put : (a b : Address) (p : ℕ) (m : Map Address ℕ) → has b (put a p m) ≡ (a == b || has b m)
unfolding put
has-put a b p [] = ground arith
has-put a b p ((c, q) ∷ m) = ground (arith, has-put a b p m)

over-put :
    (a : Address) (p cap : ℕ) (m : Map Address ℕ)
    → p ≤ cap
    → over cap m ≡ []
    → over cap (put a p m) ≡ []
unfolding put over
over-put a p cap [] small h = ground arith
over-put a p cap ((c, q) ∷ m) small h = ground (arith, over-put a p cap m)

abbrev without : Address → Map Address ℕ → Map Address ℕ
without a = retain (λ row. not (row.0 == a))

has-without : (a b : Address) (m : Map Address ℕ) → has b (without a m) ≡ (not (a == b) && has b m)
has-without a b [] = ground arith
has-without a b ((c, q) ∷ m) = ground (arith, has-without a b m)

total-without : (a : Address) (m : Map Address ℕ) → total (without a m) ≤ total m
unfolding total
total-without a [] = ground arith
total-without a ((c, q) ∷ m) = ground (arith, total-without a m)

without-absent :
    (a : Address) (m : Map Address ℕ) → has a m ≡ false → length (without a m) ≡ length m
without-absent a [] h = refl
without-absent a ((c, q) ∷ m) h = ground (arith, h, without-absent a m)

length-without :
    (a : Address) (m : Map Address ℕ)
    → Single (keys m)
    → has a m ≡ true
    → length (without a m) + 1 ≡ length m
length-without a [] single h = cc
length-without a ((c, q) ∷ m) single h =
    ground
      (arith, h, single.0, same_number_iff c a, length-without a m single.1, without-absent a m)

without-Single : (a : Address) (m : Map Address ℕ) → Single (keys m) → Single (keys (without a m))
without-Single a [] single = tt
without-Single a ((c, q) ∷ m) single =
    ground (arith, single.0, has-without a c m, without-Single a m single.1)

apart-put :
    (a b : Address) (p : ℕ) (others : List Address) (powers : Map Address ℕ)
    → member a others ≡ false
    → member b others ≡ true
    → has b powers ≡ false
    → has b (put a p powers) ≡ false
apart-put a b p others powers absent there h = elim (Bool-cases (a == b)) [
  | inl same ↦
      ground (arith, ap (λ c. member c others) ((same_number_iff a b).0 same), absent, there)
  | inr other ↦ ground (arith, other, has-put a b p powers)
]

pub extend-total :
    (cap : ℕ) (m powers : Map Address ℕ)
    → Single (keys m)
    → ((b : Address) → has b m ≡ true → has b powers ≡ false)
    → over cap m ≡ []
    → over cap powers ≡ []
    → (total (extend m powers) ≡ total m + total powers) × (over cap (extend m powers) ≡ [])
unfolding extend total over
extend-total cap [] powers single apart small h = ground (arith, h)
extend-total cap ((a, p) ∷ m) powers single apart small h = ground (
  arith,
  small,
  put-lem a p cap powers (apart a (ground (arith, same_number_iff a a))),
  extend-total cap m (put a p powers) single.1
      (λ b there. apart-put a b p (keys m) powers single.0 there (apart b (ground (arith, there))))
      (ground (arith, small)) (over-put a p cap powers (ground (arith, small)) h),
)

one_more : (cap n : ℕ) → cap * (n + 1) ≡ cap * n + cap
one_more cap n = omega arith

-- What the rounds keep, for `n` validators.
pub record Kept (n cap : ℕ) (round : Round) : Type 0 where
  pub sum : total round.powers + round.remaining_power ≡ total_voting_power
  pub apart : (b : Address) → has b round.pool ≡ true → has b round.powers ≡ false
  pub fixed : total round.powers ≡ cap * length round.powers
  pub count : length round.powers + length round.pool ≡ n
  pub single : Single (keys round.pool)
  pub stake : total_voting_power * total round.pool < u128_bound
  pub within : over cap round.powers ≡ []

abbrev fixed_one : Address → ℕ → Round → Round
fixed_one a cap round = record {
  powers = put a cap round.powers;
  remaining_power = round.remaining_power - cap;
  pool = without a round.pool;
}

fixed_one-Kept :
    (n cap : ℕ) (a : Address) (round : Round)
    → Kept n cap round
    → has a round.pool ≡ true
    → cap ≤ round.remaining_power
    → Kept n cap (fixed_one a cap round) × (length (without a round.pool) + 1 ≡ length round.pool)
fixed_one-Kept n cap a round k there room =
    let absent = k.apart a there in
    let put_one = put-lem a cap cap round.powers absent in
    let shorter = length-without a round.pool k.single there in
    (
      record {
        sum = ground (arith, k.sum, put_one, room);
        apart = λ b inside.
            ground
              (arith, inside, has-without a b round.pool, has-put a b cap round.powers, k.apart b);
        fixed = ground (arith, k.fixed, put_one, one_more cap (length round.powers));
        count = ground (arith, k.count, put_one, shorter);
        single = without-Single a round.pool k.single;
        stake = ground (arith, k.stake, total-without a round.pool);
        within = over-put a cap cap round.powers (omega arith) k.within;
      },
      shorter,
    )

still_there :
    (a b : Address) (rest : List Address) (pool : Map Address ℕ)
    → member a rest ≡ false
    → member b rest ≡ true
    → has b pool ≡ true
    → has b (without a pool) ≡ true
still_there a b rest pool absent there h = elim (Bool-cases (a == b)) [
  | inl same ↦ ground (arith, ap (λ c. member c rest) ((same_number_iff a b).0 same), absent, there)
  | inr other ↦ ground (arith, other, has-without a b pool)
]

pub fix-Kept :
    (n cap : ℕ) (heavy : List Address) (round : Round)
    → Kept n cap round
    → Single heavy
    → ((b : Address) → member b heavy ≡ true → has b round.pool ≡ true)
    → cap * length heavy ≤ round.remaining_power
    → (after : Round) × (fix cap heavy round ≡ ok after)
      × Kept n cap after
      × (length after.pool + length heavy ≡ length round.pool)
unfolding fix
fix-Kept n cap [] round k single inside room = (round, refl, k, ground arith)
fix-Kept n cap (a ∷ rest) round k single inside room =
    let many = one_more cap (length rest) in
    let one =
      fixed_one-Kept n cap a round k (inside a (ground (arith, same_number_iff a a)))
        (ground (arith, room, many)) in
    let others =
      fix-Kept n cap rest (fixed_one a cap round) one.0 single.1
        (λ b there.
          still_there a b rest round.pool single.0 there (inside b (ground (arith, there))))
        (ground (arith, room, many)) in
    (others.0, ground (arith, room, many, others.1), others.2, ground (arith, others.3, one.1))

-- Those over the cap in a pass.
pub over-member :
    (cap : ℕ) (m : Map Address ℕ) (b : Address) → member b (over cap m) ≡ true → has b m ≡ true
unfolding over
over-member cap [] b h = h
over-member cap ((a, p) ∷ m) b h = ground (arith, h, over-member cap m b)

pub over-Single : (cap : ℕ) (m : Map Address ℕ) → Single (keys m) → Single (over cap m)
unfolding over
over-Single cap [] single = tt
over-Single cap ((a, p) ∷ m) single =
    ground (arith, single.0, over-member cap m a, over-Single cap m single.1)

pub over-total : (cap : ℕ) (m : Map Address ℕ) → cap * length (over cap m) ≤ total m
unfolding over total
over-total cap [] = ground arith
over-total cap ((a, p) ∷ m) = ground (arith, over-total cap m, one_more cap (length (over cap m)))
