-- ===== src/Primitives/ValidatorSet/Rotation.antt =====
-- The rotation of the proposers.
use native.Mathlib.Decide.{dec_lt}
use native.Mathlib.Nat.{mod-lt, mod-eq_of_lt, add-mod, add-mod_right}
use arxium.Prelude.{
  ℕ, zero, suc, ◌+◌, ◌-◌, ◌%◌, ◌<◌, ◌≡◌, inl, inr, refl, ap, ◌∙◌, true, ◌||◌, some, List, [], ◌∷◌,
  arith, ◌==◌, number_key, same_number_iff, length, get_elem?, Bool-cases,
}
use arxium.Prelude.Word.{u64_bound}
use arxium.Primitives.Address.{Address}
use arxium.Primitives.ValidatorSet.{member, place, sort, eligible_proposer}

length-place : (a : Address) (bs : List Address) → length (place a bs) ≡ suc (length bs)
length-place a [] = refl
length-place a (b ∷ bs) = ground (arith, length-place a bs)

length-sort : (validators : List Address) → length (sort validators) ≡ length validators
unfolding sort
length-sort [] = refl
length-sort (a ∷ rest) = ground (arith, length-place a (sort rest), length-sort rest)

member-place : (v a : Address) (bs : List Address) → member v (place a bs) ≡ (a == v || member v bs)
member-place v a [] = refl
member-place v a (b ∷ bs) = ground (arith, member-place v a bs)

member-sort :
    (v : Address) (validators : List Address) → member v (sort validators) ≡ member v validators
unfolding sort
member-sort v [] = refl
member-sort v (a ∷ rest) = ground (arith, member-place v a (sort rest), member-sort v rest)

-- A member stands somewhere, and what stands somewhere is a member.
position :
    (v : Address) (xs : List Address)
    → member v xs ≡ true
    → (i : ℕ) × (i < length xs) × (get_elem? xs i ≡ some v)
position v [] h = cc
position v (x ∷ xs) h = elim (Bool-cases (x == v)) [
  | inl same ↦ (0, ground arith, ap some ((same_number_iff x v).0 same))
  | inr other ↦
      (let rest = position v xs (ground (arith, other)) in
        (suc rest.0, ground (arith, rest.1), rest.2))
]

get_elem?-in :
    (xs : List Address) (i : ℕ)
    → i < length xs
    → (v : Address) × (get_elem? xs i ≡ some v) × (member v xs ≡ true)
get_elem?-in [] i h = ground arith
get_elem?-in (x ∷ xs) zero h = (x, refl, ground (arith, same_number_iff x x))
get_elem?-in (x ∷ xs) (suc i) h =
    let rest = get_elem?-in xs i (ground arith) in (rest.0, rest.1, ground (arith, rest.2))

the_sum : (n i : ℕ) → i < n → (h : ℕ) → h < n → (round : ℕ) × (round < n) × ((h + round) % n ≡ i)
the_sum n i inside h small = elim (dec_lt i h) [
  | yes before ↦ (
    i + n - h,
    omega arith,
    ap (λ k. k % n) (ground arith) ∙ add-mod_right i n ∙ mod-eq_of_lt {n = i} {m = n} inside,
  )
  | no after ↦
      (i - h, omega arith, ap (λ k. k % n) (ground arith) ∙ mod-eq_of_lt {n = i} {m = n} inside)
]

sum_mod : (a b n : ℕ) → b < n → (a + b) % n ≡ (a % n + b) % n
sum_mod a b n h = add-mod a b n ∙ ap (λ k. (a % n + k) % n) (mod-eq_of_lt {n = b} {m = n} h)

-- The round that brings a height to a position.
turn : (height n i : ℕ) → i < n → (round : ℕ) × (round < n) × ((height + round) % n ≡ i)
turn height n i inside =
    let found = the_sum n i inside (height % n) (mod-lt height {m = n} (omega arith)) in
    (found.0, found.1, sum_mod height found.0 n found.1 ∙ found.2)

-- A set that is not empty has a proposer at every height and in every round, who is one of
-- the set.
eligible_proposer-member :
    (validators : List Address) (height round : ℕ)
    → 0 < length validators
    → (v : Address) × (eligible_proposer validators height round ≡ some v)
      × (member v validators ≡ true)
unfolding eligible_proposer
eligible_proposer-member validators height round some_there =
    let found =
      get_elem?-in (sort validators) ((height + round) % u64_bound % length (sort validators))
        (mod-lt _ (ground (arith, length-sort validators))) in
    (found.0, ground (arith, found.1), ground (arith, found.2, member-sort found.0 validators))

-- Every validator gets a turn: at each height one of the first rounds, as many as there are
-- validators, has it as the proposer, where those rounds fit in u64.
pub eligible_proposer-turn :
    (validators : List Address) (height : ℕ) (v : Address)
    → member v validators ≡ true
    → height + length validators < u64_bound
    → (round : ℕ) × (round < length validators)
      × (eligible_proposer validators height round ≡ some v)
unfolding eligible_proposer
eligible_proposer-turn validators height v there room =
    let at = position v (sort validators) (ground (arith, member-sort v validators)) in
    let found = turn height (length (sort validators)) at.0 at.1 in
    (
      found.0,
      ground (arith, found.1, length-sort validators),
      ground (
        arith,
        length-sort validators,
        found.1,
        mod-eq_of_lt {n = height + found.0} {m = u64_bound}
            (ground (arith, length-sort validators, found.1)),
        found.2,
        at.1,
        at.2,
      ),
    )
