-- ===== src/Primitives/ValidatorSet/Quorum.antt =====
-- Signed power against the set: what it is, and what two quorums share.
use arxium.Prelude.{
  ℕ, ◌+◌, ◌*◌, ◌≤◌, ◌<◌, ◌≡◌, refl, sym, ap, ◌∙◌, inl, inr, Bool-cases, same_number_iff, Bool, true,
  false, ◌||◌, ◌&&◌, none, List, [], ◌∷◌, arith, ◌==◌, number_key, if◌then◌else◌, retain, ok,
}
use arxium.Prelude.Word.{u32_bound}
use arxium.Prelude.Map.{Map, get}
use arxium.Primitives.Address.{Address}
use arxium.Primitives.Params.{VotingPower, total_voting_power}
use arxium.Primitives.ValidatorSet.{member, power_of, signed_after, signed_power, quorum_reached}

-- The power of the rows whose address passes a test.
unfoldable pub power_where : (Address → Bool) → Map Address VotingPower → ℕ
power_where p [] = 0
power_where p ((a, power) ∷ set) = (if p a then power else 0) + power_where p set

abbrev pub everyone : Address → Bool
everyone a = true

-- One row for each address, as in a `BTreeMap`.
abbrev pub Distinct : Map Address VotingPower → Type 0
Distinct [] = Unit
Distinct ((a, power) ∷ set) = (get a set ≡ none) × Distinct set

power_where-same :
    (p q : Address → Bool) (set : Map Address VotingPower)
    → ((a : Address) → p a ≡ q a)
    → power_where p set ≡ power_where q set
unfolding power_where
power_where-same p q [] h = refl
power_where-same p q ((a, power) ∷ set) h = ground (arith, h a, power_where-same p q set h)

power_where-absent :
    (s : Address) (p : Address → Bool) (set : Map Address VotingPower)
    → get s set ≡ none
    → power_where (λ a. s == a || p a) set ≡ power_where p set
unfolding power_where get
power_where-absent s p [] h = refl
power_where-absent s p ((a, power) ∷ set) h = ground (arith, power_where-absent s p set)

-- One more address adds its power.
power_where-more :
    (s : Address) (p : Address → Bool) (set : Map Address VotingPower)
    → Distinct set
    → p s ≡ false
    → power_where (λ a. s == a || p a) set ≡ power_where p set + power_of (get s set)
unfolding power_where get
power_where-more s p [] d h = ground arith
power_where-more s p ((a, power) ∷ set) d h =
    ground (arith, d, h, power_where-more s p set d.1, power_where-absent s p set)

power_where-le_all :
    (p : Address → Bool) (set : Map Address VotingPower)
    → power_where p set ≤ power_where everyone set
unfolding power_where
power_where-le_all p [] = ground arith
power_where-le_all p ((a, power) ∷ set) = ground (arith, power_where-le_all p set)

seen_before :
    (s a : Address) (signers seen : List Address)
    → member s seen ≡ true
    → member a signers || member a seen ≡ member a (s ∷ signers) || member a seen
seen_before s a signers seen h = elim (Bool-cases (s == a)) [
  | inl same ↦ ground (arith, h, ap (λ b. member b seen) ((same_number_iff s a).0 same), same)
  | inr other ↦ ground (arith, other)
]

swapped :
    (s a : Address) (signers seen : List Address)
    → member a signers || member a (s ∷ seen) ≡ member a (s ∷ signers) || member a seen
swapped s a signers seen = ground arith

nobody : (set : Map Address VotingPower) → power_where (λ a. member a []) set ≡ 0
unfolding power_where
nobody [] = refl
nobody ((a, power) ∷ set) = ground (arith, nobody set)

signed_after-power_where :
    (set : Map Address VotingPower) (seen : List Address) (sum : ℕ) (signers : List Address)
    → Distinct set
    → power_where everyone set < u32_bound
    → sum ≡ power_where (λ a. member a seen) set
    → signed_after set seen sum signers
      ≡ ok (power_where (λ a. member a signers || member a seen) set)
unfolding signed_after
signed_after-power_where set seen sum [] d room h = ap ok h
signed_after-power_where set seen sum (s ∷ signers) d room h = elim (Bool-cases (member s seen)) [
  | inl met ↦ ground (
    arith,
    met,
    signed_after-power_where set seen sum signers d room h,
    power_where-same (λ a. member a signers || member a seen)
        (λ a. member a (s ∷ signers) || member a seen) set (λ a. seen_before s a signers seen met),
  )
  | inr new ↦
      (let more = power_where-more s (λ a. member a seen) set d new in
        ground (
          arith,
          new,
          more,
          h,
          room,
          power_where-le_all (λ a. member a (s ∷ seen)) set,
          signed_after-power_where set (s ∷ seen) (sum + power_of (get s set)) signers d room
              (ap (λ n. n + power_of (get s set)) h ∙ sym more),
          power_where-same (λ a. member a signers || member a (s ∷ seen))
              (λ a. member a (s ∷ signers) || member a seen) set (λ a. swapped s a signers seen),
        ))
]

-- In a set with one row for each address, whose powers add up to less than 2^32, the power of a list
-- of signers is the sum of the power of the rows that one of them signed for: a signer that comes twice
-- counts once, and one outside the set counts nothing.
pub signed_power-power_where :
    (set : Map Address VotingPower) (signers : List Address)
    → Distinct set
    → power_where everyone set < u32_bound
    → signed_power set signers ≡ ok (power_where (λ a. member a signers) set)
unfolding signed_power
signed_power-power_where set signers d room = ground (
  arith,
  signed_after-power_where set [] 0 signers d room (sym (nobody set)),
  power_where-same (λ a. member a signers || member a []) (λ a. member a signers) set
      (λ a. ground arith),
)

-- Of two groups of rows, what both have is at least what the two have beyond the whole.
overlap :
    (p q : Address → Bool) (set : Map Address VotingPower)
    → power_where p set + power_where q set
      ≤ power_where everyone set + power_where (λ a. p a && q a) set
unfolding power_where
overlap p q [] = ground arith
overlap p q ((a, power) ∷ set) = ground (arith, overlap p q set)

member-retain :
    (a : Address) (others signers : List Address)
    → member a (retain (λ b. member b others) signers) ≡ member a signers && member a others
member-retain a others [] = refl
member-retain a others (s ∷ signers) = elim (Bool-cases (s == a)) [
  | inl same ↦ ground (
    arith,
    same,
    ap (λ b. member b others) ((same_number_iff s a).0 same),
    member-retain a others signers,
  )
  | inr other ↦ ground (arith, other, member-retain a others signers)
]

-- In a set with one row for each address, whose powers add up to the whole, two lists of signers that
-- both reach the quorum have common signers with more than a third of the power.
pub quorum_reached-overlap :
    (set : Map Address VotingPower) (signers others : List Address)
    → Distinct set
    → power_where everyone set ≡ total_voting_power
    → quorum_reached set signers ≡ ok true
    → quorum_reached set others ≡ ok true
    → (common : ℕ) × (signed_power set (retain (λ s. member s others) signers) ≡ ok common)
      × (total_voting_power < 3 * common)
unfolding quorum_reached
quorum_reached-overlap set signers others d whole one two =
    let both = retain (λ s. member s others) signers in
    (
      power_where (λ a. member a both) set,
      signed_power-power_where set both d (ground (arith, whole)),
      ground (
        arith,
        whole,
        signed_power-power_where set signers d (ground (arith, whole)),
        signed_power-power_where set others d (ground (arith, whole)),
        overlap (λ a. member a signers) (λ a. member a others) set,
        power_where-same (λ a. member a both) (λ a. member a signers && member a others) set
            (λ a. member-retain a others signers),
      ),
    )
