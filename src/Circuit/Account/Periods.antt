-- ===== src/Circuit/Account/Periods.antt =====
-- Sequences of debits against the limits of a policy.
use mathlib.Core.Path.{subst}
use arxium.Prelude.{
  ℕ, ◌+◌, ◌/◌, ◌≤◌, ◌<◌, ◌≡◌, ◌⊎◌, inl, inr, refl, sym, Option, List, [], ◌∷◌, arith, ◌==◌,
  number_key, if◌then◌else◌, Result, ok, err, panic, Bool-cases, Result-cases,
}
use arxium.Prelude.Sets.{sum_by}
use arxium.Primitives.Address.{Address}
use arxium.Primitives.Action.{SignatureError}
use arxium.Primitives.Policy.{
  SpendAsset, SpendingLimit, SpendCounter, ProgrammableAccount, PolicyAuthorization,
}
use arxium.Circuit.Account.Spending.{charge_limits, enforce_spending}
use arxium.Circuit.Account.Limits.{
  used_in, latest, amount_of, Charged, HasLimit, charge_limits-Charged,
}

pub record Call : Type 0 where
  pub auth : PolicyAuthorization
  pub height : ℕ
  pub spends : List (SpendAsset × ℕ)
  pub recipients : List Address
  pub transfer : Option (SpendAsset × Address × ℕ)

abbrev pub enforce : Call → ProgrammableAccount → Result SignatureError ProgrammableAccount
enforce c state = enforce_spending state c.auth c.height c.spends c.recipients c.transfer

-- The calls that are allowed, one after the other; one that is refused leaves the account as it was.
unfoldable pub approved : List Call → ProgrammableAccount → List Call
approved [] state = []
approved (c ∷ calls) state = elim (enforce c state) [
  | ok next ↦ c ∷ approved calls next
  | err e ↦ approved calls state
  | panic ↦ approved calls state
]

-- What the calls of one period take of the limit's asset.
abbrev pub taken_in : SpendingLimit → ℕ → List Call → ℕ
taken_in limit window calls =
    sum_by
      (λ (c : Call).
        if c.height / limit.period_blocks == window then amount_of limit.asset c.spends else 0)
      calls

enforce-Charged :
    (limit : SpendingLimit) (c : Call) (state next : ProgrammableAccount)
    → HasLimit limit state.policy.limits
    → enforce c state ≡ ok next
    → Charged limit
        (c.height / limit.period_blocks)
        (amount_of limit.asset c.spends)
        state.counters
        next.counters
      × (next.policy.limits ≡ state.policy.limits)
unfolding enforce_spending
enforce-Charged limit c state next has h =
    elim (Result-cases (charge_limits c.height c.spends state.policy.limits state.counters)) [
      | inl (counters, is) ↦ (
        charge_limits-Charged limit c.height c.spends state.policy.limits state.counters
            next.counters has (ground (arith, is, h)),
        ground (arith, is, h),
      )
      | inr (inl (e, is)) ↦ absurd (ground (arith, is, h))
      | inr (inr is) ↦ absurd (ground (arith, is, h))
    ]

unused_later :
    (limit : SpendingLimit) (window : ℕ) (counters : List SpendCounter)
    → latest limit.asset counters < window
    → used_in limit.asset window counters ≡ 0
unused_later limit window counters h = ground (arith, h)

-- Windows that were left are not charged any more, and in the others the rest stays within the limit.
Within : SpendingLimit → ℕ → List SpendCounter → ℕ → Type 0
Within limit window counters taken =
    (taken ≡ 0)
    ⊎ ((latest limit.asset counters ≤ window)
        × (used_in limit.asset window counters + taken ≤ limit.amount))

one_more_call :
    (limit : SpendingLimit) (window at amount : ℕ) (before after : List SpendCounter) (taken : ℕ)
    → Charged limit at amount before after
    → Within limit window after taken
    → Within limit window before ((if at == window then amount else 0) + taken)
unfolding Within
one_more_call limit window at amount before after taken k rest = elim (Bool-cases (at == window)) [
  | inl now ↦
      (let same : at ≡ window = ground (arith, now) in
        let c = subst (λ w. Charged limit w amount before after) same k in
        ground (arith, now, c.forward, c.adds, c.within, rest))
  | inr other ↦ ground (
    arith,
    other,
    k.forward,
    k.now,
    rest,
    unused_later limit window before,
    unused_later limit window after,
  )
]

approved-Within :
    (limit : SpendingLimit) (window : ℕ) (calls : List Call) (state : ProgrammableAccount)
    → HasLimit limit state.policy.limits
    → Within limit window state.counters (taken_in limit window (approved calls state))
unfolding Within approved sum_by
approved-Within limit window [] state has = inl refl
approved-Within limit window (c ∷ calls) state has = elim (Result-cases (enforce c state)) [
  | inl (next, is) ↦
      (let (k, same) = enforce-Charged limit c state next has is in
        let at = c.height / limit.period_blocks in
        let amount = amount_of limit.asset c.spends in
        let rest =
          approved-Within limit window calls next (subst (HasLimit limit) (sym same) has) in
        let more =
          one_more_call limit window at amount state.counters next.counters
            (taken_in limit window (approved calls next)) k rest in
        let eq : c ∷ approved calls next ≡ approved (c ∷ calls) state = ground (arith, is) in
        subst (λ calls. Within limit window state.counters (taken_in limit window calls)) eq more)
  | inr (inl (e, is)) ↦ ground (arith, is, approved-Within limit window calls state has)
  | inr (inr is) ↦ ground (arith, is, approved-Within limit window calls state has)
]

-- Whatever debits an account asks for, in any order and at any heights, those that are allowed in
-- one period of a limit take together at most the limit's amount of its asset. The limit is the
-- only one of its asset in the account's policy, as a valid policy has it.
pub enforce_spending-period :
    (limit : SpendingLimit) (window : ℕ) (calls : List Call) (state : ProgrammableAccount)
    → HasLimit limit state.policy.limits
    → taken_in limit window (approved calls state) ≤ limit.amount
unfolding Within
enforce_spending-period limit window calls state has =
    ground (arith, approved-Within limit window calls state has)
