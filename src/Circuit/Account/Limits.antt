-- ===== src/Circuit/Account/Limits.antt =====
-- What the spending limits of a policy bound: the debits of each period.
use mathlib.Core.Path.{subst}
use arxium.Prelude.{
  ℕ, ◌+◌, ◌/◌, ◌≤◌, ◌≡◌, inl, inr, sym, ap, ◌∙◌, Bool, true, false, Option, none, some, List, [],
  ◌∷◌, arith, ◌==◌, number_key, if◌then◌else◌, any, find, ok, Bool-cases, >>=-eq-ok, ◌>>=◌,
  unwrap_or,
}
use arxium.Prelude.Sets.{count}
use arxium.Primitives.Policy.{SpendAsset, SpendingLimit, SpendCounter}
use arxium.Primitives.PolicyRules.{asset_key, same_asset_iff}
use arxium.Circuit.Account.Policy.{same_limit, or_refused}
use arxium.Circuit.Account.Spending.{spent_of, window_of, bump, charge, charge_limits}

abbrev pub counter_of : SpendAsset → List SpendCounter → Option SpendCounter
counter_of what counters = find (λ (c : SpendCounter). c.asset == what) counters

abbrev spent_at : ℕ → Option SpendCounter → ℕ
spent_at window none = 0
spent_at window (some c) = if c.window == window then c.spent else 0

abbrev latest_of : Option SpendCounter → ℕ
latest_of none = 0
latest_of (some c) = c.window

-- What the counter says of a window, and the last window that it was used in.
abbrev pub used_in : SpendAsset → ℕ → List SpendCounter → ℕ
used_in what window counters = spent_at window (counter_of what counters)

abbrev pub latest : SpendAsset → List SpendCounter → ℕ
latest what counters = latest_of (counter_of what counters)

-- A charge of `amount` at `window` against the limit.
pub record Charged (limit : SpendingLimit) (window amount : ℕ) (before after : List SpendCounter)
    : Type 0 where
  pub forward : latest limit.asset before ≤ window
  pub now : latest limit.asset after ≡ window
  pub adds : used_in limit.asset window after ≡ used_in limit.asset window before + amount
  pub within : used_in limit.asset window after ≤ limit.amount

abbrev spent_before : ℕ → SpendCounter → ℕ
spent_before window c = if c.window == window then c.spent else 0

record Bumped (limit : SpendingLimit) (window amount : ℕ) (c d : SpendCounter) : Type 0 where
  forward : c.window ≤ window
  same : d.asset ≡ c.asset
  now : d.window ≡ window
  adds : d.spent ≡ spent_before window c + amount
  within : d.spent ≤ limit.amount

bump-Bumped :
    (limit : SpendingLimit) (window amount : ℕ) (c d : SpendCounter)
    → bump limit window amount c ≡ ok d
    → Bumped limit window amount c d
bump-Bumped limit window amount c d h = record {
  forward = ground (arith, h);
  same = ground (arith, h);
  now = ground (arith, h);
  adds = ground (arith, h);
  within = ground (arith, h);
}

charge-Charged :
    (limit : SpendingLimit) (window amount : ℕ) (before after : List SpendCounter)
    → charge limit window amount before ≡ ok after
    → Charged limit window amount before after
unfolding charge
charge-Charged limit window amount [] after h =
    let (d, is, eq) =
      >>=-eq-ok
        (bump limit window amount (record { asset = limit.asset; window = window; spent = 0 }))
        (λ counter. ok (counter ∷ [])) h in
    let b =
      bump-Bumped limit window amount (record { asset = limit.asset; window = window; spent = 0 }) d
        is in
    let own = same_asset_iff d.asset limit.asset in
    record {
      forward = omega arith;
      now = ground (arith, eq, b.same, b.now, own);
      adds = ground (arith, eq, b.same, b.now, b.adds, own);
      within = ground (arith, eq, b.same, b.now, b.within, own);
    }
charge-Charged limit window amount (c ∷ before) after h =
    elim (Bool-cases (c.asset == limit.asset)) [
      | inl own ↦
          (let (d, is, eq) =
              >>=-eq-ok {b = after} (bump limit window amount c) (λ bumped. ok (bumped ∷ before))
                (ground (arith, h, own)) in
            let b = bump-Bumped limit window amount c d is in
            record {
              forward = ground (arith, own, b.forward);
              now = ground (arith, eq, own, b.same, b.now);
              adds = ground (arith, eq, own, b.same, b.now, b.adds);
              within = ground (arith, eq, own, b.same, b.now, b.within);
            })
      | inr other ↦
          (let (rest, is, eq) =
              >>=-eq-ok {b = after} (charge limit window amount before) (λ rest. ok (c ∷ rest))
                (ground (arith, h, other)) in
            let k = charge-Charged limit window amount before rest is in
            record {
              forward = ground (arith, other, k.forward);
              now = ground (arith, eq, other, k.now);
              adds = ground (arith, eq, other, k.adds);
              within = ground (arith, eq, other, k.within);
            })
    ]

-- The counters of other assets stay.
charge-others :
    (limit : SpendingLimit) (window amount : ℕ) (before after : List SpendCounter)
    (what : SpendAsset)
    → charge limit window amount before ≡ ok after
    → (limit.asset == what) ≡ false
    → counter_of what after ≡ counter_of what before
unfolding charge
charge-others limit window amount [] after what h apart =
    let (d, is, eq) =
      >>=-eq-ok
        (bump limit window amount (record { asset = limit.asset; window = window; spent = 0 }))
        (λ counter. ok (counter ∷ [])) h in
    let b =
      bump-Bumped limit window amount (record { asset = limit.asset; window = window; spent = 0 }) d
        is in
    ground (arith, eq, b.same, apart)
charge-others limit window amount (c ∷ before) after what h apart =
    elim (Bool-cases (c.asset == limit.asset)) [
      | inl own ↦
          (let (d, is, eq) =
              >>=-eq-ok {b = after} (bump limit window amount c) (λ bumped. ok (bumped ∷ before))
                (ground (arith, h, own)) in
            let b = bump-Bumped limit window amount c d is in
            ground (arith, eq, own, b.same, apart, same_asset_iff c.asset limit.asset))
      | inr other ↦
          (let (rest, is, eq) =
              >>=-eq-ok {b = after} (charge limit window amount before) (λ rest. ok (c ∷ rest))
                (ground (arith, h, other)) in
            ground (arith, eq, charge-others limit window amount before rest what is apart))
    ]

abbrev pub on_asset : SpendAsset → SpendingLimit → Bool
on_asset what limit = limit.asset == what

-- The menu has the limit, and no other for its asset.
pub record HasLimit (limit : SpendingLimit) (limits : List SpendingLimit) : Type 0 where
  pub listed : any (λ l. same_limit l limit) limits ≡ true
  pub alone : count (on_asset limit.asset) limits ≡ 1

-- What a list of debits takes of an asset.
abbrev pub amount_of : SpendAsset → List (SpendAsset × ℕ) → ℕ
amount_of what spends = unwrap_or (spent_of what spends 0) 0

charge_limits-others :
    (what : SpendAsset) (height : ℕ) (spends : List (SpendAsset × ℕ)) (limits : List SpendingLimit)
    (before after : List SpendCounter)
    → count (on_asset what) limits ≡ 0
    → charge_limits height spends limits before ≡ ok after
    → counter_of what after ≡ counter_of what before
unfolding charge_limits count
charge_limits-others what height spends [] before after none_of h = ground (arith, h)
charge_limits-others what height spends (l ∷ limits) before after none_of h =
    let (amount, spent, h1) =
      >>=-eq-ok {b = after} (or_refused (spent_of l.asset spends 0) "spending amount overflow")
        (λ amount. window_of height l.period_blocks >>= λ window.
          charge l window amount before >>= λ charged. charge_limits height spends limits charged)
        h in
    let (window, is, h2) =
      >>=-eq-ok {b = after} (window_of height l.period_blocks)
        (λ window.
          charge l window amount before >>= λ charged. charge_limits height spends limits charged)
        h1 in
    let (charged, one, rest) =
      >>=-eq-ok {b = after} (charge l window amount before)
        (λ charged. charge_limits height spends limits charged) h2 in
    charge_limits-others what height spends limits charged after (ground (arith, none_of)) rest
    ∙ charge-others l window amount before charged what one (ground (arith, none_of))

same_limit-eq : (a b : SpendingLimit) → same_limit a b ≡ true → a ≡ b
same_limit-eq a b h = ground (arith, h, same_asset_iff a.asset b.asset)

listed_counts :
    (limit : SpendingLimit) (limits : List SpendingLimit)
    → any (λ l. same_limit l limit) limits ≡ true
    → 1 ≤ count (on_asset limit.asset) limits
unfolding count
listed_counts limit [] h = ground (arith, h)
listed_counts limit (l ∷ limits) h = ground (arith, h, listed_counts limit limits)

same_counter :
    (limit : SpendingLimit) (window amount : ℕ) (before charged after : List SpendCounter)
    → Charged limit window amount before charged
    → counter_of limit.asset after ≡ counter_of limit.asset charged
    → Charged limit window amount before after
same_counter limit window amount before charged after c same = record {
  forward = c.forward;
  now = ap latest_of same ∙ c.now;
  adds = ap (spent_at window) same ∙ c.adds;
  within = subst (λ o. spent_at window o ≤ limit.amount) (sym same) c.within;
}

pub charge_limits-Charged :
    (limit : SpendingLimit) (height : ℕ) (spends : List (SpendAsset × ℕ))
    (limits : List SpendingLimit) (before after : List SpendCounter)
    → HasLimit limit limits
    → charge_limits height spends limits before ≡ ok after
    → Charged limit (height / limit.period_blocks) (amount_of limit.asset spends) before after
unfolding charge_limits count unwrap_or
charge_limits-Charged limit height spends [] before after has h = absurd (ground (arith, has.alone))
charge_limits-Charged limit height spends (l ∷ limits) before after has h =
    let (amount, spent, h1) =
      >>=-eq-ok {b = after} (or_refused (spent_of l.asset spends 0) "spending amount overflow")
        (λ amount. window_of height l.period_blocks >>= λ window.
          charge l window amount before >>= λ charged. charge_limits height spends limits charged)
        h in
    let (window, is, h2) =
      >>=-eq-ok {b = after} (window_of height l.period_blocks)
        (λ window.
          charge l window amount before >>= λ charged. charge_limits height spends limits charged)
        h1 in
    let (charged, one, rest) =
      >>=-eq-ok {b = after} (charge l window amount before)
        (λ charged. charge_limits height spends limits charged) h2 in
    elim (Bool-cases (l.asset == limit.asset)) [
      | inl own ↦
          (let mine : l ≡ limit =
              same_limit-eq l limit
                (ground (arith, has.listed, has.alone, own, listed_counts limit limits)) in
            same_counter limit (height / limit.period_blocks) (amount_of limit.asset spends) before
              charged after
              (subst
                (λ (m : SpendingLimit).
                  Charged m (height / m.period_blocks) (amount_of m.asset spends) before charged)
                mine
                (charge-Charged l (height / l.period_blocks) (amount_of l.asset spends) before
                  charged (ground (arith, one, spent, is))))
              (charge_limits-others limit.asset height spends limits charged after
                (ground (arith, has.alone, own)) rest))
      | inr other ↦
          (let same : counter_of limit.asset charged ≡ counter_of limit.asset before =
              charge-others l window amount before charged limit.asset one other in
            let c =
              charge_limits-Charged limit height spends limits charged after
                (record {
                  listed = ground (arith, has.listed, other);
                  alone = ground (arith, has.alone, other);
                })
                rest in
            record {
              forward = ground (arith, c.forward, same);
              now = c.now;
              adds =
                  c.adds
                  ∙ ap
                      (λ o.
                        spent_at (height / limit.period_blocks) o + amount_of limit.asset spends)
                      same;
              within = c.within;
            })
    ]
