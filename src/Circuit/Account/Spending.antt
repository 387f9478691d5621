-- ===== src/Circuit/Account/Spending.antt =====
-- circuits/account/src/policy.rs: `enforce_spending`, what an authorised debit does to the counters
-- and sessions.
use arxium.Prelude.{
  ℕ, ◌/◌, zero, suc, Bool, false, not, ◌||◌, Option, none, some, List, [], ◌∷◌, ltb, leb, ◌==◌,
  number_key, if◌then◌else◌, any, Result, ok, err, panic, reject_if, ◌>>=◌, ◌>>◌,
}
use arxium.Prelude.Word.{u128_bound, checked_add, checked_sub}
use arxium.Primitives.Address.{Address}
use arxium.Primitives.Action.{SignatureError}
use arxium.Primitives.Policy.{
  SpendAsset, SpendingLimit, SpendCounter, SessionKey, ProgrammableAccount, PolicyAuthorization,
}
use arxium.Primitives.PolicyRules.{asset_key}
use arxium.Circuit.Account.Policy.{is_guardian, or_refused}

-- The debits of one asset, added up; `none` past 128 bits.
unfoldable pub spent_of : SpendAsset → List (SpendAsset × ℕ) → ℕ → Option ℕ
spent_of what [] total = some total
spent_of what ((other, amount) ∷ spends) total =
    if other == what
    then (elim (checked_add u128_bound total amount) [
      | none ↦ none
      | some more ↦ spent_of what spends more
    ])
    else spent_of what spends total

-- One limit's counter: it moves to the window, and takes the amount if the limit allows.
abbrev pub bump : SpendingLimit → ℕ → ℕ → SpendCounter → Result SignatureError SpendCounter
bump limit window amount counter = do
  reject_if (ltb window counter.window)
      (SignatureError.bad_multisig "spending clock moved backwards")
  let before = if counter.window == window then counter.spent else 0
  spent ← or_refused (checked_add u128_bound before amount) "spending counter overflow"
  reject_if (ltb limit.amount spent) (SignatureError.bad_multisig "period spending limit exceeded")
  ok (record counter { window = window; spent = spent })

-- The first counter of the asset, or a new one at the end.
unfoldable pub charge :
    SpendingLimit → ℕ → ℕ → List SpendCounter → Result SignatureError (List SpendCounter)
charge limit window amount [] =
    bump limit window amount (record { asset = limit.asset; window = window; spent = 0 })
    >>= λ counter. ok (counter ∷ [])
charge limit window amount (counter ∷ counters) =
    if counter.asset == limit.asset
    then (bump limit window amount counter >>= λ bumped. ok (bumped ∷ counters))
    else (charge limit window amount counters >>= λ rest. ok (counter ∷ rest))

-- `height / period`, which panics where the period is 0.
abbrev pub window_of : ℕ → ℕ → Result SignatureError ℕ
window_of height period = if period == 0 then panic else ok (height / period)

unfoldable pub charge_limits :
    ℕ
    → List (SpendAsset × ℕ)
    → List SpendingLimit
    → List SpendCounter
    → Result SignatureError (List SpendCounter)
charge_limits height spends [] counters = ok counters
charge_limits height spends (limit ∷ limits) counters = do
  amount ← or_refused (spent_of limit.asset spends 0) "spending amount overflow"
  window ← window_of height limit.period_blocks
  charged ← charge limit window amount counters
  charge_limits height spends limits charged

abbrev pub outside : Option (List Address) → List Address → Bool
outside none recipients = false
outside (some allowlist) recipients = any (λ to. not (any (λ a. a == to) allowlist)) recipients

-- The transfer of a session, against its expiry, asset, recipients and allowance.
unfoldable pub use_session :
    ℕ → SpendAsset → Address → ℕ → SessionKey → Result SignatureError SessionKey
use_session height what to amount session = do
  reject_if
      (leb session.expires_at height
        || not (what == session.asset)
        || not (any (λ a. a == to) session.recipients))
      (SignatureError.bad_multisig "session expired or transfer outside scope")
  allowance ← or_refused (checked_sub session.allowance amount) "session allowance exceeded"
  ok (record session { allowance = allowance })

-- `sessions.get_mut(i)`
unfoldable pub use_nth :
    ℕ → SpendAsset → Address → ℕ → ℕ → List SessionKey → Result SignatureError (List SessionKey)
use_nth height what to amount i [] = err (SignatureError.bad_multisig "session revoked")
use_nth height what to amount zero (session ∷ sessions) =
    use_session height what to amount session >>= λ used. ok (used ∷ sessions)
use_nth height what to amount (suc i) (session ∷ sessions) =
    use_nth height what to amount i sessions >>= λ rest. ok (session ∷ rest)

unfoldable pub charge_session :
    PolicyAuthorization
    → ℕ
    → Option (SpendAsset × Address × ℕ)
    → List SessionKey
    → Result SignatureError (List SessionKey)
charge_session PolicyAuthorization.owner height transfer sessions = ok sessions
charge_session PolicyAuthorization.guardian height transfer sessions = ok sessions
charge_session (PolicyAuthorization.session i) height transfer sessions = do
  t ← or_refused transfer "sessions are transfer-only"
  use_nth height t.0 t.1 t.2 i sessions

unfoldable pub enforce_spending :
    ProgrammableAccount
    → PolicyAuthorization
    → ℕ
    → List (SpendAsset × ℕ)
    → List Address
    → Option (SpendAsset × Address × ℕ)
    → Result SignatureError ProgrammableAccount
enforce_spending state auth height spends recipients transfer = do
  reject_if (is_guardian auth) (SignatureError.bad_multisig "guardians cannot authorize spending")
  reject_if (outside state.policy.recipients recipients)
      (SignatureError.bad_multisig "recipient is not allowed by account policy")
  counters ← charge_limits height spends state.policy.limits state.counters
  sessions ← charge_session auth height transfer state.policy.sessions
  ok (record state { counters = counters; policy = record state.policy { sessions = sessions } })
