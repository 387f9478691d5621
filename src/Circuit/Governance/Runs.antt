-- ===== src/Circuit/Governance/Runs.antt =====
-- What holds along every run of submissions, applications, votes and executions.
use mathlib.Core.Path.{subst}
use arxium.Prelude.{
  ℕ, ◌<◌, ◌≡◌, ◌⊎◌, inl, inr, refl, sym, ◌∙◌, Bool, true, false, Option, some, arith, ◌==◌,
  number_key, pair_key, ok, unwrap_or, Bool-cases,
}
use arxium.Prelude.Map.{Map, get, insert, get-insert}
use arxium.Primitives.State.{SystemAccounts}
use arxium.Primitives.Params.{ChainParams}
use arxium.Primitives.Governance.{GovernanceAction, Proposal}
use arxium.Primitives.Attestor.{Keys}
use arxium.Circuit.Governance.Types.{params_or_default}
use arxium.Circuit.Governance.Validate.{validate_params}
use arxium.Circuit.Governance.Vote.{tally_vote}
use arxium.Circuit.Governance.Execute.{closed}
use arxium.Circuit.Governance.SoundParams.{Sound, validate_params-Sound}
use arxium.Circuit.Governance.Chamber.{Chamber, Run}
use arxium.Circuit.Governance.Rows.{Checked, params_after, KeepsEpoch}
use arxium.Circuit.Governance.Changes.{Change, Step-Change}

-- Ids are given out in order, the parameters of every proposal passed their checks, and so did those in
-- force.
pub record Lawful (chamber : Chamber) : Type 0 where
  pub fresh :
      (id : ℕ) (proposal : Proposal)
      → get id chamber.proposals ≡ some proposal
      → id < unwrap_or chamber.next_id 0
  pub checked :
      (id : ℕ) (proposal : Proposal)
      → get id chamber.proposals ≡ some proposal
      → Checked proposal.action
  pub sane : validate_params (params_or_default chamber.params) ≡ ok tt

pub epoch_length_of : Chamber → ℕ
epoch_length_of chamber = (params_or_default chamber.params).epoch_length

abbrev Sane : Option ChainParams → Type 0
Sane params = validate_params (params_or_default params) ≡ ok tt

params_after-Sane :
    (action : GovernanceAction) (done : Bool) (before : Option ChainParams)
    → Checked action
    → KeepsEpoch action done before
    → Sane before
    → Sane (params_after action done before)
      × ((params_or_default (params_after action done before)).epoch_length
          ≡ (params_or_default before).epoch_length)
unfolding params_or_default
params_after-Sane (GovernanceAction.set_chain_params p) true before checked keeps sane =
    (checked, keeps refl)
params_after-Sane (GovernanceAction.set_chain_params p) false before checked keeps sane =
    (sane, refl)
params_after-Sane (GovernanceAction.treasury_spend to amount) done before checked keeps sane =
    (sane, refl)
params_after-Sane (GovernanceAction.resolve_dispute at header r cs cause bounty) done before checked
      keeps sane =
    (sane, refl)
params_after-Sane (GovernanceAction.reinstate_validator v) done before checked keeps sane =
    (sane, refl)
params_after-Sane (GovernanceAction.add_attestor a n os t hash uri) done before checked keeps sane =
    (sane, refl)
params_after-Sane (GovernanceAction.remove_attestor a) done before checked keeps sane = (sane, refl)
params_after-Sane (GovernanceAction.unblock_attestor a) done before checked keeps sane =
    (sane, refl)

pub tally_vote_keeps_action :
    (proposal : Proposal) (approve : Bool) (power : ℕ)
    → (tally_vote proposal approve power).action ≡ proposal.action
tally_vote_keeps_action proposal true power = refl
tally_vote_keeps_action proposal false power = refl

-- The row of an id after a row was written.
pub written :
    {A : Type 0} (k j : ℕ) (v : A) (m : Map ℕ A) {w : A}
    → get j (insert k v m) ≡ some w
    → ((k ≡ j) × (v ≡ w)) ⊎ (get j m ≡ some w)
written k j v m h = elim (Bool-cases (k == j)) [
  | inl same ↦ inl (ground (arith, same), ground (arith, get-insert k j v m, same, h))
  | inr other ↦ inr (ground (arith, get-insert k j v m, other, h))
]

pub Change-Lawful :
    {before after : Chamber}
    → Change before after
    → Lawful before
    → Lawful after × (epoch_length_of after ≡ epoch_length_of before)
unfolding epoch_length_of unwrap_or
Change-Lawful {before = before} (Change.opened id proposal next still checked is) lawful =
    subst (λ c. Lawful c × (epoch_length_of c ≡ epoch_length_of before)) (sym is)
      (
        record {
          fresh = λ j row h. elim (written id j proposal before.proposals h) [
            | inl (same, eq) ↦ ground (arith, same)
            | inr earlier ↦ ground (arith, next, lawful.fresh j row earlier)
          ];
          checked = λ j row h. elim (written id j proposal before.proposals h) [
            | inl (same, eq) ↦ subst (λ p. Checked p.action) eq checked
            | inr earlier ↦ lawful.checked j row earlier
          ];
          sane = lawful.sane;
        },
        refl,
      )
Change-Lawful {before = before}
      (Change.voted id proposal voter approve power found still unvoted is) lawful =
    subst (λ c. Lawful c × (epoch_length_of c ≡ epoch_length_of before)) (sym is)
      (
        record {
          fresh = λ j row h.
              elim (written id j (tally_vote proposal approve power) before.proposals h) [
                | inl (same, eq) ↦
                    subst (λ k. k < unwrap_or before.next_id 0) same
                      (lawful.fresh id proposal found)
                | inr earlier ↦ lawful.fresh j row earlier
              ];
          checked = λ j row h.
              elim (written id j (tally_vote proposal approve power) before.proposals h) [
                | inl (same, eq) ↦
                    subst (λ (p : Proposal). Checked p.action) eq
                      (subst Checked (sym (tally_vote_keeps_action proposal approve power))
                        (lawful.checked id proposal found))
                | inr earlier ↦ lawful.checked j row earlier
              ];
          sane = lawful.sane;
        },
        refl,
      )
Change-Lawful {before = before} (Change.ended id proposal done found still keeps is) lawful =
    let kept =
      params_after-Sane proposal.action done before.params (lawful.checked id proposal found) keeps
        lawful.sane in
    subst (λ c. Lawful c × (epoch_length_of c ≡ epoch_length_of before)) (sym is)
      (
        record {
          fresh = λ j row h. elim (written id j (closed proposal done) before.proposals h) [
            | inl (same, eq) ↦
                subst (λ k. k < unwrap_or before.next_id 0) same (lawful.fresh id proposal found)
            | inr earlier ↦ lawful.fresh j row earlier
          ];
          checked = λ j row h. elim (written id j (closed proposal done) before.proposals h) [
            | inl (same, eq) ↦
                subst (λ (p : Proposal). Checked p.action) eq (lawful.checked id proposal found)
            | inr earlier ↦ lawful.checked j row earlier
          ];
          sane = kept.0;
        },
        kept.1,
      )

pub Run-Lawful :
    (keys : Keys) (system : SystemAccounts) (before after : Chamber)
    → Lawful before
    → Run keys system before after
    → Lawful after × (epoch_length_of after ≡ epoch_length_of before)
Run-Lawful keys system before after lawful Run.none_yet = (lawful, refl)
Run-Lawful keys system before after lawful (Run.then_step {middle = middle} run step) =
    let (so_far, same) = Run-Lawful keys system before middle lawful run in
    let (next, still) = Change-Lawful (Step-Change step) so_far in (next, still ∙ same)

-- Along every run from lawful rows, of submissions, applications, votes and executions in any
-- order, the parameters in force stay sound and the length of an epoch does not change.
pub Run-params :
    (keys : Keys) (system : SystemAccounts) (before after : Chamber)
    → Lawful before
    → Run keys system before after
    → Sound (params_or_default after.params)
      × ((params_or_default after.params).epoch_length
          ≡ (params_or_default before.params).epoch_length)
unfolding epoch_length_of
Run-params keys system before after lawful run =
    let (kept, same) = Run-Lawful keys system before after lawful run in
    ((validate_params-Sound (params_or_default after.params)).0 kept.sane, same)
