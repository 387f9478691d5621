-- ===== src/Circuit/Governance/Once.antt =====
-- Votes and executions happen once: what the rows keep along every later run.
use arxium.Prelude.{
  ℕ, ◌≡◌, ◌≢◌, sym, ap, ◌∙◌, Bool, false, some, [], ◌∷◌, arith, number_key, pair_key, ok, err,
  unwrap_or,
}
use arxium.Prelude.Map.{get, get-insert, get-insert_self}
use arxium.Primitives.Address.{Address}
use arxium.Primitives.State.{SystemAccounts}
use arxium.Primitives.Governance.{Proposal}
use arxium.Primitives.Attestor.{Keys}
use arxium.Circuit.View.{View}
use arxium.Circuit.Updates.{GovernanceUpdates, put_proposal, put_vote}
use arxium.Circuit.Governance.Types.{GovernanceError, find_proposal}
use arxium.Circuit.Governance.Vote.{is_open, tally_vote, apply_vote}
use arxium.Circuit.Governance.Execute.{Effects, closed, apply_execute}
use arxium.Circuit.Governance.Outcome.{Executed, apply_vote-Voted, apply_execute-Executed}
use arxium.Circuit.Governance.Chamber.{Chamber, vote_of, Sees, write_rows, Step, Run}
use arxium.Circuit.Governance.Rows.{find_proposal-eq-ok}
use arxium.Circuit.Governance.Changes.{Change, Step-Change, execution_rows}
use arxium.Circuit.Governance.Runs.{Lawful, Change-Lawful, Run-Lawful}

Change-vote :
    {before after : Chamber} (id : ℕ) (voter : Address) {approve : Bool}
    → Change before after
    → vote_of id voter before ≡ some approve
    → vote_of id voter after ≡ some approve
Change-vote id voter (Change.opened at proposal next still checked is) h =
    ap (vote_of id voter) is ∙ h
Change-vote {before = before} id voter
      (Change.voted at proposal who approve power found still unvoted is) h =
    ap (vote_of id voter) is
    ∙ get-insert {K = ℕ × Address} (at, who) (id, voter) approve before.votes
    ∙ ground (arith, h, unvoted)
Change-vote id voter (Change.ended at proposal done found still keeps is) h =
    ap (vote_of id voter) is ∙ h

Run-vote :
    {keys : Keys} {system : SystemAccounts} {before after : Chamber} (id : ℕ) (voter : Address)
    {approve : Bool}
    → Run keys system before after
    → vote_of id voter before ≡ some approve
    → vote_of id voter after ≡ some approve
Run-vote id voter Run.none_yet h = h
Run-vote id voter (Run.then_step run step) h =
    Change-vote id voter (Step-Change step) (Run-vote id voter run h)

-- The row of a closed proposal.
ClosedAs : ℕ → Proposal → Chamber → Type 0
ClosedAs id proposal chamber =
    (get id chamber.proposals ≡ some proposal) × (is_open proposal.status ≡ false)

Change-ClosedAs :
    {before after : Chamber} (id : ℕ) (proposal : Proposal)
    → Lawful before
    → Change before after
    → ClosedAs id proposal before
    → ClosedAs id proposal after
unfolding ClosedAs unwrap_or
Change-ClosedAs {before = before} id proposal lawful (Change.opened at row next still checked is)
      (h, shut) =
    (
      ap (λ (c : Chamber). get id c.proposals) is
          ∙ ground
              (arith, get-insert at id row before.proposals, h, next, lawful.fresh id proposal h),
      shut,
    )
Change-ClosedAs {before = before} id proposal lawful
      (Change.voted at row who approve power found still unvoted is) (h, shut) =
    (
      ap (λ (c : Chamber). get id c.proposals) is
          ∙ ground (
            arith,
            get-insert at id (tally_vote row approve power) before.proposals,
            h,
            shut,
            found,
            still,
          ),
      shut,
    )
Change-ClosedAs {before = before} id proposal lawful (Change.ended at row done found still keeps is)
      (h, shut) =
    (
      ap (λ (c : Chamber). get id c.proposals) is
          ∙ ground
              (arith, get-insert at id (closed row done) before.proposals, h, shut, found, still),
      shut,
    )

Run-ClosedAs :
    {keys : Keys} {system : SystemAccounts} {before after : Chamber} (id : ℕ) (proposal : Proposal)
    → Lawful before
    → Run keys system before after
    → ClosedAs id proposal before
    → ClosedAs id proposal after
Run-ClosedAs id proposal lawful Run.none_yet h = h
Run-ClosedAs {keys = keys} {system = system} {before = before} id proposal lawful
      (Run.then_step {middle = middle} run step) h =
    Change-ClosedAs id proposal (Run-Lawful keys system before middle lawful run).0
      (Step-Change step) (Run-ClosedAs id proposal lawful run h)

recorded :
    (id : ℕ) (proposal : Proposal) (voter : Address) (approve : Bool) (power : ℕ) (before : Chamber)
    → vote_of id voter (
        write_rows
          (put_proposal id (tally_vote proposal approve power) ∷ put_vote id voter approve ∷ [])
          before)
      ≡ some approve
unfolding write_rows
recorded id proposal voter approve power before =
    get-insert_self {K = ℕ × Address} (id, voter) approve before.votes

execution-ClosedAs :
    (view : View) (before : Chamber) (sees : Sees view before) (keys : Keys)
    (system : SystemAccounts) (id height : ℕ) (effects : Effects)
    (e : Executed keys system view id height effects)
    → ClosedAs id (closed e.proposal e.acted.done) (write_rows effects.updates before)
unfolding ClosedAs
execution-ClosedAs view before sees keys system id height effects e = (
  ap (λ (c : Chamber). get id c.proposals)
        (execution_rows view before sees keys system id height effects e)
      ∙ get-insert_self id (closed e.proposal e.acted.done) before.proposals,
  ground (arith),
)

module _ (view : View) (chamber : Chamber) (sees : Sees view chamber) where
  -- A voter whose vote is recorded, or a proposal that is closed, takes no vote.
  voted_refused :
      (voter : Address) (id : ℕ) (approve : Bool) (height : ℕ) {earlier : Bool}
      → vote_of id voter chamber ≡ some earlier
      → (rows : GovernanceUpdates) → apply_vote view voter id approve height ≢ ok rows
  voted_refused voter id approve height h rows is =
      let v = apply_vote-Voted view voter id approve height rows is in
      ground (arith, v.unvoted, sees.vote id voter, h)

  closed_refused :
      (voter : Address) (id : ℕ) (approve : Bool) (height : ℕ) (proposal : Proposal)
      → ClosedAs id proposal chamber
      → (rows : GovernanceUpdates) → apply_vote view voter id approve height ≢ ok rows
  unfolding ClosedAs
  closed_refused voter id approve height proposal (h, shut) rows is =
      let v = apply_vote-Voted view voter id approve height rows is in
      let found = find_proposal-eq-ok view chamber sees id v.found in
      ground (arith, h, shut, found, v.open_still)

  execute_refused :
      (keys : Keys) (system : SystemAccounts) (id height : ℕ) (proposal : Proposal)
      → ClosedAs id proposal chamber
      → apply_execute keys system view id height ≡ err (GovernanceError.not_open id)
  unfolding ClosedAs apply_execute find_proposal
  execute_refused keys system id height proposal (h, shut) =
      ground (arith, h, shut, sees.proposal id)

-- Once a vote is committed, its record stays whatever is committed later, and nobody who reads
-- those rows lets the same voter vote on the same proposal again.
pub apply_vote-once :
    (keys : Keys) (system : SystemAccounts) (view : View) (voter : Address) (id : ℕ)
    (approve : Bool) (height : ℕ) (rows : GovernanceUpdates) (before after : Chamber) (later : View)
    (again : Bool) (later_height : ℕ) (more : GovernanceUpdates)
    → apply_vote view voter id approve height ≡ ok rows
    → Run keys system (write_rows rows before) after
    → Sees later after
    → (vote_of id voter after ≡ some approve)
      × (apply_vote later voter id again later_height ≢ ok more)
apply_vote-once keys system view voter id approve height rows before after later again later_height
      more h run sees =
    let v = apply_vote-Voted view voter id approve height rows h in
    let kept = Run-vote id voter run (
      ap (λ r. vote_of id voter (write_rows r before)) v.written
      ∙ recorded id v.proposal voter approve v.power before) in
    (kept, voted_refused later after sees voter id again later_height kept more)

-- Once an execution is committed, the proposal's row stays as the execution closed it whatever is
-- committed later, every later execution of it fails with the error NotOpen, and nobody can vote on
-- it. The rows before it are lawful and those that the execution saw.
pub apply_execute-final :
    (keys : Keys) (system : SystemAccounts) (view : View) (id height : ℕ) (effects : Effects)
    (before after : Chamber) (later : View) (later_height : ℕ) (voter : Address) (approve : Bool)
    (rows : GovernanceUpdates)
    → Lawful before
    → Sees view before
    → apply_execute keys system view id height ≡ ok effects
    → Run keys system (write_rows effects.updates before) after
    → Sees later after
    → (get id after.proposals ≡ get id (write_rows effects.updates before).proposals)
      × (apply_execute keys system later id later_height ≡ err (GovernanceError.not_open id))
      × (apply_vote later voter id approve later_height ≢ ok rows)
unfolding ClosedAs
apply_execute-final keys system view id height effects before after later later_height voter approve
      rows lawful sees h run sees_later =
    let e = apply_execute-Executed keys system view id height effects h in
    let proposal = closed e.proposal e.acted.done in
    let middle = write_rows effects.updates before in
    let now = execution-ClosedAs view before sees keys system id height effects e in
    let lawful_now = (Change-Lawful (Step-Change (Step.execute view id height sees h)) lawful).0 in
    let kept = Run-ClosedAs id proposal lawful_now run now in
    (
      kept.0 ∙ sym now.0,
      execute_refused later after sees_later keys system id later_height proposal kept,
      closed_refused later after sees_later voter id approve later_height proposal kept rows,
    )
