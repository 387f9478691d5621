-- ===== src/Circuit/Governance/Chamber.antt =====
-- What governance keeps from block to block, the committed rows of each operation, and runs of them.
use arxium.Prelude.{
  ℕ, ◌≡◌, String, Bool, Option, some, List, [], ◌∷◌, ◌++◌, arith, number_key, pair_key, ok,
}
use arxium.Prelude.Map.{Map, get, insert}
use arxium.Primitives.Address.{Address}
use arxium.Primitives.State.{SystemAccounts}
use arxium.Primitives.Params.{ChainParams}
use arxium.Primitives.Governance.{GovernanceAction, Proposal}
use arxium.Primitives.Attestor.{Keys}
use arxium.Circuit.View.{View}
use arxium.Circuit.Ledger.{Accounts}
use arxium.Circuit.Updates.{GovernanceRow, GovernanceUpdates}
use arxium.Circuit.Governance.Submit.{apply_submit, apply_attestor_application}
use arxium.Circuit.Governance.Vote.{apply_vote}
use arxium.Circuit.Governance.Execute.{Effects, apply_execute}

pub record Chamber : Type 0 where
  pub proposals : Map ℕ Proposal
  pub votes : Map (ℕ × Address) Bool
  pub next_id : Option ℕ
  pub params : Option ChainParams

abbrev pub vote_of : ℕ → Address → Chamber → Option Bool
vote_of id voter chamber = get {K = ℕ × Address} (id, voter) chamber.votes

-- The view's rows of governance are the chamber's.
pub record Sees (view : View) (chamber : Chamber) : Type 0 where
  pub proposal : (id : ℕ) → view.proposal id ≡ ok (get id chamber.proposals)
  pub vote : (id : ℕ) (voter : Address) → view.vote id voter ≡ ok (vote_of id voter chamber)
  pub next_id : view.next_proposal_id ≡ ok chamber.next_id
  pub params : view.params_row ≡ ok chamber.params

-- The write of a row. Those of the attestors, disputes and validators are kept elsewhere.
abbrev pub write_row : GovernanceRow → Chamber → Chamber
write_row (GovernanceRow.put_unbonding_due height pairs) chamber = chamber
write_row (GovernanceRow.delete_unbonding_due height) chamber = chamber
write_row (GovernanceRow.put_proposal id proposal) chamber = record chamber {
  proposals = insert id proposal chamber.proposals;
}
write_row (GovernanceRow.put_next_proposal_id next) chamber = record chamber { next_id = some next }
write_row (GovernanceRow.put_vote id voter approve) chamber = record chamber {
  votes = insert {K = ℕ × Address} (id, voter) approve chamber.votes;
}
write_row (GovernanceRow.put_chain_params params) chamber = record chamber { params = some params }
write_row (GovernanceRow.delete_dispute_open height header) chamber = chamber
write_row (GovernanceRow.delete_validator_status validator) chamber = chamber
write_row (GovernanceRow.put_attestor_name name attestor) chamber = chamber
write_row (GovernanceRow.delete_attestor_name name) chamber = chamber
write_row (GovernanceRow.put_attestor_record attestor row) chamber = chamber

unfoldable pub write_rows : GovernanceUpdates → Chamber → Chamber
write_rows [] chamber = chamber
write_rows (row ∷ rows) chamber = write_rows rows (write_row row chamber)

pub write_rows-append :
    (rows more : GovernanceUpdates) (chamber : Chamber)
    → write_rows (rows ++ more) chamber ≡ write_rows more (write_rows rows chamber)
unfolding write_rows
write_rows-append [] more chamber = ground arith
write_rows-append (row ∷ rows) more chamber = write_rows-append rows more (write_row row chamber)

-- One committed operation.
pub data Step (keys : Keys) (system : SystemAccounts) (before : Chamber) : Chamber → Type 0 where
  submit :
      (view : View) (proposer : Address) (action : GovernanceAction) (description : String)
      (height : ℕ) {id : ℕ} {rows : GovernanceUpdates}
      → Sees view before
      → apply_submit keys system view proposer action description height ≡ ok (id, rows)
      → Step keys system before (write_rows rows before)
  application :
      (view : View) (applicant : Address) (name : String) (owners : List Address) (threshold : ℕ)
      (hash uri : String) (height : ℕ) {id : ℕ} {rows : GovernanceUpdates} {accounts : Accounts}
      → Sees view before
      → apply_attestor_application keys system view applicant name owners threshold hash uri height
        ≡ ok (id, rows, accounts)
      → Step keys system before (write_rows rows before)
  vote :
      (view : View) (voter : Address) (id : ℕ) (approve : Bool) (height : ℕ)
      {rows : GovernanceUpdates}
      → Sees view before
      → apply_vote view voter id approve height ≡ ok rows
      → Step keys system before (write_rows rows before)
  execute :
      (view : View) (id height : ℕ) {effects : Effects}
      → Sees view before
      → apply_execute keys system view id height ≡ ok effects
      → Step keys system before (write_rows effects.updates before)

pub data Run (keys : Keys) (system : SystemAccounts) (before : Chamber) : Chamber → Type 0 where
  none_yet : Run keys system before before
  then_step :
      {middle after : Chamber}
      → Run keys system before middle
      → Step keys system middle after
      → Run keys system before after
