-- ===== src/Finality/SignedVotes.antt =====
-- arxd/finality/src/signed_votes.rs: the record of this validator's own votes, which refuses a vote
-- that conflicts with one it signed. The file that makes the record durable is outside the model:
-- `durable` says whether the write of the record that it is given succeeded.
pub mod Records
pub mod Rounds
pub mod Safety
mod Tests
use arxium.Prelude.{
  ℕ, ◌-◌, String, Bool, true, false, not, ◌&&◌, ◌||◌, Option, none, some, List, [], ◌∷◌, ◌++◌, ltb,
  leb, ◌==◌, number_key, string_key, if◌then◌else◌, find, retain, Result, ok, err,
}
use arxium.Prelude.Word.{saturating_sub}

pub data Kind : Type 0 where
  prevote precommit timeout : Kind

abbrev pub discriminant : Kind → ℕ
discriminant Kind.prevote = 0
discriminant Kind.precommit = 1
discriminant Kind.timeout = 2

-- `PartialEq` of `Kind`
abbrev pub same_kind : Kind → Kind → Bool
same_kind j k = discriminant j == discriminant k

-- `hash` is a block's hash for a prevote or a precommit, the parent's for a timeout.
pub record Entry : Type 0 where
  pub kind : Kind
  pub height : ℕ
  pub round : ℕ
  pub hash : String

pub record SignedVotes : Type 0 where
  pub genesis : String
  pub floor : ℕ
  pub entries : List Entry

-- Why a vote is refused, by the reason that the source counts it under.
pub data Refusal : Type 0 where
  lock floor conflict round_left write_failed : Refusal

abbrev pub Claim : Type 0
Claim = Result Refusal (Unit {0}) × SignedVotes

-- Has `e` been signed for this kind of vote at this height and round?
abbrev pub in_slot : Kind → ℕ → ℕ → Entry → Bool
in_slot kind height round e = e.height == height && e.round == round && same_kind e.kind kind

-- Does `e` show that the round was left: timed out, or voted past?
abbrev pub leaves : ℕ → ℕ → Entry → Bool
leaves height round e =
    e.height == height && (ltb round e.round || e.round == round && same_kind e.kind Kind.timeout)

-- The latest precommit at a height. `max_by_key` takes the last of several with the same round.
unfoldable pub locked : ℕ → List Entry → Option (ℕ × String)
locked height [] = none
locked height (e ∷ es) =
    let rest = locked height es in
    if e.height == height && same_kind e.kind Kind.precommit
    then elim rest [
      | none ↦ some (e.round, e.hash)
      | some (round, hash) ↦
          if ltb round e.round then some (e.round, e.hash) else some (round, hash)
    ]
    else rest

-- `persist`, after the entry was pushed: without a durable write the entry is popped again.
pub record_vote : (SignedVotes → Bool) → Entry → SignedVotes → Claim
record_vote durable e votes =
    let pushed = record votes { entries = votes.entries ++ e ∷ [] } in
    if durable pushed then (ok tt, pushed) else (err Refusal.write_failed, votes)

-- The claim of a vote whose slot is free.
pub claim_free : (SignedVotes → Bool) → Entry → SignedVotes → Claim
claim_free durable e votes =
    if not (same_kind e.kind Kind.timeout)
      && elim (find (leaves e.height e.round) votes.entries) [ none ↦ false | some _ ↦ true ]
    then (err Refusal.round_left, votes)
    else record_vote durable e votes

pub claim : (SignedVotes → Bool) → Entry → SignedVotes → Claim
claim durable e votes =
    if leb e.height votes.floor
    then (err Refusal.floor, votes)
    else elim (find (in_slot e.kind e.height e.round) votes.entries) [
      | some signed ↦
          if not (signed.hash == e.hash) then (err Refusal.conflict, votes) else (ok tt, votes)
      | none ↦ claim_free durable e votes
    ]

-- `pol_round.is_some_and(|pol| locked_round <= pol && pol <= round)`
abbrev pub unlocks : ℕ → ℕ → Option ℕ → Bool
unlocks locked_round round none = false
unlocks locked_round round (some pol) = leb locked_round pol && leb pol round

abbrev pub held_by_lock : ℕ → String → Option ℕ → Option (ℕ × String) → Bool
held_by_lock round hash pol_round none = false
held_by_lock round hash pol_round (some (locked_round, locked_hash)) =
    not (locked_hash == hash) && not (unlocks locked_round round pol_round)

pub claim_prevote : (SignedVotes → Bool) → ℕ → ℕ → String → Option ℕ → SignedVotes → Claim
claim_prevote durable height round hash pol_round votes =
    if held_by_lock round hash pol_round (locked height votes.entries)
    then (err Refusal.lock, votes)
    else claim durable (record { kind = Kind.prevote; height = height; round = round; hash = hash })
        votes

pub claim_precommit : (SignedVotes → Bool) → ℕ → ℕ → String → SignedVotes → Claim
claim_precommit durable height round hash =
    claim durable (record { kind = Kind.precommit; height = height; round = round; hash = hash })

pub claim_timeout : (SignedVotes → Bool) → ℕ → ℕ → String → SignedVotes → Claim
claim_timeout durable height round parent_hash =
    claim durable
      (record { kind = Kind.timeout; height = height; round = round; hash = parent_hash })

-- The floor rises in memory whether or not the write succeeds.
pub prune_below : (SignedVotes → Bool) → ℕ → SignedVotes → Claim
prune_below durable cutoff votes =
    let floor = saturating_sub cutoff 1 in
    if leb floor votes.floor
    then (ok tt, votes)
    else (let pruned = record votes {
      floor = floor;
      entries = retain (λ e. ltb floor e.height) votes.entries;
    } in
        (if durable pruned then ok tt else err Refusal.write_failed, pruned))

-- What the finality task calls, with the outcome of each write.
pub data Call : Type 0 where
  prevote : ℕ → ℕ → String → Option ℕ → Call
  precommit : ℕ → ℕ → String → Call
  timeout : ℕ → ℕ → String → Call
  prune : ℕ → Call

pub call : (SignedVotes → Bool) → Call → SignedVotes → Claim
call durable (Call.prevote height round hash pol_round) =
    claim_prevote durable height round hash pol_round
call durable (Call.precommit height round hash) = claim_precommit durable height round hash
call durable (Call.timeout height round parent_hash) =
    claim_timeout durable height round parent_hash
call durable (Call.prune cutoff) = prune_below durable cutoff

-- The record after a sequence of calls, each with the outcome of its write.
pub run : List ((SignedVotes → Bool) × Call) → SignedVotes → SignedVotes
run [] votes = votes
run ((durable, c) ∷ calls) votes = run calls (call durable c votes).1
