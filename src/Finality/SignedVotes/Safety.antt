-- ===== src/Finality/SignedVotes/Safety.antt =====
-- The slashing rules that the record enforces: one vote a slot, no vote in a round that was left, and
-- no prevote against the lock.
use arxium.Prelude.{
  ℕ, ◌≤◌, ◌≡◌, ◌≢◌, ◌⊎◌, inl, inr, String, Bool, false, Option, none, some, List, arith, ◌==◌,
  number_key, string_key, find, ok, err, eq_iff, Option-cases, Bool-cases, refl,
}
use arxium.Finality.SignedVotes.{
  Kind, Entry, SignedVotes, Refusal, Call, in_slot, claim_free, claim, claim_prevote, locked, run,
}
use arxium.Finality.SignedVotes.Rounds.{
  ClosedOr, Leaves, left_round, left_round-Kept, reaches, locked-Kept, run-ClosedOr,
  claim-left_round, claim-reaches,
}
use arxium.Finality.SignedVotes.Records.{Binds, claim-Binds_self, run-Binds}

refuses_conflict :
    (durable : SignedVotes → Bool) (e f : Entry) (votes : SignedVotes)
    → Binds votes e
    → f.kind ≡ e.kind
    → f.height ≡ e.height
    → f.round ≡ e.round
    → f.hash ≢ e.hash
    → ((claim durable f votes).0 ≡ err Refusal.floor)
      ⊎ ((claim durable f votes).0 ≡ err Refusal.conflict)
unfolding claim
refuses_conflict durable e f votes (inl below) kind height round other = ground arith
refuses_conflict durable e f votes (inr signed) kind height round other =
    elim (Option-cases (find (in_slot e.kind e.height e.round) votes.entries)) [
      | inl none_found ↦ ground (arith, none_found)
      | inr (first, found) ↦ ground (arith, found, eq_iff first.hash f.hash)
    ]

-- Once a vote was claimed with success, no sequence of further claims, of failed writes and of
-- prunings makes the record accept another hash for the same kind of vote at the same height and
-- round: the claim is refused as conflicting, or as below the floor.
pub claim-no_equivocation :
    (durable again : SignedVotes → Bool) (e f : Entry) (votes : SignedVotes)
    (calls : List ((SignedVotes → Bool) × Call))
    → (claim durable e votes).0 ≡ ok tt
    → f.kind ≡ e.kind
    → f.height ≡ e.height
    → f.round ≡ e.round
    → f.hash ≢ e.hash
    → let later = run calls (claim durable e votes).1 in
      ((claim again f later).0 ≡ err Refusal.floor)
      ⊎ ((claim again f later).0 ≡ err Refusal.conflict)
claim-no_equivocation durable again e f votes calls signed kind height round other =
    refuses_conflict again e f (run calls (claim durable e votes).1)
      (run-Binds e calls (claim durable e votes).1 (inr (claim-Binds_self durable e votes signed)))
      kind height round other

no_late_vote :
    (durable : SignedVotes → Bool) (f : Entry) (votes : SignedVotes)
    → ClosedOr (left_round f.height f.round) f.height votes
    → f.kind ≢ Kind.timeout
    → (claim durable f votes).1 ≡ votes
unfolding claim claim_free
no_late_vote durable f votes (inl below) kind = ground arith
no_late_vote durable f votes (inr left) kind = ground (arith, left)

-- Once the record has granted a timeout for a round, or any vote in a later round of the height, no
-- sequence of further calls makes it take in a new prevote or precommit for that round: whatever
-- such a claim answers, it records nothing.
pub claim-no_late_vote :
    (durable again : SignedVotes → Bool) (e f : Entry) (votes : SignedVotes)
    (calls : List ((SignedVotes → Bool) × Call))
    → (claim durable e votes).0 ≡ ok tt
    → f.height ≡ e.height
    → Leaves e f.round
    → f.kind ≢ Kind.timeout
    → let later = run calls (claim durable e votes).1 in (claim again f later).1 ≡ later
claim-no_late_vote durable again e f votes calls signed height left kind =
    no_late_vote again f (run calls (claim durable e votes).1)
      (run-ClosedOr (left_round f.height f.round) f.height (left_round-Kept f.height f.round) calls
        (claim durable e votes).1
        (inr (ground (arith, claim-left_round durable e f.round votes left signed))))
      kind

unlocking :
    (durable : SignedVotes → Bool) (height round at locked_round : ℕ) (locked_hash hash : String)
    (pol_round : Option ℕ) (votes : SignedVotes)
    → locked height votes.entries ≡ some (at, locked_hash)
    → locked_round ≤ at
    → (locked_hash == hash) ≡ false
    → (claim_prevote durable height round hash pol_round votes).0 ≡ ok tt
    → (pol : ℕ) × (pol_round ≡ some pol) × (locked_round ≤ pol) × (pol ≤ round)
unfolding claim_prevote
unlocking durable height round at locked_round locked_hash hash none votes found le other granted =
    ground (arith, found)
unlocking durable height round at locked_round locked_hash hash (some pol) votes found le other
      granted =
    (pol, refl, ground (arith, found), ground (arith, found))

lock_holds :
    (durable : SignedVotes → Bool) (height round locked_round : ℕ) (hash : String)
    (pol_round : Option ℕ) (votes : SignedVotes)
    → ClosedOr (λ entries. reaches locked_round (locked height entries)) height votes
    → (claim_prevote durable height round hash pol_round votes).0 ≡ ok tt
    → ((at : ℕ) × (locked_round ≤ at) × (locked height votes.entries ≡ some (at, hash)))
      ⊎ ((pol : ℕ) × (pol_round ≡ some pol) × (locked_round ≤ pol) × (pol ≤ round))
unfolding claim_prevote claim
lock_holds durable height round locked_round hash pol_round votes (inl below) granted = ground arith
lock_holds durable height round locked_round hash pol_round votes (inr h) granted =
    elim (Option-cases (locked height votes.entries)) [
      | inl none_locked ↦ ground (arith, none_locked)
      | inr ((at, locked_hash), found) ↦ elim (Bool-cases (locked_hash == hash)) [
        | inl same ↦ inl (at, ground (arith, found), ground (arith, found, eq_iff locked_hash hash))
        | inr other ↦ inr (
            unlocking durable height round at locked_round locked_hash hash pol_round votes found
              (ground (arith, found)) other granted)
      ]
    ]

-- Once a precommit was granted, whatever is called afterwards, a prevote at that height is granted
-- only for the hash that the record is then locked on, by a precommit of the same round or a later
-- one, or with a proof-of-lock round that is no earlier than the precommit's and no later than the
-- prevote's own.
pub claim_prevote-lock :
    (durable again : SignedVotes → Bool) (e : Entry) (votes : SignedVotes)
    (calls : List ((SignedVotes → Bool) × Call)) (round : ℕ) (hash : String) (pol_round : Option ℕ)
    → e.kind ≡ Kind.precommit
    → (claim durable e votes).0 ≡ ok tt
    → (claim_prevote again e.height round hash pol_round (run calls (claim durable e votes).1)).0
      ≡ ok tt
    → ((at : ℕ) × (e.round ≤ at)
        × (locked e.height (run calls (claim durable e votes).1).entries ≡ some (at, hash)))
      ⊎ ((pol : ℕ) × (pol_round ≡ some pol) × (e.round ≤ pol) × (pol ≤ round))
claim_prevote-lock durable again e votes calls round hash pol_round kind signed granted =
    lock_holds again e.height round e.round hash pol_round (run calls (claim durable e votes).1)
      (run-ClosedOr (λ entries. reaches e.round (locked e.height entries)) e.height
        (locked-Kept e.height e.round) calls (claim durable e votes).1
        (inr (claim-reaches durable e votes kind signed)))
      granted
