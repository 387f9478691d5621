-- ===== src/Finality/SignedVotes/Tests.antt =====
-- Small runs of the record of signed votes, and the theorems at work on them.
use arxium.Prelude.{
  ℕ, ◌≤◌, ◌≡◌, ◌⊎◌, inr, refl, String, Bool, true, false, some, none, List, [], ◌∷◌, arith, ok, err,
  eq_iff,
}
use arxium.Finality.SignedVotes.{
  Kind, Entry, SignedVotes, Refusal, Call, record_vote, claim_free, claim, claim_prevote,
  claim_timeout, prune_below, call, run, locked,
}
use arxium.Finality.SignedVotes.Safety.{
  claim-no_equivocation, claim-no_late_vote, claim_prevote-lock,
}

abbrev fresh : SignedVotes
fresh = record { genesis = "g"; floor = 0; entries = [] }

abbrev vote : Kind → ℕ → String → Entry
vote kind round hash = record { kind = kind; height = 5; round = round; hash = hash }

abbrev written : SignedVotes → Bool
written votes = true

abbrev unwritten : SignedVotes → Bool
unwritten votes = false

abbrev calls : List ((SignedVotes → Bool) × Call)
calls =
    (written, Call.prevote 6 0 "b" none)
    ∷ (unwritten, Call.timeout 5 2 "p")
    ∷ (written, Call.prune 3)
    ∷ []

granted : (kind : Kind) → (claim written (vote kind 1 "b") fresh).0 ≡ ok tt
unfolding claim claim_free record_vote
granted Kind.prevote = refl
granted Kind.precommit = refl
granted Kind.timeout = refl

-- A vote whose write fails is not recorded.
unwritten_vote : claim unwritten (vote Kind.prevote 1 "b") fresh ≡ (err Refusal.write_failed, fresh)
unfolding claim claim_free record_vote
unwritten_vote = refl

-- After the prune at 3 a vote at height 2 is refused.
pruned : (claim_prevote written 2 0 "x" none (run calls fresh)).0 ≡ err Refusal.floor
unfolding claim claim_free record_vote claim_prevote claim_timeout prune_below call run locked
pruned = refl

claim-no_equivocation_example :
    let later = run calls (claim written (vote Kind.prevote 1 "b") fresh).1 in
    ((claim written (vote Kind.prevote 1 "c") later).0 ≡ err Refusal.floor)
    ⊎ ((claim written (vote Kind.prevote 1 "c") later).0 ≡ err Refusal.conflict)
claim-no_equivocation_example =
    claim-no_equivocation written written (vote Kind.prevote 1 "b") (vote Kind.prevote 1 "c") fresh
      calls (granted Kind.prevote) refl refl refl (ground (arith, eq_iff "c" "b"))

claim-no_late_vote_example :
    let later = run calls (claim written (vote Kind.timeout 1 "b") fresh).1 in
    (claim written (vote Kind.prevote 1 "c") later).1 ≡ later
claim-no_late_vote_example =
    claim-no_late_vote written written (vote Kind.timeout 1 "b") (vote Kind.prevote 1 "c") fresh
      calls (granted Kind.timeout) refl (inr (refl, refl)) (ground arith)

relocked :
    (claim_prevote written 5 3 "c"
      (some 2)
      (run calls (claim written (vote Kind.precommit 1 "b") fresh).1)).0
    ≡ ok tt
unfolding claim claim_free record_vote claim_prevote claim_timeout prune_below call run locked
relocked = refl

claim_prevote-lock_example :
    ((at : ℕ) × (1 ≤ at)
      × (locked 5 (run calls (claim written (vote Kind.precommit 1 "b") fresh).1).entries
          ≡ some (at, "c")))
    ⊎ ((pol : ℕ) × (some 2 ≡ some pol) × (1 ≤ pol) × (pol ≤ 3))
claim_prevote-lock_example =
    claim_prevote-lock written written (vote Kind.precommit 1 "b") fresh calls 3 "c" (some 2) refl
      (granted Kind.precommit) relocked
