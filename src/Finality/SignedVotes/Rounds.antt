-- ===== src/Finality/SignedVotes/Rounds.antt =====
-- What the record keeps of the rounds of a height: which were left, and the round of the lock.
use arxium.Prelude.{
  ℕ, ◌-◌, ◌≤◌, ◌<◌, ◌≡◌, ◌⊎◌, inl, inr, refl, String, Bool, true, false, Option, none, some, List,
  [], ◌∷◌, ◌++◌, arith, leb, ltb, number_key, string_key, find, retain, ok,
}
use arxium.Finality.SignedVotes.{
  Kind, Entry, SignedVotes, Call, in_slot, leaves, locked, record_vote, claim_free, claim,
  claim_prevote, claim_precommit, claim_timeout, prune_below, call, run,
}
use arxium.Finality.SignedVotes.Records.{find-append, find-retain}

-- Either the height is closed, or the entries say this of it.
abbrev pub ClosedOr : (List Entry → Bool) → ℕ → SignedVotes → Type 0
ClosedOr told height votes = (height ≤ votes.floor) ⊎ (told votes.entries ≡ true)

-- A test of the entries that one more entry does not undo, nor a pruning of other heights.
pub record Kept (told : List Entry → Bool) (height : ℕ) : Type 0 where
  pub append :
      (entries : List Entry) (e : Entry) → told entries ≡ true → told (entries ++ e ∷ []) ≡ true
  pub prune :
      (entries : List Entry) (floor : ℕ)
      → floor < height
      → told (retain (λ e. ltb floor e.height) entries) ≡ told entries

module _ (told : List Entry → Bool) (height : ℕ) (kept : Kept told height) where
  pub claim-ClosedOr :
      (durable : SignedVotes → Bool) (e : Entry) (votes : SignedVotes)
      → ClosedOr told height votes
      → ClosedOr told height (claim durable e votes).1
  unfolding claim claim_free record_vote
  claim-ClosedOr durable e votes h = ground (arith, kept.append votes.entries e)

  prune_below-ClosedOr :
      (durable : SignedVotes → Bool) (cutoff : ℕ) (votes : SignedVotes)
      → ClosedOr told height votes
      → ClosedOr told height (prune_below durable cutoff votes).1
  unfolding prune_below
  prune_below-ClosedOr durable cutoff votes h =
      ground (arith, kept.prune votes.entries (cutoff - 1))

  call-ClosedOr :
      (durable : SignedVotes → Bool) (c : Call) (votes : SignedVotes)
      → ClosedOr told height votes
      → ClosedOr told height (call durable c votes).1
  unfolding call claim_prevote claim_precommit claim_timeout
  call-ClosedOr durable (Call.prevote at round hash pol_round) votes h = ground (
    arith,
    claim-ClosedOr durable (record { kind = Kind.prevote; height = at; round = round; hash = hash })
        votes,
  )
  call-ClosedOr durable (Call.precommit at round hash) votes h = claim-ClosedOr durable _ votes h
  call-ClosedOr durable (Call.timeout at round hash) votes h = claim-ClosedOr durable _ votes h
  call-ClosedOr durable (Call.prune cutoff) votes h = prune_below-ClosedOr durable cutoff votes h

  pub run-ClosedOr :
      (calls : List ((SignedVotes → Bool) × Call)) (votes : SignedVotes)
      → ClosedOr told height votes
      → ClosedOr told height (run calls votes)
  unfolding run
  run-ClosedOr [] votes h = h
  run-ClosedOr ((durable, c) ∷ calls) votes h =
      run-ClosedOr calls (call durable c votes).1 (call-ClosedOr durable c votes h)

-- Was the round left?
abbrev pub left_round : ℕ → ℕ → List Entry → Bool
left_round height round entries = elim (find (leaves height round) entries) [
  | none ↦ false
  | some e ↦ true
]

leaves-above :
    (height round floor : ℕ)
    → floor < height
    → (e : Entry) → leaves height round e ≡ true
    → ltb floor e.height ≡ true
leaves-above height round floor above e h = ground arith

pub left_round-Kept : (height round : ℕ) → Kept (left_round height round) height
left_round-Kept height round = record {
  append = λ entries e h. ground (arith, h, find-append (leaves height round) entries e);
  prune = λ entries floor above. ground (
    arith,
    find-retain (leaves height round) (λ e. ltb floor e.height) entries
        (leaves-above height round floor above),
  );
}

-- Does the lock of a height stand at this round or a later one?
abbrev pub reaches : ℕ → Option (ℕ × String) → Bool
reaches round none = false
reaches round (some (locked_round, hash)) = leb round locked_round

locked-append :
    (height round : ℕ) (entries : List Entry) (e : Entry)
    → reaches round (locked height entries) ≡ true
    → reaches round (locked height (entries ++ e ∷ [])) ≡ true
unfolding locked
locked-append height round [] e h = ground arith
locked-append height round (x ∷ xs) e h =
    ground (arith, locked-append height round xs e, locked-append height x.round xs e)

locked-retain :
    (height floor : ℕ) (entries : List Entry)
    → floor < height
    → locked height (retain (λ e. ltb floor e.height) entries) ≡ locked height entries
unfolding locked
locked-retain height floor [] above = refl
locked-retain height floor (x ∷ xs) above = ground (arith, locked-retain height floor xs above)

pub locked-Kept :
    (height round : ℕ) → Kept (λ entries. reaches round (locked height entries)) height
locked-Kept height round = record {
  append = locked-append height round;
  prune = λ entries floor above. ground (arith, locked-retain height floor entries above);
}

module _ (p q : Entry → Bool) (covers : (e : Entry) → p e ≡ true → q e ≡ true) where
  -- What one test finds, a wider one finds too.
  find-covers :
      (entries : List Entry)
      → elim (find p entries) [ none ↦ false | some e ↦ true ] ≡ true
      → elim (find q entries) [ none ↦ false | some e ↦ true ] ≡ true
  find-covers [] h = h
  find-covers (e ∷ es) h = ground (arith, covers e, find-covers es)

-- A claim that succeeds leaves an entry in its slot.
claim-occupies :
    (durable : SignedVotes → Bool) (e : Entry) (votes : SignedVotes)
    → (claim durable e votes).0 ≡ ok tt
    → elim (find (in_slot e.kind e.height e.round) (claim durable e votes).1.entries) [
      | none ↦ false
      | some signed ↦ true
    ]
      ≡ true
unfolding claim claim_free record_vote
claim-occupies durable e votes h =
    ground (arith, find-append (in_slot e.kind e.height e.round) votes.entries e)

-- A vote leaves the rounds before its own, and a timeout its own too.
abbrev pub Leaves : Entry → ℕ → Type 0
Leaves e round = (round < e.round) ⊎ (e.kind ≡ Kind.timeout) × (round ≡ e.round)

in_slot-leaves :
    (e : Entry) (round : ℕ)
    → Leaves e round
    → (x : Entry) → in_slot e.kind e.height e.round x ≡ true
    → leaves e.height round x ≡ true
in_slot-leaves e round (inl later) x h = ground arith
in_slot-leaves e round (inr (timeout, same)) x h = ground arith

pub claim-left_round :
    (durable : SignedVotes → Bool) (e : Entry) (round : ℕ) (votes : SignedVotes)
    → Leaves e round
    → (claim durable e votes).0 ≡ ok tt
    → left_round e.height round (claim durable e votes).1.entries ≡ true
claim-left_round durable e round votes h signed =
    find-covers (in_slot e.kind e.height e.round) (leaves e.height round) (in_slot-leaves e round h)
      (claim durable e votes).1.entries (claim-occupies durable e votes signed)

-- A precommit among the entries is reached by the lock.
locked-found :
    (e : Entry) (entries : List Entry)
    → e.kind ≡ Kind.precommit
    → elim (find (in_slot e.kind e.height e.round) entries) [ none ↦ false | some x ↦ true ] ≡ true
    → reaches e.round (locked e.height entries) ≡ true
unfolding locked
locked-found e [] kind h = ground arith
locked-found e (x ∷ xs) kind h = ground (arith, locked-found e xs kind)

pub claim-reaches :
    (durable : SignedVotes → Bool) (e : Entry) (votes : SignedVotes)
    → e.kind ≡ Kind.precommit
    → (claim durable e votes).0 ≡ ok tt
    → reaches e.round (locked e.height (claim durable e votes).1.entries) ≡ true
claim-reaches durable e votes kind signed =
    locked-found e (claim durable e votes).1.entries kind (claim-occupies durable e votes signed)
