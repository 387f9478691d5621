-- ===== src/Finality/SignedVotes/Records.antt =====
-- What the record says of a vote, and that no later call makes it forget.
use native.Mathlib.Decide.{dec_lt}
use arxium.Prelude.{◌-◌}
use arxium.Prelude.{
  ℕ, ◌≤◌, ◌<◌, ◌≡◌, ◌⊎◌, inl, inr, refl, String, Bool, true, Option, none, some, List, [], ◌∷◌,
  ◌++◌, arith, ltb, number_key, string_key, if◌then◌else◌, find, retain, ok, eq_iff, Option-cases,
}
use arxium.Finality.SignedVotes.{
  Kind, Entry, SignedVotes, Call, in_slot, record_vote, claim_free, claim, claim_prevote,
  claim_precommit, claim_timeout, prune_below, call, run,
}

module _ {ℓ} {A : Type ℓ} where
  abbrev pub or_this : Option A → Option A → Option A
  or_this (some a) o = some a
  or_this none o = o

  -- The first that fits stays the first when one is appended.
  pub find-append :
      (p : A → Bool) (xs : List A) (x : A)
      → find p (xs ++ x ∷ []) ≡ or_this (find p xs) (if p x then some x else none)
  find-append p [] x = ground arith
  find-append p (y ∷ ys) x = ground (arith, find-append p ys x)

  pub find-retain :
      (p q : A → Bool) (xs : List A)
      → ((x : A) → p x ≡ true → q x ≡ true)
      → find p (retain q xs) ≡ find p xs
  find-retain p q [] h = refl
  find-retain p q (y ∷ ys) h = ground (arith, h y, find-retain p q ys h)

  -- What is found passes the test.
  pub find-some : (p : A → Bool) (xs : List A) (x : A) → find p xs ≡ some x → p x ≡ true
  find-some p [] x h = cc
  find-some p (y ∷ ys) x h = ground (arith, find-some p ys x)

abbrev pub hash_of : Option Entry → Option String
hash_of none = none
hash_of (some e) = some e.hash

-- The hash that was signed for the vote's slot.
abbrev pub signed_hash : List Entry → Entry → Option String
signed_hash entries e = hash_of (find (in_slot e.kind e.height e.round) entries)

-- The record binds the validator to `e`: it is the vote of its slot, or the slot is at or below the
-- floor and closed for good.
abbrev pub Binds : SignedVotes → Entry → Type 0
Binds votes e = (e.height ≤ votes.floor) ⊎ (signed_hash votes.entries e ≡ some e.hash)

-- A claim that succeeds binds the validator to its vote.
pub claim-Binds_self :
    (durable : SignedVotes → Bool) (e : Entry) (votes : SignedVotes)
    → (claim durable e votes).0 ≡ ok tt
    → signed_hash (claim durable e votes).1.entries e ≡ some e.hash
unfolding claim claim_free record_vote
claim-Binds_self durable e votes h =
    elim (Option-cases (find (in_slot e.kind e.height e.round) votes.entries)) [
      | inl none_found ↦
          ground (arith, none_found, find-append (in_slot e.kind e.height e.round) votes.entries e)
      | inr (signed, found) ↦ ground (arith, found, eq_iff signed.hash e.hash)
    ]

-- A claim, whatever its outcome, keeps what the validator is bound to.
pub claim-Binds :
    (durable : SignedVotes → Bool) (e f : Entry) (votes : SignedVotes)
    → Binds votes e
    → Binds (claim durable f votes).1 e
unfolding claim claim_free record_vote
claim-Binds durable e f votes h =
    ground (arith, find-append (in_slot e.kind e.height e.round) votes.entries f)

in_slot-above :
    (e : Entry) (floor : ℕ)
    → floor < e.height
    → (x : Entry) → in_slot e.kind e.height e.round x ≡ true
    → ltb floor x.height ≡ true
in_slot-above e floor h x s = ground arith

pub prune_below-Binds :
    (durable : SignedVotes → Bool) (e : Entry) (cutoff : ℕ) (votes : SignedVotes)
    → Binds votes e
    → Binds (prune_below durable cutoff votes).1 e
unfolding prune_below
prune_below-Binds durable e cutoff votes h = elim (dec_lt (cutoff - 1) e.height) [
  | yes above ↦ ground (
    arith,
    find-retain (in_slot e.kind e.height e.round) (λ x. ltb (cutoff - 1) x.height) votes.entries
        (in_slot-above e (cutoff - 1) above),
  )
  | no below ↦ ground arith
]

pub call-Binds :
    (durable : SignedVotes → Bool) (e : Entry) (c : Call) (votes : SignedVotes)
    → Binds votes e
    → Binds (call durable c votes).1 e
unfolding call claim_prevote claim_precommit claim_timeout
call-Binds durable e (Call.prevote height round hash pol_round) votes h = ground (
  arith,
  claim-Binds durable e
      (record { kind = Kind.prevote; height = height; round = round; hash = hash }) votes,
)
call-Binds durable e (Call.precommit height round hash) votes h = claim-Binds durable e _ votes h
call-Binds durable e (Call.timeout height round hash) votes h = claim-Binds durable e _ votes h
call-Binds durable e (Call.prune cutoff) votes h = prune_below-Binds durable e cutoff votes h

-- Whatever is called afterwards, a vote that was signed stays binding.
pub run-Binds :
    (e : Entry) (calls : List ((SignedVotes → Bool) × Call)) (votes : SignedVotes)
    → Binds votes e
    → Binds (run calls votes) e
unfolding run
run-Binds e [] votes h = h
run-Binds e ((durable, c) ∷ calls) votes h =
    run-Binds e calls (call durable c votes).1 (call-Binds durable e c votes h)
