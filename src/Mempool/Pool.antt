-- ===== src/Mempool/Pool.antt =====
-- core/mempool/src/lib.rs: `Mempool` and its operations. A `&mut self` method takes the mempool
-- last and returns the next one; where it returns an error the source leaves the mempool as it was.
-- The queue is a list with the front first, the ring of dropped actions one with the oldest first.
-- `encoded_size` is the length of an action's bincode encoding, another package's. A count of
-- queued entries is bounded by memory, so its `+= 1` is plain; a sum of their bytes is checked at
-- the width of a usize, 64 bits.
use arxium.Prelude.{
  ℕ, zero, suc, ◌+◌, ◌-◌, String, Bool, not, ◌&&◌, Option, none, some, List, [], ◌∷◌, ◌++◌, ltb,
  leb, max, ◌==◌, number_key, string_key, pair_key, if◌then◌else◌, length, retain, Result, ok,
  panic, reject_if, unwrap_or, ◌>>=◌, ◌>>◌,
}
use arxium.Prelude.Word.{u64_bound, add, sub}
use arxium.Prelude.Map.{Map, get, insert}
use arxium.Prelude.Sets.{holds, include, exclude, remove}
use arxium.Primitives.Address.{Address}
use arxium.Primitives.Action.{Action}
use arxium.Primitives.ValidatorSet.{NoError}

pub data MempoolError : Type 0 where
  full : MempoolError
  duplicate : Address → ℕ → MempoolError
  too_large : ℕ → ℕ → MempoolError
  sender_queue_full : Address → ℕ → MempoolError

abbrev pub max_wire_message_size : ℕ
max_wire_message_size = 1_048_576

abbrev pub dropped_ring : ℕ
dropped_ring = 1_024

-- `Limits`: those of its fields that the mempool reads.
pub record Limits : Type 0 where
  pub mempool_max_pending : ℕ
  pub mempool_max_bytes : ℕ
  pub mempool_max_per_sender : ℕ

pub record Mempool {ℓ} (P : Type ℓ) : Type ℓ where
  pub pending : List (Action P)
  pub seen : List (Address × ℕ)
  pub signatures : List String
  pub total_bytes : ℕ
  pub per_sender : Map Address ℕ
  pub max_pending : ℕ
  pub max_pending_bytes : ℕ
  pub max_per_sender : ℕ
  pub dropped : List (String × String)

abbrev pub with_limits {ℓ} : {P : Type ℓ} → Limits → Mempool P
with_limits limits = record {
  pending = [];
  seen = [];
  signatures = [];
  total_bytes = 0;
  per_sender = [];
  max_pending = limits.mempool_max_pending;
  max_pending_bytes = limits.mempool_max_bytes;
  max_per_sender = limits.mempool_max_per_sender;
  dropped = [];
}

abbrev pub key_of {ℓ} : {P : Type ℓ} → Action P → Address × ℕ
key_of action = (action.sender, action.nonce)

-- `if let Some(signature) = &action.signature { signatures.insert(..) }`, and `remove`
abbrev pub with_signature : Option String → List String → List String
with_signature none signatures = signatures
with_signature (some signature) signatures = include signature signatures

abbrev pub without_signature : Option String → List String → List String
without_signature none signatures = signatures
without_signature (some signature) signatures = exclude signature signatures

abbrev pub no_longer_dropped : Option String → List (String × String) → List (String × String)
no_longer_dropped none dropped = dropped
no_longer_dropped (some signature) dropped = retain (λ entry. not (entry.0 == signature)) dropped

-- `*per_sender.entry(sender).or_insert(0) += 1`
abbrev pub take_slot : Address → Map Address ℕ → Map Address ℕ
take_slot sender per_sender = insert sender (unwrap_or (get sender per_sender) 0 + 1) per_sender

unfoldable pub release_slot : Address → Map Address ℕ → Result NoError (Map Address ℕ)
release_slot sender per_sender = elim (get sender per_sender) [
  | none ↦ ok per_sender
  | some count ↦ sub count 1 >>= λ rest.
      ok (if rest == 0 then remove sender per_sender else insert sender rest per_sender)
]

module _ {ℓ} {P : Type ℓ} (encoded_size : Action P → ℕ) where
  unfoldable pub push : Action P → Mempool P → Result MempoolError (Mempool P)
  push action m = do
    reject_if (leb m.max_pending (length m.pending)) MempoolError.full
    let size = encoded_size action
    reject_if (ltb max_wire_message_size size) (MempoolError.too_large size max_wire_message_size)
    total ← add u64_bound m.total_bytes size
    reject_if (ltb m.max_pending_bytes total) MempoolError.full
    reject_if (leb m.max_per_sender (unwrap_or (get action.sender m.per_sender) 0))
        (MempoolError.sender_queue_full action.sender m.max_per_sender)
    reject_if (holds (key_of action) m.seen) (MempoolError.duplicate action.sender action.nonce)
    ok (record m {
      pending = m.pending ++ action ∷ [];
      seen = include (key_of action) m.seen;
      signatures = with_signature action.signature m.signatures;
      total_bytes = total;
      per_sender = take_slot action.sender m.per_sender;
      dropped = no_longer_dropped action.signature m.dropped;
    })

  -- One action of `requeue_front`.
  unfoldable pub put_back : Action P → Mempool P → Result NoError (Mempool P)
  put_back action m =
      if holds (key_of action) m.seen
      then ok m
      else (add u64_bound m.total_bytes (encoded_size action) >>= λ total. ok (record m {
        pending = action ∷ m.pending;
        seen = include (key_of action) m.seen;
        signatures = with_signature action.signature m.signatures;
        total_bytes = total;
        per_sender = take_slot action.sender m.per_sender;
      }))

  -- The loop runs from the last action to the first.
  unfoldable pub requeue_front : List (Action P) → Mempool P → Result NoError (Mempool P)
  requeue_front [] m = ok m
  requeue_front (action ∷ actions) m = requeue_front actions m >>= λ later. put_back action later

  unfoldable pub next_from : Address → ℕ → List (Action P) → Result NoError ℕ
  next_from sender next [] = ok next
  next_from sender next (action ∷ actions) =
      if action.sender == sender
      then (add u64_bound action.nonce 1 >>= λ after. next_from sender (max next after) actions)
      else next_from sender next actions

  unfoldable pub next_nonce : Address → ℕ → Mempool P → Result NoError ℕ
  next_nonce sender on_chain_nonce m = next_from sender on_chain_nonce m.pending

  -- How many actions from the front fit: at most `max_count`, and all but the first within `max_bytes`.
  unfoldable pub fitting : ℕ → ℕ → ℕ → ℕ → List (Action P) → Result NoError ℕ
  fitting zero max_bytes n bytes actions = ok n
  fitting (suc max_count) max_bytes n bytes [] = ok n
  fitting (suc max_count) max_bytes n bytes (action ∷ actions) = do
    total ← add u64_bound bytes (encoded_size action)
    let more = fitting max_count max_bytes (n + 1) total actions
    if ltb 0 n && ltb max_bytes total then ok n else more

  -- What the indexes lose with an action that leaves the queue.
  unfoldable pub forget : Action P → Mempool P → Result NoError (Mempool P)
  forget action m = do
    per_sender ← release_slot action.sender m.per_sender
    ok (record m {
      seen = exclude (key_of action) m.seen;
      signatures = without_signature action.signature m.signatures;
      per_sender = per_sender;
    })

  -- `drain(..n).inspect(..).collect()`
  unfoldable pub drain_front :
      ℕ → Mempool P → List (Action P) → Result NoError (List (Action P) × Mempool P)
  drain_front zero m queue = ok ([], record m { pending = queue })
  drain_front (suc n) m [] = panic
  drain_front (suc n) m (action ∷ queue) = do
    left ← forget action m
    rest ← drain_front n left queue
    ok (action ∷ rest.0, rest.1)

  unfoldable pub subtract_sizes : List (Action P) → ℕ → Result NoError ℕ
  subtract_sizes [] total = ok total
  subtract_sizes (action ∷ actions) total =
      sub total (encoded_size action) >>= λ rest. subtract_sizes actions rest

  unfoldable pub drain_pending_within :
      ℕ → ℕ → Mempool P → Result NoError (List (Action P) × Mempool P)
  drain_pending_within max_count max_bytes m = do
    n ← fitting max_count max_bytes 0 0 m.pending
    drained ← drain_front n m m.pending
    total ← subtract_sizes drained.0 drained.1.total_bytes
    ok (drained.0, record drained.1 { total_bytes = total })

  abbrev pub drain_pending : ℕ → Mempool P → Result NoError (List (Action P) × Mempool P)
  drain_pending max_count m = drain_pending_within max_count (u64_bound - 1) m

  abbrev pub is_stale : Address → ℕ → Action P → Bool
  is_stale sender current_nonce action = action.sender == sender && ltb action.nonce current_nonce

  -- `retain` with its effects: the actions kept, the bytes removed, and the mempool's indexes.
  unfoldable pub retain_fresh :
      Address
      → ℕ
      → List (Action P)
      → ℕ
      → Mempool P
      → Result NoError (List (Action P) × ℕ × Mempool P)
  retain_fresh sender current_nonce [] removed_bytes m = ok ([], removed_bytes, m)
  retain_fresh sender current_nonce (action ∷ actions) removed_bytes m =
      if is_stale sender current_nonce action
      then (do
        removed ← add u64_bound removed_bytes (encoded_size action)
        left ← forget action m
        retain_fresh sender current_nonce actions removed left)
      else (retain_fresh sender current_nonce actions removed_bytes m >>= λ rest.
          ok (action ∷ rest.0, rest.1, rest.2))

  unfoldable pub purge_stale : Address → ℕ → Mempool P → Result NoError (Mempool P)
  purge_stale sender current_nonce m = do
    kept ← retain_fresh sender current_nonce m.pending 0 m
    total ← sub kept.2.total_bytes kept.1
    ok (record kept.2 { pending = kept.0; total_bytes = total })

-- One entry of `note_dropped`.
unfoldable pub note : String × String → List (String × String) → List (String × String)
note entry [] = entry ∷ []
note entry (oldest ∷ ring) =
    (if length (oldest ∷ ring) == dropped_ring then ring else oldest ∷ ring) ++ entry ∷ []

unfoldable pub note_all : List (String × String) → List (String × String) → List (String × String)
note_all [] ring = ring
note_all (entry ∷ entries) ring = note_all entries (note entry ring)

abbrev pub note_dropped {ℓ} : {P : Type ℓ} → List (String × String) → Mempool P → Mempool P
note_dropped entries m = record m { dropped = note_all entries m.dropped }

-- The newest entry of the signature.
unfoldable pub newest_reason : String → List (String × String) → Option String
newest_reason signature [] = none
newest_reason signature (entry ∷ ring) = elim (newest_reason signature ring) [
  | some reason ↦ some reason
  | none ↦ if entry.0 == signature then some entry.1 else none
]

abbrev pub dropped_reason {ℓ} : {P : Type ℓ} → String → Mempool P → Option String
dropped_reason signature m = newest_reason signature m.dropped
