-- ===== src/Mempool/Valid.antt =====
-- The mempool's well-formedness, and that each operation keeps it.
use mathlib.Core.Path.{subst}
use arxium.Prelude.{
  ℕ, ◌+◌, ◌≤◌, ◌<◌, ◌≡◌, sym, false, [], ◌∷◌, ◌++◌, arith, number_key, string_key, pair_key, length,
  ok, unwrap_or,
}
use arxium.Prelude.Word.{u64_bound}
use arxium.Prelude.Map.{get}
use arxium.Prelude.Sets.{holds, include, sum_by, sum_by-append}
use arxium.Primitives.Action.{Action}
use arxium.Mempool.Pool.{
  Mempool, max_wire_message_size, key_of, with_signature, no_longer_dropped, take_slot, push,
}
use arxium.Mempool.Indexes.{Agrees, end-Adds, admitted-Agrees}

module _ {ℓ} {P : Type ℓ} (encoded_size : Action P → ℕ) where
  -- The indexes agree with the queue, and the total is the sum of the sizes of what is queued.
  pub record IsValid (m : Mempool P) : Type ℓ where
    pub indexes : Agrees m.pending m.seen m.signatures m.per_sender
    pub bytes : m.total_bytes ≡ sum_by encoded_size m.pending
    pub room : m.total_bytes < u64_bound

  -- What a push has checked, and what it writes.
  pub record Pushed (action : Action P) (m after : Mempool P) : Type ℓ where
    pub free : length m.pending < m.max_pending
    pub small : encoded_size action ≤ max_wire_message_size
    pub within : m.total_bytes + encoded_size action ≤ m.max_pending_bytes
    pub fits : m.total_bytes + encoded_size action < u64_bound
    pub slot_free : unwrap_or (get action.sender m.per_sender) 0 < m.max_per_sender
    pub new : holds (key_of action) m.seen ≡ false
    pub written : after ≡ record m {
      pending = m.pending ++ action ∷ [];
      seen = include (key_of action) m.seen;
      signatures = with_signature action.signature m.signatures;
      total_bytes = m.total_bytes + encoded_size action;
      per_sender = take_slot action.sender m.per_sender;
      dropped = no_longer_dropped action.signature m.dropped;
    }

  pub push-Pushed :
      (action : Action P) (m after : Mempool P)
      → push encoded_size action m ≡ ok after
      → Pushed action m after
  unfolding push
  push-Pushed action m after h = record {
    free = ground (arith, h);
    small = ground (arith, h);
    within = ground (arith, h);
    fits = ground (arith, h);
    slot_free = ground (arith, h);
    new = ground (arith, h);
    written = ground (arith, h);
  }

  pub push-IsValid :
      (action : Action P) (m after : Mempool P)
      → IsValid m
      → push encoded_size action m ≡ ok after
      → IsValid after
  unfolding sum_by
  push-IsValid action m after valid h =
      let p = push-Pushed action m after h in
      subst IsValid (sym p.written) (record {
        indexes =
            admitted-Agrees action m.pending (m.pending ++ action ∷ []) m.seen m.signatures
              m.per_sender (end-Adds action m.pending) p.new valid.indexes;
        bytes = ground (arith, valid.bytes, sum_by-append encoded_size m.pending (action ∷ []));
        room = p.fits;
      })
