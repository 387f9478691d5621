-- ===== src/Mempool/Runs.antt =====
-- What holds of every mempool that the operations reach, and which actions a push takes.
use mathlib.Core.Path.{subst}
use arxium.Prelude.{
  ℕ, ◌+◌, ◌≤◌, ◌<◌, ◌≡◌, refl, String, List, [], ◌∷◌, ◌++◌, arith, number_key, string_key, pair_key,
  length, ok, err, panic, unwrap_or, one_value, inl, inr, ◌⊎◌, ◌≢◌, false, Result-cases,
}
use arxium.Prelude.Word.{u64_bound}
use arxium.Prelude.Map.{get}
use arxium.Prelude.Sets.{holds, include, count, sum_by}
use arxium.Primitives.Address.{Address}
use arxium.Primitives.Action.{Action}
use arxium.Mempool.Pool.{
  Mempool, MempoolError, Limits, max_wire_message_size, with_limits, key_of, no_longer_dropped,
  with_signature, take_slot, push, requeue_front, drain_pending_within, purge_stale, note_dropped,
}
use arxium.Mempool.Indexes.{tick, has_key, has_signature, sent_by}
use arxium.Mempool.Valid.{IsValid, push-Pushed, push-IsValid}
use arxium.Mempool.Drain.{ok-Drains}
use arxium.Mempool.Requeue.{requeue_front-IsValid}
use arxium.Mempool.Signatures.{misuses, Lists}
use arxium.Mempool.SignatureRuns.{
  push-Lists, requeue_front-Lists, drain_pending_within-Lists, purge_stale-Lists,
}
use arxium.Mempool.Purge.{purge_stale-retain}

module _ {ℓ} {P : Type ℓ} (encoded_size : Action P → ℕ) where
  -- The mempools that calls which return make of an empty one, in any order, where no action that is
  -- pushed or put back has the signature without the key.
  pub data Reached (limits : Limits) (signature : String) (key : Address × ℕ)
      : Mempool P → Type ℓ where
    started : Reached limits signature key (with_limits limits)
    pushed :
        {m after : Mempool P} (action : Action P)
        → misuses signature key action ≡ false
        → Reached limits signature key m
        → push encoded_size action m ≡ ok after
        → Reached limits signature key after
    requeued :
        {m after : Mempool P} (actions : List (Action P))
        → count (misuses signature key) actions ≡ 0
        → Reached limits signature key m
        → requeue_front encoded_size actions m ≡ ok after
        → Reached limits signature key after
    drained :
        {m after : Mempool P} (max_count max_bytes : ℕ) (taken : List (Action P))
        → Reached limits signature key m
        → drain_pending_within encoded_size max_count max_bytes m ≡ ok (taken, after)
        → Reached limits signature key after
    purged :
        {m after : Mempool P} (sender : Address) (current_nonce : ℕ)
        → Reached limits signature key m
        → purge_stale encoded_size sender current_nonce m ≡ ok after
        → Reached limits signature key after
    noted :
        {m : Mempool P} (entries : List (String × String))
        → Reached limits signature key m
        → Reached limits signature key (note_dropped entries m)

  empty-IsValid : (limits : Limits) → IsValid encoded_size (with_limits {P = P} limits)
  unfolding holds get count sum_by
  empty-IsValid limits = record {
    indexes = record {
      seen_once = λ key. refl;
      slots = λ sender. refl;
      signed = λ signature h. absurd (ground (arith, h));
    };
    bytes = refl;
    room = omega arith;
  }

  empty-Lists :
      (limits : Limits) (signature : String) (key : Address × ℕ) → Lists {P = P} signature key [] []
  unfolding holds count
  empty-Lists limits signature key = record { listed = refl; own = refl }

  Reached-Lists :
      {limits : Limits} {signature : String} {key : Address × ℕ} {m : Mempool P}
      → Reached limits signature key m
      → IsValid encoded_size m × Lists signature key m.pending m.signatures
  Reached-Lists {limits = limits} {signature = s} {key = key} Reached.started =
      (empty-IsValid limits, empty-Lists limits s key)
  Reached-Lists {signature = s} {key = key} {m = m}
        (Reached.pushed {m = before} action proper run h) =
      let (v, l) = Reached-Lists run in
      (
        push-IsValid encoded_size action before m v h,
        push-Lists s key encoded_size action before m proper v h l,
      )
  Reached-Lists {signature = s} {key = key} {m = m}
        (Reached.requeued {m = before} actions proper run h) =
      let (v, l) = Reached-Lists run in
      (
        requeue_front-IsValid encoded_size actions before m v h,
        requeue_front-Lists s key encoded_size actions before m proper v h l,
      )
  Reached-Lists {signature = s} {key = key} {m = m}
        (Reached.drained {m = before} max_count max_bytes taken run h) =
      let (v, l) = Reached-Lists run in
      (
        (ok-Drains encoded_size max_count max_bytes before taken m v h).valid,
        drain_pending_within-Lists s key encoded_size max_count max_bytes before taken m h l,
      )
  Reached-Lists {signature = s} {key = key} {m = m}
        (Reached.purged {m = before} sender current_nonce run h) =
      let (v, l) = Reached-Lists run in
      let (after, is, same, valid) =
        purge_stale-retain encoded_size sender current_nonce before v in
      (
        subst (IsValid encoded_size)
            (one_value (purge_stale encoded_size sender current_nonce before) is h) valid,
        purge_stale-Lists s key encoded_size sender current_nonce before m h l,
      )
  Reached-Lists (Reached.noted {m = before} entries run) =
      let (v, l) = Reached-Lists run in
      (record { indexes = v.indexes; bytes = v.bytes; room = v.room }, l)

  -- Every mempool reached by calls that return is valid, in whatever order they come: no two queued
  -- actions share a sender and nonce, the seen pairs and the rows per sender are those of the queue,
  -- a signature in the set is that of a queued action, and the bytes add up. A signature that is
  -- pushed and put back only with one sender and nonce is in the set exactly if an action with it is
  -- queued, and no two queued actions have it.
  pub Reached-IsValid :
      (limits : Limits) (signature : String) (key : Address × ℕ) (m : Mempool P)
      → Reached limits signature key m
      → IsValid encoded_size m
        × (tick (holds signature m.signatures) ≡ count (has_signature signature) m.pending)
  Reached-IsValid limits signature key m run = let (v, l) = Reached-Lists run in (v, l.listed)

  -- What a push asks for, said of the queue alone.
  pub record Admissible (action : Action P) (m : Mempool P) : Type 0 where
    pub free : length m.pending < m.max_pending
    pub small : encoded_size action ≤ max_wire_message_size
    pub within : sum_by encoded_size m.pending + encoded_size action ≤ m.max_pending_bytes
    pub own : count (sent_by action.sender) m.pending < m.max_per_sender
    pub new : count (has_key (key_of action)) m.pending ≡ 0

  own_slots :
      (m : Mempool P) (sender : Address)
      → IsValid encoded_size m
      → unwrap_or (get sender m.per_sender) 0 ≡ count (sent_by sender) m.pending
  unfolding unwrap_or
  own_slots m sender valid = ground (arith, valid.indexes.slots sender)

  admitted :
      (action : Action P) (m : Mempool P)
      → IsValid encoded_size m
      → m.total_bytes + encoded_size action < u64_bound
      → Admissible action m
      → (after : Mempool P) × (push encoded_size action m ≡ ok after)
        × (after.pending ≡ m.pending ++ action ∷ [])
  unfolding push
  admitted action m valid room a = (
    record m {
      pending = m.pending ++ action ∷ [];
      seen = include (key_of action) m.seen;
      signatures = with_signature action.signature m.signatures;
      total_bytes = m.total_bytes + encoded_size action;
      per_sender = take_slot action.sender m.per_sender;
      dropped = no_longer_dropped action.signature m.dropped;
    },
    ground (
      arith,
      a.free,
      a.small,
      a.within,
      a.own,
      a.new,
      room,
      valid.bytes,
      own_slots m action.sender valid,
      valid.indexes.seen_once (key_of action),
    ),
    refl,
  )

  ok-Admissible :
      (action : Action P) (m after : Mempool P)
      → IsValid encoded_size m
      → push encoded_size action m ≡ ok after
      → Admissible action m
  ok-Admissible action m after valid h =
      let p = push-Pushed encoded_size action m after h in
      record {
        free = p.free;
        small = p.small;
        within = omega (arith, p.within, valid.bytes);
        own = omega (arith, p.slot_free, own_slots m action.sender valid);
        new = ground (arith, p.new, valid.indexes.seen_once (key_of action));
      }

  push_returns :
      (action : Action P) (m : Mempool P)
      → m.total_bytes + encoded_size action < u64_bound
      → push encoded_size action m ≢ panic
  unfolding push
  push_returns action m room h = ground (arith, room, h)

  -- On a valid mempool whose bytes leave room in a usize, a push succeeds exactly on the actions
  -- that the queue admits: there is a place, a place of the sender's, the bytes fit, and no queued
  -- action has the sender and nonce. It then puts the action last in the queue; every other action
  -- it refuses with an error.
  pub push-Admissible :
      (action : Action P) (m : Mempool P)
      → IsValid encoded_size m
      → m.total_bytes + encoded_size action < u64_bound
      → (Admissible action m
          × (after : Mempool P) × (push encoded_size action m ≡ ok after)
          × (after.pending ≡ m.pending ++ action ∷ []))
        ⊎ ((¬ Admissible action m) × (e : MempoolError) × (push encoded_size action m ≡ err e))
  push-Admissible action m valid room = elim (Result-cases (push encoded_size action m)) [
    | inl (after, h) ↦
        (let a = ok-Admissible action m after valid h in
          let (next, is, same) = admitted action m valid room a in inl (a, next, is, same))
    | inr (inl (e, h)) ↦ inr (
      λ a. (let (after, is, same) = admitted action m valid room a in ground (arith, h, is)),
      e,
      h,
    )
    | inr (inr h) ↦ absurd (push_returns action m room h)
  ]
