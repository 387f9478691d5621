-- ===== src/Mempool/Requeue.antt =====
-- What is put back at the front of the queue.
use mathlib.Core.Path.{subst}
use arxium.Prelude.{
  ℕ, ◌+◌, ◌≤◌, ◌<◌, ◌≡◌, inl, inr, refl, sym, ap, ◌∙◌, false, List, [], ◌∷◌, ◌++◌, arith,
  number_key, string_key, pair_key, take, take-drop, ok, Bool-cases, >>=-eq-ok, ◌>>=◌,
}
use arxium.Prelude.Word.{u64_bound}
use arxium.Prelude.Sets.{holds, include, count, sum_by}
use arxium.Primitives.Action.{Action}
use arxium.Mempool.Pool.{
  Mempool, key_of, with_signature, take_slot, put_back, requeue_front, drain_pending_within,
}
use arxium.Mempool.Indexes.{has_key, front-Adds, admitted-Agrees}
use arxium.Mempool.Valid.{IsValid}
use arxium.Mempool.Drain.{ok-Drains}

module _ {ℓ} {P : Type ℓ} (encoded_size : Action P → ℕ) where
  restored : Action P → Mempool P → Mempool P
  restored action m = record m {
    pending = action ∷ m.pending;
    seen = include (key_of action) m.seen;
    signatures = with_signature action.signature m.signatures;
    total_bytes = m.total_bytes + encoded_size action;
    per_sender = take_slot action.sender m.per_sender;
  }

  restored-IsValid :
      (action : Action P) (m : Mempool P)
      → IsValid encoded_size m
      → holds (key_of action) m.seen ≡ false
      → m.total_bytes + encoded_size action < u64_bound
      → IsValid encoded_size (restored action m)
  unfolding restored sum_by
  restored-IsValid action m valid new fits = record {
    indexes =
        admitted-Agrees action m.pending (action ∷ m.pending) m.seen m.signatures m.per_sender
          (front-Adds action m.pending) new valid.indexes;
    bytes = ground (arith, valid.bytes);
    room = fits;
  }

  put_back-IsValid :
      (action : Action P) (m after : Mempool P)
      → IsValid encoded_size m
      → put_back encoded_size action m ≡ ok after
      → IsValid encoded_size after
  unfolding put_back restored
  put_back-IsValid action m after valid h = elim (Bool-cases (holds (key_of action) m.seen)) [
    | inl there ↦ subst (IsValid encoded_size) (ground (arith, h, there)) valid
    | inr new ↦
        subst (IsValid encoded_size) (ground (arith, h, new))
          (restored-IsValid action m valid new (ground (arith, h, new)))
  ]

  pub requeue_front-IsValid :
      (actions : List (Action P)) (m after : Mempool P)
      → IsValid encoded_size m
      → requeue_front encoded_size actions m ≡ ok after
      → IsValid encoded_size after
  unfolding requeue_front
  requeue_front-IsValid [] m after valid h = subst (IsValid encoded_size) (ground (arith, h)) valid
  requeue_front-IsValid (action ∷ actions) m after valid h =
      let (later, is, last) =
        >>=-eq-ok (requeue_front encoded_size actions m) (λ x. put_back encoded_size action x) h in
      put_back-IsValid action later after (requeue_front-IsValid actions m later valid is) last

  put_back_new :
      (action : Action P) (m : Mempool P)
      → holds (key_of action) m.seen ≡ false
      → m.total_bytes + encoded_size action < u64_bound
      → put_back encoded_size action m ≡ ok (restored action m)
  unfolding put_back restored
  put_back_new action m new fits = ground (arith, new, fits)

  -- Actions that collide with none of the queue go in front of it in their order.
  requeue_new :
      (actions : List (Action P)) (m : Mempool P)
      → IsValid encoded_size m
      → ((key : ℕ × ℕ) → count (has_key key) (actions ++ m.pending) ≤ 1)
      → sum_by encoded_size (actions ++ m.pending) < u64_bound
      → (after : Mempool P) × (requeue_front encoded_size actions m ≡ ok after)
        × (after.pending ≡ actions ++ m.pending)
        × IsValid encoded_size after
  unfolding requeue_front count sum_by restored
  requeue_new [] m valid once room = (m, refl, refl, valid)
  requeue_new (action ∷ actions) m valid once room =
      let (later, is, same, v) =
        requeue_new actions m valid (λ key. ground (arith, once key)) (ground (arith, room)) in
      let new : holds (key_of action) later.seen ≡ false = ground (
        arith,
        once (key_of action),
        v.indexes.seen_once (key_of action),
        same,
        pair_key.same_iff (key_of action) (key_of action),
      ) in
      let fits : later.total_bytes + encoded_size action < u64_bound =
        ground (arith, v.bytes, same, room) in
      (
        restored action later,
        ap (λ r. r >>= λ x. put_back encoded_size action x) is ∙ put_back_new action later new fits,
        ap (λ queue. action ∷ queue) same,
        restored-IsValid action later v new fits,
      )

  -- Putting back all that a drain took restores the queue: on a valid mempool the actions drained
  -- go back in front in their order, the bytes add up to what they were, nothing is refused and
  -- nothing panics.
  pub requeue_front-drain_pending_within :
      (max_count max_bytes : ℕ) (m : Mempool P) (drained : List (Action P)) (after : Mempool P)
      → IsValid encoded_size m
      → drain_pending_within encoded_size max_count max_bytes m ≡ ok (drained, after)
      → (back : Mempool P) × (requeue_front encoded_size drained after ≡ ok back)
        × (back.pending ≡ m.pending)
        × (back.total_bytes ≡ m.total_bytes)
        × IsValid encoded_size back
  requeue_front-drain_pending_within max_count max_bytes m drained after valid h =
      let d = ok-Drains encoded_size max_count max_bytes m drained after valid h in
      let whole : drained ++ after.pending ≡ m.pending =
        ap (λ xs. xs ++ after.pending) d.first
        ∙ ap (λ xs. take d.count m.pending ++ xs) d.rest
        ∙ take-drop d.count m.pending in
      let (back, is, same, v) =
        requeue_new drained after d.valid
          (λ key.
            subst (λ xs. count (has_key key) xs ≤ 1) (sym whole)
              (ground (arith, valid.indexes.seen_once key)))
          (subst (λ xs. sum_by encoded_size xs < u64_bound) (sym whole)
            (omega (arith, valid.bytes, valid.room))) in
      (
        back,
        is,
        same ∙ whole,
        v.bytes ∙ ap (sum_by encoded_size) (same ∙ whole) ∙ sym valid.bytes,
        v,
      )
