-- ===== src/Mempool/SignatureRuns.antt =====
-- How each operation of the mempool keeps the set of queued signatures.
use mathlib.Core.Path.{subst}
use mathlib.Core.List.{append_assoc}
use arxium.Prelude.{
  ℕ, zero, suc, ◌+◌, ◌≡◌, inl, inr, sym, String, false, List, [], ◌∷◌, ◌++◌, arith, number_key,
  string_key, pair_key, Result, ok, Bool-cases, >>=-eq-ok, ◌>>=◌,
}
use arxium.Prelude.Word.{u64_bound, add, sub}
use arxium.Prelude.Sets.{holds, include, count}
use arxium.Primitives.Address.{Address}
use arxium.Primitives.ValidatorSet.{NoError}
use arxium.Primitives.Action.{Action}
use arxium.Mempool.Pool.{
  Mempool, key_of, with_signature, without_signature, take_slot, push, put_back, requeue_front,
  forget, fitting, drain_front, subtract_sizes, drain_pending_within, is_stale, retain_fresh,
  purge_stale,
}
use arxium.Mempool.Indexes.{front-Adds, middle-Adds, end-Adds}
use arxium.Mempool.Valid.{IsValid, push-Pushed}
use arxium.Mempool.Requeue.{requeue_front-IsValid}
use arxium.Mempool.Signatures.{misuses, Lists, admitted-Lists, forgotten-Lists}

module _ {ℓ} {P : Type ℓ} (signature : String) (key : Address × ℕ)
    (encoded_size : Action P → ℕ) where
  pub push-Lists :
      (action : Action P) (m after : Mempool P)
      → misuses signature key action ≡ false
      → IsValid encoded_size m
      → push encoded_size action m ≡ ok after
      → Lists signature key m.pending m.signatures
      → Lists signature key after.pending after.signatures
  push-Lists action m after proper valid h l =
      let p = push-Pushed encoded_size action m after h in
      subst (λ (x : Mempool P). Lists signature key x.pending x.signatures) (sym p.written)
        (admitted-Lists signature key action m.pending (m.pending ++ action ∷ []) m.signatures
          (end-Adds action m.pending) proper
          (ground (arith, p.new, valid.indexes.seen_once (key_of action))) l)

  put_back-Lists :
      (action : Action P) (m after : Mempool P)
      → misuses signature key action ≡ false
      → IsValid encoded_size m
      → put_back encoded_size action m ≡ ok after
      → Lists signature key m.pending m.signatures
      → Lists signature key after.pending after.signatures
  unfolding put_back
  put_back-Lists action m after proper valid h l =
      elim (Bool-cases (holds (key_of action) m.seen)) [
        | inl there ↦
            (let same : m ≡ after = ground (arith, h, there) in
              subst (λ (x : Mempool P). Lists signature key x.pending x.signatures) same l)
        | inr new ↦
            (let m' = record m {
              pending = action ∷ m.pending;
              seen = include (key_of action) m.seen;
              signatures = with_signature action.signature m.signatures;
              total_bytes = m.total_bytes + encoded_size action;
              per_sender = take_slot action.sender m.per_sender;
            } in
              let same : m' ≡ after = ground (arith, h, new) in
              subst (λ (x : Mempool P). Lists signature key x.pending x.signatures) same
                (admitted-Lists signature key action m.pending (action ∷ m.pending) m.signatures
                  (front-Adds action m.pending) proper
                  (ground (arith, new, valid.indexes.seen_once (key_of action))) l))
      ]

  pub requeue_front-Lists :
      (actions : List (Action P)) (m after : Mempool P)
      → count (misuses signature key) actions ≡ 0
      → IsValid encoded_size m
      → requeue_front encoded_size actions m ≡ ok after
      → Lists signature key m.pending m.signatures
      → Lists signature key after.pending after.signatures
  unfolding requeue_front count
  requeue_front-Lists [] m after proper valid h l =
      let same : m ≡ after = ground (arith, h) in
      subst (λ (x : Mempool P). Lists signature key x.pending x.signatures) same l
  requeue_front-Lists (action ∷ actions) m after proper valid h l =
      let (later, is, last) =
        >>=-eq-ok (requeue_front encoded_size actions m) (λ x. put_back encoded_size action x) h in
      put_back-Lists action later after (ground (arith, proper))
        (requeue_front-IsValid encoded_size actions m later valid is) last
        (requeue_front-Lists actions m later (ground (arith, proper)) valid is l)

  forget_signatures :
      (action : Action P) (m after : Mempool P)
      → forget encoded_size action m ≡ ok after
      → after.signatures ≡ without_signature action.signature m.signatures
  unfolding forget
  forget_signatures action m after h = ground (arith, h)

  drain_front-Lists :
      (n : ℕ) (m : Mempool P) (queue taken : List (Action P)) (after : Mempool P)
      → drain_front encoded_size n m queue ≡ ok (taken, after)
      → Lists signature key queue m.signatures
      → Lists signature key after.pending after.signatures
  unfolding drain_front
  drain_front-Lists zero m queue taken after h l =
      let left = record m { pending = queue } in
      let same : left ≡ after = ground (arith, h) in
      subst (λ (x : Mempool P). Lists signature key x.pending x.signatures) same l
  drain_front-Lists (suc n) m [] taken after h l = absurd (ground (arith, h))
  drain_front-Lists (suc n) m (action ∷ queue) taken after h l =
      let (left, is, next) =
        >>=-eq-ok (forget encoded_size action m)
          (λ x. drain_front encoded_size n x queue >>= λ r. ok (action ∷ r.0, r.1)) h in
      let (r, runs, last) =
        >>=-eq-ok (drain_front encoded_size n left queue) (λ r. ok (action ∷ r.0, r.1)) next in
      let l' =
        subst (λ s. Lists signature key queue s) (sym (forget_signatures action m left is))
          (forgotten-Lists signature key action (action ∷ queue) queue m.signatures
            (front-Adds action queue) l) in
      let same : r.1 ≡ after = ground (arith, last) in
      subst (λ (x : Mempool P). Lists signature key x.pending x.signatures) same
        (drain_front-Lists n left queue r.0 r.1 runs l')

  -- What a drain does after the front is gone.
  abbrev settle : List (Action P) × Mempool P → Result NoError (List (Action P) × Mempool P)
  settle r = subtract_sizes encoded_size r.0 r.1.total_bytes >>= λ total.
      ok (r.0, record r.1 { total_bytes = total })

  settle-Lists :
      (taken : List (Action P)) (after : Mempool P) (r : List (Action P) × Mempool P)
      → settle r ≡ ok (taken, after)
      → Lists signature key r.1.pending r.1.signatures
      → Lists signature key after.pending after.signatures
  settle-Lists taken after r h l =
      let (total, is, last) = >>=-eq-ok (subtract_sizes encoded_size r.0 r.1.total_bytes) _ h in
      let settled = record r.1 { total_bytes = total } in
      let same : settled ≡ after = ground (arith, last) in
      subst (λ (x : Mempool P). Lists signature key x.pending x.signatures) same l

  pub drain_pending_within-Lists :
      (max_count max_bytes : ℕ) (m : Mempool P) (taken : List (Action P)) (after : Mempool P)
      → drain_pending_within encoded_size max_count max_bytes m ≡ ok (taken, after)
      → Lists signature key m.pending m.signatures
      → Lists signature key after.pending after.signatures
  unfolding drain_pending_within
  drain_pending_within-Lists max_count max_bytes m taken after h l =
      let (n, fits, next) =
        >>=-eq-ok (fitting encoded_size max_count max_bytes 0 0 m.pending)
          (λ n. drain_front encoded_size n m m.pending >>= settle) h in
      let (r, runs, last) = >>=-eq-ok (drain_front encoded_size n m m.pending) settle next in
      settle-Lists taken after r last (drain_front-Lists n m m.pending r.0 r.1 runs l)

  retain_fresh-Lists :
      (sender : Address) (current_nonce : ℕ) (before actions : List (Action P)) (bytes : ℕ)
      (m : Mempool P) (kept : List (Action P)) (removed : ℕ) (after : Mempool P)
      → retain_fresh encoded_size sender current_nonce actions bytes m ≡ ok (kept, removed, after)
      → Lists signature key (before ++ actions) m.signatures
      → Lists signature key (before ++ kept) after.signatures
  unfolding retain_fresh
  retain_fresh-Lists sender current_nonce before [] bytes m kept removed after h l =
      let same : m ≡ after = ground (arith, h) in
      let all : [] ≡ kept = ground (arith, h) in
      subst (λ xs. Lists signature key (before ++ xs) after.signatures) all
        (subst (λ (x : Mempool P). Lists signature key (before ++ []) x.signatures) same l)
  retain_fresh-Lists sender current_nonce before (action ∷ actions) bytes m kept removed after h l =
      elim (Bool-cases (is_stale encoded_size sender current_nonce action)) [
        | inl stale ↦
            (let (more, sum, next) =
                >>=-eq-ok (add u64_bound bytes (encoded_size action))
                  (λ x. forget encoded_size action m >>= λ left.
                    retain_fresh encoded_size sender current_nonce actions x left)
                  (ground (arith, h, stale)) in
              let (left, is, last) =
                >>=-eq-ok (forget encoded_size action m)
                  (λ left. retain_fresh encoded_size sender current_nonce actions more left) next in
              retain_fresh-Lists sender current_nonce before actions more left kept removed after
                last
                (subst (λ s. Lists signature key (before ++ actions) s)
                  (sym (forget_signatures action m left is))
                  (forgotten-Lists signature key action (before ++ action ∷ actions)
                    (before ++ actions) m.signatures (middle-Adds action before actions) l)))
        | inr fresh ↦
            (let (r, runs, last) =
                >>=-eq-ok {B = List (Action P) × ℕ × Mempool P} {b = (kept, removed, after)}
                  (retain_fresh encoded_size sender current_nonce actions bytes m)
                  (λ r. ok (action ∷ r.0, r.1, r.2)) (ground (arith, h, fresh)) in
              let l' =
                retain_fresh-Lists sender current_nonce (before ++ action ∷ []) actions bytes m r.0
                  r.1 r.2 runs
                  (subst (λ xs. Lists signature key xs m.signatures)
                    (sym (append_assoc before (action ∷ []) actions)) l) in
              let same : r.2 ≡ after = ground (arith, last) in
              let all : action ∷ r.0 ≡ kept = ground (arith, last) in
              subst (λ xs. Lists signature key (before ++ xs) after.signatures) all
                (subst
                  (λ (x : Mempool P). Lists signature key (before ++ action ∷ r.0) x.signatures)
                  same
                  (subst (λ xs. Lists signature key xs r.2.signatures)
                    (append_assoc before (action ∷ []) r.0) l')))
      ]

  pub purge_stale-Lists :
      (sender : Address) (current_nonce : ℕ) (m after : Mempool P)
      → purge_stale encoded_size sender current_nonce m ≡ ok after
      → Lists signature key m.pending m.signatures
      → Lists signature key after.pending after.signatures
  unfolding purge_stale
  purge_stale-Lists sender current_nonce m after h l =
      let (r, runs, next) =
        >>=-eq-ok (retain_fresh encoded_size sender current_nonce m.pending 0 m)
          (λ r. sub r.2.total_bytes r.1 >>= λ total.
            ok (record r.2 { pending = r.0; total_bytes = total }))
          h in
      let (total, is, last) =
        >>=-eq-ok (sub r.2.total_bytes r.1)
          (λ total. ok (record r.2 { pending = r.0; total_bytes = total })) next in
      let settled = record r.2 { pending = r.0; total_bytes = total } in
      let same : settled ≡ after = ground (arith, last) in
      subst (λ (x : Mempool P). Lists signature key x.pending x.signatures) same
        (retain_fresh-Lists sender current_nonce [] m.pending 0 m r.0 r.1 r.2 runs l)
