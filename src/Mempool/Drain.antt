-- ===== src/Mempool/Drain.antt =====
-- What a drain takes: the front of the queue, as much as fits.
use mathlib.Core.Path.{subst}
use arxium.Prelude.{
  one_value, ℕ, zero, suc, ◌+◌, ◌-◌, ◌≤◌, ◌<◌, ◌≡◌, ◌⊎◌, inl, inr, refl, sym, ap, ◌∙◌, ◌&&◌, String,
  number_key, pair_key, List, [], ◌∷◌, arith, ltb, length, take, drop, take-drop, ok, Bool-cases,
}
use arxium.Prelude.Word.{u64_bound}
use arxium.Prelude.Sets.{sum_by, sum_by-append, exclude}
use arxium.Prelude.Map.{Map}
use arxium.Primitives.Address.{Address}
use arxium.Primitives.Action.{Action}
use arxium.Mempool.Pool.{
  Mempool, key_of, without_signature, fitting, forget, drain_front, subtract_sizes,
  drain_pending_within,
}
use arxium.Mempool.Indexes.{Agrees, front-Adds, forgotten-Agrees}
use arxium.Mempool.Valid.{IsValid}

module _ {ℓ} {P : Type ℓ} (encoded_size : Action P → ℕ) where
  -- `count` actions are what fits: within the limits, and no more would be.
  pub record Fits (max_count max_bytes n bytes : ℕ) (actions : List (Action P)) (count : ℕ)
      : Type ℓ where
    pub counted : count ≤ max_count
    pub queued : count ≤ length actions
    pub within : (bytes + sum_by encoded_size (take count actions) ≤ max_bytes) ⊎ (n + count ≤ 1)
    pub most :
        (count ≡ max_count)
        ⊎ (count ≡ length actions)
        ⊎ ((1 ≤ n + count) × (max_bytes < bytes + sum_by encoded_size (take (suc count) actions)))

  fitting-Fits :
      (max_count max_bytes n bytes : ℕ) (actions : List (Action P))
      → bytes + sum_by encoded_size actions < u64_bound
      → (bytes ≤ max_bytes) ⊎ (n ≤ 1)
      → (count : ℕ) × (fitting encoded_size max_count max_bytes n bytes actions ≡ ok (n + count))
        × Fits max_count max_bytes n bytes actions count
  unfolding fitting sum_by
  fitting-Fits zero max_bytes n bytes actions room so_far = (
    0,
    ground arith,
    record {
      counted = omega arith;
      queued = omega arith;
      within = ground (arith, so_far);
      most = inl refl;
    },
  )
  fitting-Fits (suc max_count) max_bytes n bytes [] room so_far = (
    0,
    ground arith,
    record {
      counted = omega arith;
      queued = omega arith;
      within = ground (arith, so_far);
      most = inr (inl refl);
    },
  )
  fitting-Fits (suc max_count) max_bytes n bytes (action ∷ actions) room so_far =
      elim (Bool-cases (ltb 0 n && ltb max_bytes (bytes + encoded_size action))) [
        | inl over ↦ (
          0,
          ground (arith, over, room),
          record {
            counted = omega arith;
            queued = omega arith;
            within = ground (arith, so_far);
            most = inr (inr (ground (arith, over)));
          },
        )
        | inr under ↦
            (let (count, is, f) =
                fitting-Fits max_count max_bytes (n + 1) (bytes + encoded_size action) actions
                  (ground (arith, room)) (ground (arith, under)) in
              (
                suc count,
                ground (arith, under, room, is),
                record {
                  counted = ground (arith, f.counted);
                  queued = ground (arith, f.queued);
                  within = ground (arith, f.within);
                  most = ground (arith, f.most);
                },
              ))
      ]

  subtract_sizes-ok :
      (actions : List (Action P)) (total : ℕ)
      → sum_by encoded_size actions ≤ total
      → subtract_sizes encoded_size actions total ≡ ok (total - sum_by encoded_size actions)
  unfolding subtract_sizes sum_by
  subtract_sizes-ok [] total h = ground arith
  subtract_sizes-ok (action ∷ actions) total h =
      ground (arith, h, subtract_sizes-ok actions (total - encoded_size action))

  -- The first n actions are forgotten by the indexes, and nothing else changes.
  pub record Drained (n : ℕ) (m : Mempool P) (queue : List (Action P)) : Type ℓ where
    pub seen : List (Address × ℕ)
    pub signatures : List String
    pub per_sender : Map Address ℕ
    pub returns :
        drain_front encoded_size n m queue
        ≡ ok (
          take n queue,
          record m {
            pending = drop n queue;
            seen = seen;
            signatures = signatures;
            per_sender = per_sender;
          },
        )
    pub agrees : Agrees (drop n queue) seen signatures per_sender

  drain_front-Drained :
      (n : ℕ) (m : Mempool P) (queue : List (Action P))
      → n ≤ length queue
      → Agrees queue m.seen m.signatures m.per_sender
      → Drained n m queue
  unfolding drain_front forget
  drain_front-Drained zero m queue h a = record {
    seen = m.seen;
    signatures = m.signatures;
    per_sender = m.per_sender;
    returns = refl;
    agrees = a;
  }
  drain_front-Drained (suc n) m [] h a = absurd (omega (arith, h))
  drain_front-Drained (suc n) m (action ∷ queue) h a =
      let (rows, released, b) =
        forgotten-Agrees action (action ∷ queue) queue m.seen m.signatures m.per_sender
          (front-Adds action queue) a in
      let left = record m {
        seen = exclude (key_of action) m.seen;
        signatures = without_signature action.signature m.signatures;
        per_sender = rows;
      } in
      let d = drain_front-Drained n left queue (omega (arith, h)) b in
      record {
        seen = d.seen;
        signatures = d.signatures;
        per_sender = d.per_sender;
        returns = ground (arith, released, d.returns);
        agrees = d.agrees;
      }

  -- What a drain returns and leaves: `count` actions of the front.
  pub record Drains (max_count max_bytes : ℕ) (m : Mempool P) (drained : List (Action P))
      (after : Mempool P) : Type ℓ where
    pub count : ℕ
    pub fits : Fits max_count max_bytes 0 0 m.pending count
    pub first : drained ≡ take count m.pending
    pub rest : after.pending ≡ drop count m.pending
    pub valid : IsValid encoded_size after

  sizes_split :
      (n : ℕ) (actions : List (Action P))
      → sum_by encoded_size (take n actions) + sum_by encoded_size (drop n actions)
        ≡ sum_by encoded_size actions
  sizes_split n actions =
      sym (sum_by-append encoded_size (take n actions) (drop n actions))
      ∙ ap (sum_by encoded_size) (take-drop n actions)

  drain_within_count :
      (max_count max_bytes count : ℕ) (m : Mempool P)
      → IsValid encoded_size m
      → fitting encoded_size max_count max_bytes 0 0 m.pending ≡ ok (0 + count)
      → Fits max_count max_bytes 0 0 m.pending count
      → (d : Drained count m m.pending)
      → (after : Mempool P) × (drain_pending_within encoded_size max_count max_bytes m
          ≡ ok (take count m.pending, after))
        × Drains max_count max_bytes m (take count m.pending) after
  unfolding drain_pending_within
  drain_within_count max_count max_bytes count m valid fitted f d =
      let left = sum_by encoded_size (drop count m.pending) in
      (
        record m {
          pending = drop count m.pending;
          seen = d.seen;
          signatures = d.signatures;
          per_sender = d.per_sender;
          total_bytes = left;
        },
        ground (
          arith,
          fitted,
          d.returns,
          sizes_split count m.pending,
          valid.bytes,
          subtract_sizes-ok (take count m.pending) m.total_bytes,
        ),
        record {
          count = count;
          fits = f;
          first = refl;
          rest = refl;
          valid = record {
            indexes = d.agrees;
            bytes = refl;
            room = omega (arith, sizes_split count m.pending, valid.bytes, valid.room);
          };
        },
      )

  -- A drain of a valid mempool does not panic. It takes actions from the front of the queue in
  -- their order, at most as many as asked for; they are within the bytes, or one action alone; it
  -- stops only at the count, at the end of the queue, or after a first action where the next one
  -- would exceed the bytes. The rest stays in order, in a valid mempool.
  pub drain_pending_within-Drains :
      (max_count max_bytes : ℕ) (m : Mempool P)
      → IsValid encoded_size m
      → (drained : List (Action P)) × (after : Mempool P) × (drain_pending_within encoded_size
            max_count max_bytes m
          ≡ ok (drained, after))
        × Drains max_count max_bytes m drained after
  drain_pending_within-Drains max_count max_bytes m valid =
      let (count, fitted, f) =
        fitting-Fits max_count max_bytes 0 0 m.pending (omega (arith, valid.bytes, valid.room))
          (inr (omega arith)) in
      let (after, is, d) =
        drain_within_count max_count max_bytes count m valid fitted f
          (drain_front-Drained count m m.pending f.queued valid.indexes) in
      (take count m.pending, after, is, d)

  pub ok-Drains :
      (max_count max_bytes : ℕ) (m : Mempool P) (drained : List (Action P)) (after : Mempool P)
      → IsValid encoded_size m
      → drain_pending_within encoded_size max_count max_bytes m ≡ ok (drained, after)
      → Drains max_count max_bytes m drained after
  ok-Drains max_count max_bytes m drained after valid h =
      let (drained', after', is, d) = drain_pending_within-Drains max_count max_bytes m valid in
      subst (λ (r : List (Action P) × Mempool P). Drains max_count max_bytes m r.0 r.1)
        (one_value (drain_pending_within encoded_size max_count max_bytes m) is h) d
