-- ===== src/Mempool/Purge.antt =====
-- What a purge of stale actions keeps, and the nonce that a sender may use next.
use mathlib.Core.Path.{subst}
use mathlib.Core.List.{append_assoc}
use arxium.Prelude.{
  ℕ, ◌+◌, ◌≤◌, ◌<◌, ◌≡◌, inl, inr, refl, sym, ap, ◌∙◌, String, Bool, false, not, ◌&&◌, List, [],
  ◌∷◌, ◌++◌, arith, leb, max, number_key, pair_key, retain, ok, Bool-cases,
}
use arxium.Prelude.Word.{u64_bound}
use arxium.Prelude.Map.{Map}
use arxium.Prelude.Sets.{holds, exclude, count, sum_by}
use arxium.Primitives.Address.{Address}
use arxium.Primitives.Action.{Action}
use arxium.Mempool.Pool.{
  Mempool, key_of, without_signature, forget, is_stale, retain_fresh, purge_stale, next_from,
  next_nonce,
}
use arxium.Mempool.Indexes.{Agrees, has_key, sent_by, middle-Adds, forgotten-Agrees}
use arxium.Mempool.Valid.{IsValid}

module _ {ℓ} {P : Type ℓ} (encoded_size : Action P → ℕ) where
  module _ (sender : Address) (current_nonce : ℕ) where
    abbrev pub is_fresh : Action P → Bool
    is_fresh action = not (is_stale encoded_size sender current_nonce action)

    -- The stale actions among `actions` are forgotten, behind those kept before.
    record Purged (before actions : List (Action P)) (bytes : ℕ) (m : Mempool P) : Type ℓ where
      seen : List (Address × ℕ)
      signatures : List String
      per_sender : Map Address ℕ
      removed : ℕ
      returns :
          retain_fresh encoded_size sender current_nonce actions bytes m
          ≡ ok (
            retain is_fresh actions,
            removed,
            record m { seen = seen; signatures = signatures; per_sender = per_sender },
          )
      sizes :
          removed + sum_by encoded_size (retain is_fresh actions)
          ≡ bytes + sum_by encoded_size actions
      agrees : Agrees (before ++ retain is_fresh actions) seen signatures per_sender

    retain_fresh-Purged :
        (before actions : List (Action P)) (bytes : ℕ) (m : Mempool P)
        → bytes + sum_by encoded_size actions < u64_bound
        → Agrees (before ++ actions) m.seen m.signatures m.per_sender
        → Purged before actions bytes m
    unfolding retain_fresh sum_by forget
    retain_fresh-Purged before [] bytes m room a = record {
      seen = m.seen;
      signatures = m.signatures;
      per_sender = m.per_sender;
      removed = bytes;
      returns = refl;
      sizes = refl;
      agrees = a;
    }
    retain_fresh-Purged before (action ∷ actions) bytes m room a =
        elim (Bool-cases (is_stale encoded_size sender current_nonce action)) [
          | inl stale ↦
              (let (rows, released, b) =
                  forgotten-Agrees action (before ++ action ∷ actions) (before ++ actions) m.seen
                    m.signatures m.per_sender (middle-Adds action before actions) a in
                let left = record m {
                  seen = exclude (key_of action) m.seen;
                  signatures = without_signature action.signature m.signatures;
                  per_sender = rows;
                } in
                let p =
                  retain_fresh-Purged before actions (bytes + encoded_size action) left
                    (omega (arith, room)) b in
                record {
                  seen = p.seen;
                  signatures = p.signatures;
                  per_sender = p.per_sender;
                  removed = p.removed;
                  returns = ground (arith, stale, room, released, p.returns);
                  sizes = ground (arith, stale, p.sizes);
                  agrees =
                      subst (λ xs. Agrees (before ++ xs) p.seen p.signatures p.per_sender)
                        (ground (arith, stale)) p.agrees;
                })
          | inr fresh ↦
              (let p =
                  retain_fresh-Purged (before ++ action ∷ []) actions bytes m (omega (arith, room))
                    (subst (λ xs. Agrees xs m.seen m.signatures m.per_sender)
                      (sym (append_assoc before (action ∷ []) actions)) a) in
                record {
                  seen = p.seen;
                  signatures = p.signatures;
                  per_sender = p.per_sender;
                  removed = p.removed;
                  returns = ground (arith, fresh, p.returns);
                  sizes = ground (arith, fresh, p.sizes);
                  agrees =
                      subst (λ xs. Agrees xs p.seen p.signatures p.per_sender)
                        (append_assoc before (action ∷ []) (retain is_fresh actions)
                          ∙ ap (λ xs. before ++ xs) (ground (arith, fresh)))
                        p.agrees;
                })
        ]

  -- A purge drops exactly the sender's actions below the nonce and keeps the others in their order;
  -- on a valid mempool it does not panic and leaves a valid one.
  pub purge_stale-retain :
      (sender : Address) (current_nonce : ℕ) (m : Mempool P)
      → IsValid encoded_size m
      → (after : Mempool P) × (purge_stale encoded_size sender current_nonce m ≡ ok after)
        × (after.pending ≡ retain (is_fresh sender current_nonce) m.pending)
        × IsValid encoded_size after
  unfolding purge_stale
  purge_stale-retain sender current_nonce m valid =
      let p =
        retain_fresh-Purged sender current_nonce [] m.pending 0 m
          (omega (arith, valid.bytes, valid.room)) valid.indexes in
      let kept = retain (is_fresh sender current_nonce) m.pending in
      (
        record m {
          pending = kept;
          seen = p.seen;
          signatures = p.signatures;
          per_sender = p.per_sender;
          total_bytes = sum_by encoded_size kept;
        },
        ground (arith, p.returns, p.sizes, valid.bytes),
        refl,
        record {
          indexes = p.agrees;
          bytes = refl;
          room = omega (arith, p.sizes, valid.bytes, valid.room);
        },
      )

  -- At the sender, the nonces from `next` on are free.
  next_from-above :
      (sender : Address) (start next : ℕ) (actions : List (Action P))
      → next_from encoded_size sender start actions ≡ ok next
      → (start ≤ next)
        × (count (λ (action : Action P). sent_by sender action && leb next action.nonce) actions
            ≡ 0)
  unfolding next_from count
  next_from-above sender start next [] h = ground (arith, h)
  next_from-above sender start next (action ∷ actions) h = ground (
    arith,
    h,
    next_from-above sender start next actions,
    next_from-above sender (max start (action.nonce + 1)) next actions,
  )

  fewer_keys :
      (sender : Address) (next : ℕ) (actions : List (Action P))
      → count (has_key (sender, next)) actions
        ≤ count (λ (action : Action P). sent_by sender action && leb next action.nonce) actions
  unfolding count
  fewer_keys sender next [] = omega arith
  fewer_keys sender next (action ∷ actions) = ground (arith, fewer_keys sender next actions)

  -- The nonce that is proposed to a sender is at least the one on chain and above every queued
  -- nonce of its, so on a valid mempool no push of it is refused as a duplicate.
  pub next_nonce-free :
      (sender : Address) (on_chain_nonce next : ℕ) (m : Mempool P)
      → IsValid encoded_size m
      → next_nonce encoded_size sender on_chain_nonce m ≡ ok next
      → (on_chain_nonce ≤ next)
        × (count (λ (action : Action P). sent_by sender action && leb next action.nonce) m.pending
            ≡ 0)
        × (holds (sender, next) m.seen ≡ false)
  unfolding next_nonce
  next_nonce-free sender on_chain_nonce next m valid h =
      let (least, above) = next_from-above sender on_chain_nonce next m.pending h in
      (
        least,
        above,
        ground (
          arith,
          above,
          fewer_keys sender next m.pending,
          valid.indexes.seen_once (sender, next),
        ),
      )
