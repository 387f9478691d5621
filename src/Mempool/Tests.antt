-- ===== src/Mempool/Tests.antt =====
-- Three actions of 100 bytes: two of sender 1 and one of sender 2.
use arxium.Prelude.{
  ℕ, ◌≤◌, ◌≡◌, ◌⊎◌, refl, false, ◌&&◌, none, some, List, [], ◌∷◌, arith, leb, number_key,
  string_key, pair_key, ok, err, unwrap_or,
}
use arxium.Prelude.Map.{get, insert}
use arxium.Prelude.Sets.{holds, include, exclude, remove, count}
use arxium.Primitives.Action.{Action}
use arxium.Mempool.Pool.{
  Mempool, MempoolError, Limits, with_limits, push, requeue_front, drain_pending_within,
  purge_stale, next_nonce, next_from, fitting, drain_front, forget, subtract_sizes, release_slot,
}
use arxium.Mempool.Valid.{IsValid}
use arxium.Mempool.Indexes.{tick, has_signature, sent_by}
use arxium.Mempool.Drain.{Drains, drain_pending_within-Drains}
use arxium.Mempool.Requeue.{requeue_front-drain_pending_within}
use arxium.Mempool.Purge.{purge_stale-retain, next_nonce-free}
use arxium.Mempool.Runs.{Reached, Reached-IsValid, Admissible, push-Admissible}

abbrev size : Action ℕ → ℕ
size action = 100

abbrev limits : Limits
limits = record { mempool_max_pending = 10; mempool_max_bytes = 1_000; mempool_max_per_sender = 5 }

abbrev first : Action ℕ
first = record { sender = 1; nonce = 0; signature = some "one"; payload = 7 }

abbrev second : Action ℕ
second = record { sender = 1; nonce = 1; signature = none; payload = 8 }

abbrev third : Action ℕ
third = record { sender = 2; nonce = 0; signature = some "three"; payload = 9 }

abbrev empty : Mempool ℕ
empty = with_limits limits

abbrev one : Mempool ℕ
one = record empty {
  pending = first ∷ [];
  seen = (1, 0) ∷ [];
  signatures = "one" ∷ [];
  total_bytes = 100;
  per_sender = (1, 1) ∷ [];
}

abbrev two : Mempool ℕ
two = record one {
  pending = first ∷ second ∷ [];
  seen = (1, 1) ∷ (1, 0) ∷ [];
  total_bytes = 200;
  per_sender = (1, 2) ∷ [];
}

first_runs : push size first empty ≡ ok one
unfolding push holds include insert get unwrap_or
first_runs = refl

second_runs : push size second one ≡ ok two
unfolding push holds include insert get unwrap_or
second_runs = refl

abbrev two_Reached : Reached size limits "one" (1, 0) two
two_Reached =
    Reached.pushed second refl (Reached.pushed first refl Reached.started first_runs) second_runs

two-IsValid : IsValid size two
two-IsValid = (Reached-IsValid size limits "one" (1, 0) two two_Reached).0

abbrev rest : Mempool ℕ
rest = record two {
  pending = second ∷ [];
  seen = (1, 1) ∷ [];
  signatures = [];
  total_bytes = 100;
  per_sender = (1, 1) ∷ [];
}

drain_runs : drain_pending_within size 10 150 two ≡ ok (first ∷ [], rest)
unfolding drain_pending_within fitting drain_front forget release_slot subtract_sizes get insert
    remove exclude
drain_runs = refl

Reached-IsValid_example :
    IsValid size two × (tick (holds "one" two.signatures) ≡ count (has_signature "one") two.pending)
Reached-IsValid_example = Reached-IsValid size limits "one" (1, 0) two two_Reached

push-Admissible_example :
    (Admissible size third two
      × (after : Mempool ℕ) × (push size third two ≡ ok after)
      × (after.pending ≡ first ∷ second ∷ third ∷ []))
    ⊎ ((¬ Admissible size third two) × (e : MempoolError) × (push size third two ≡ err e))
push-Admissible_example = push-Admissible size third two two-IsValid (omega arith)

drain_pending_within-Drains_example :
    (drained : List (Action ℕ)) × (after : Mempool ℕ) × (drain_pending_within size 10 150 two
      ≡ ok (drained, after))
    × Drains size 10 150 two drained after
drain_pending_within-Drains_example = drain_pending_within-Drains size 10 150 two two-IsValid

requeue_front-drain_pending_within_example :
    (back : Mempool ℕ) × (requeue_front size (first ∷ []) rest ≡ ok back)
    × (back.pending ≡ first ∷ second ∷ [])
    × (back.total_bytes ≡ 200)
    × IsValid size back
requeue_front-drain_pending_within_example =
    requeue_front-drain_pending_within size 10 150 two (first ∷ []) rest two-IsValid drain_runs

purge_stale-retain_example :
    (after : Mempool ℕ) × (purge_stale size 1 1 two ≡ ok after)
    × (after.pending ≡ second ∷ [])
    × IsValid size after
purge_stale-retain_example = purge_stale-retain size 1 1 two two-IsValid

next_runs : next_nonce size 1 0 two ≡ ok 2
unfolding next_nonce next_from
next_runs = refl

next_nonce-free_example :
    (0 ≤ 2)
    × (count (λ (action : Action ℕ). sent_by 1 action && leb 2 action.nonce) two.pending ≡ 0)
    × (holds (1, 2) two.seen ≡ false)
next_nonce-free_example = next_nonce-free size 1 0 2 two two-IsValid next_runs
