-- ===== src/Mempool/Signatures.antt =====
-- The set of queued signatures against the queue, for one signature that only actions of one sender and
-- nonce carry.
use mathlib.Core.Path.{subst}
use arxium.Prelude.{
  ℕ, ◌+◌, ◌≤◌, ◌≡◌, inl, inr, String, Bool, false, not, ◌&&◌, List, [], ◌∷◌, arith, ◌==◌,
  number_key, string_key, pair_key, Bool-cases, Option-cases,
}
use arxium.Prelude.Sets.{holds, holds-include, holds-exclude, count}
use arxium.Primitives.Address.{Address}
use arxium.Primitives.Action.{Action}
use arxium.Mempool.Pool.{key_of, with_signature, without_signature}
use arxium.Mempool.Indexes.{tick, has_key, has_signature, Adds}

module _ {ℓ} {P : Type ℓ} (signature : String) (key : Address × ℕ) where
  -- The action carries the signature with another sender or nonce.
  abbrev pub misuses : Action P → Bool
  misuses action = has_signature signature action && not (has_key key action)

  -- The signature is in the set exactly if an action with it is queued, and then one only.
  pub record Lists (actions : List (Action P)) (signatures : List String) : Type 0 where
    pub listed : tick (holds signature signatures) ≡ count (has_signature signature) actions
    pub own : count misuses actions ≡ 0

  fewer_signed :
      (actions : List (Action P))
      → count (has_signature signature) actions
        ≤ count (has_key key) actions + count misuses actions
  unfolding count
  fewer_signed [] = omega arith
  fewer_signed (action ∷ actions) = ground (arith, fewer_signed actions)

  pub admitted-Lists :
      (action : Action P) (before after : List (Action P)) (signatures : List String)
      → Adds action before after
      → misuses action ≡ false
      → count (has_key (key_of action)) before ≡ 0
      → Lists before signatures
      → Lists after (with_signature action.signature signatures)
  unfolding Adds
  admitted-Lists action before after signatures adds proper new l = record {
    listed = elim (Option-cases action.signature) [
      | inl unsigned ↦ ground (arith, unsigned, l.listed, adds (has_signature signature))
      | inr (mine, is) ↦ elim (Bool-cases (mine == signature)) [
        | inr other ↦ ground (
          arith,
          is,
          other,
          l.listed,
          holds-include mine signature signatures,
          adds (has_signature signature),
        )
        | inl same ↦
            (let at : key_of action ≡ key = ground (arith, is, same, proper) in
              let none_yet : count (has_key key) before ≡ 0 =
                subst (λ k. count (has_key k) before ≡ 0) at new in
              ground (
                arith,
                is,
                same,
                l.listed,
                l.own,
                none_yet,
                fewer_signed before,
                holds-include mine signature signatures,
                adds (has_signature signature),
              ))
      ]
    ];
    own = ground (arith, proper, l.own, adds misuses);
  }

  pub forgotten-Lists :
      (action : Action P) (before after : List (Action P)) (signatures : List String)
      → Adds action after before
      → Lists before signatures
      → Lists after (without_signature action.signature signatures)
  unfolding Adds
  forgotten-Lists action before after signatures adds l = record {
    listed = elim (Option-cases action.signature) [
      | inl unsigned ↦ ground (arith, unsigned, l.listed, adds (has_signature signature))
      | inr (mine, is) ↦ ground (
        arith,
        is,
        l.listed,
        holds-exclude mine signature signatures,
        adds (has_signature signature),
      )
    ];
    own = ground (arith, l.own, adds misuses);
  }
