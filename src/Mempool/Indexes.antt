-- ===== src/Mempool/Indexes.antt =====
-- The indexes of the mempool against its queue: what each says of the actions that are queued.
use arxium.Prelude.{
  ℕ, zero, suc, ◌+◌, ◌≤◌, ◌≡◌, inl, inr, sym, ap, ◌∙◌, String, Bool, true, false, Option, none,
  some, List, [], ◌∷◌, ◌++◌, arith, ◌==◌, number_key, string_key, pair_key, if◌then◌else◌, ok,
  unwrap_or, Bool-cases, Option-cases,
}
use arxium.Prelude.Map.{Map, get, insert, get-insert}
use arxium.Prelude.Sets.{
  holds, include, exclude, remove, holds-include, holds-exclude, get-remove, count, count-append,
}
use arxium.Primitives.Address.{Address}
use arxium.Primitives.Action.{Action}
use arxium.Mempool.Pool.{key_of, with_signature, without_signature, take_slot, release_slot}

abbrev pub tick : Bool → ℕ
tick b = if b then 1 else 0

-- A count as a row of `per_sender`: no row for 0.
abbrev pub slot : ℕ → Option ℕ
slot zero = none
slot (suc n) = some (suc n)

abbrev pub signed_as : String → Option String → Bool
signed_as signature none = false
signed_as signature (some other) = other == signature

module _ {ℓ} {P : Type ℓ} where
  abbrev pub has_key : Address × ℕ → Action P → Bool
  has_key key action = key_of action == key

  abbrev pub sent_by : Address → Action P → Bool
  sent_by sender action = action.sender == sender

  abbrev pub has_signature : String → Action P → Bool
  has_signature signature action = signed_as signature action.signature

  -- No two of the actions have a sender and nonce in common, and the sets know which pairs are
  -- there; the rows count each sender's actions; a signature in the set is that of an action.
  pub record Agrees (actions : List (Action P)) (seen : List (Address × ℕ))
      (signatures : List String) (per_sender : Map Address ℕ) : Type ℓ where
    pub seen_once : (key : Address × ℕ) → tick (holds key seen) ≡ count (has_key key) actions
    pub slots : (sender : Address) → get sender per_sender ≡ slot (count (sent_by sender) actions)
    pub signed :
        (signature : String)
        → holds signature signatures ≡ true
        → 1 ≤ count (has_signature signature) actions

  -- The actions of `after` are those of `before` and one more, at any place.
  unfoldable pub Adds : Action P → List (Action P) → List (Action P) → Type ℓ
  Adds action before after =
      (p : Action P → Bool) → count p after ≡ tick (p action) + count p before

  pub front-Adds :
      (action : Action P) (actions : List (Action P)) → Adds action actions (action ∷ actions)
  unfolding Adds count
  front-Adds action actions p = ground arith

  pub middle-Adds :
      (action : Action P) (before after : List (Action P))
      → Adds action (before ++ after) (before ++ action ∷ after)
  unfolding Adds count
  middle-Adds action before after p =
      ground (arith, count-append p before (action ∷ after), count-append p before after)

  pub end-Adds :
      (action : Action P) (actions : List (Action P)) → Adds action actions (actions ++ action ∷ [])
  unfolding Adds count
  end-Adds action actions p = ground (arith, count-append p actions (action ∷ []))

  pub admitted-Agrees :
      (action : Action P) (before after : List (Action P)) (seen : List (Address × ℕ))
      (signatures : List String) (per_sender : Map Address ℕ)
      → Adds action before after
      → holds (key_of action) seen ≡ false
      → Agrees before seen signatures per_sender
      → Agrees after
          (include (key_of action) seen)
          (with_signature action.signature signatures)
          (take_slot action.sender per_sender)
  unfolding Adds unwrap_or
  admitted-Agrees action before after seen signatures per_sender adds new a = record {
    seen_once = λ key. elim (Bool-cases (key_of action == key)) [
      | inl same ↦
          (let new_key =
              ap (λ k. holds k seen) (sym ((pair_key.same_iff (key_of action) key).0 same)) ∙ new in
            ground (
              arith,
              holds-include (key_of action) key seen,
              same,
              new_key,
              a.seen_once key,
              adds (has_key key),
            ))
      | inr other ↦ ground (
        arith,
        holds-include (key_of action) key seen,
        other,
        a.seen_once key,
        adds (has_key key),
      )
    ];
    slots = λ sender. ground (
      arith,
      get-insert action.sender sender (unwrap_or (get action.sender per_sender) 0 + 1) per_sender,
      a.slots sender,
      a.slots action.sender,
      adds (sent_by sender),
    );
    signed = λ signature h. elim (Option-cases action.signature) [
      | inl unsigned ↦
          ground (arith, unsigned, h, a.signed signature, adds (has_signature signature))
      | inr (own, is) ↦ ground (
        arith,
        is,
        h,
        holds-include own signature signatures,
        a.signed signature,
        adds (has_signature signature),
      )
    ];
  }

  pub forgotten-Agrees :
      (action : Action P) (before after : List (Action P)) (seen : List (Address × ℕ))
      (signatures : List String) (per_sender : Map Address ℕ)
      → Adds action after before
      → Agrees before seen signatures per_sender
      → (rows : Map Address ℕ) × (release_slot action.sender per_sender ≡ ok rows)
        × Agrees after
            (exclude (key_of action) seen)
            (without_signature action.signature signatures)
            rows
  unfolding Adds release_slot
  forgotten-Agrees action before after seen signatures per_sender adds a =
      let left = count (sent_by action.sender) after in
      let rows =
        if left == 0
        then remove action.sender per_sender
        else insert action.sender left per_sender in
      (
        rows,
        ground (arith, a.slots action.sender, adds (sent_by action.sender)),
        record {
          seen_once = λ key.
              ground (
                arith,
                holds-exclude (key_of action) key seen,
                a.seen_once key,
                adds (has_key key),
              );
          slots = λ sender. ground (
            arith,
            get-remove action.sender sender per_sender,
            get-insert action.sender sender left per_sender,
            a.slots sender,
            adds (sent_by sender),
          );
          signed = λ signature h. elim (Option-cases action.signature) [
            | inl unsigned ↦
                ground (arith, unsigned, h, a.signed signature, adds (has_signature signature))
            | inr (own, is) ↦ ground (
              arith,
              is,
              h,
              holds-exclude own signature signatures,
              a.signed signature,
              adds (has_signature signature),
            )
          ];
        },
      )
