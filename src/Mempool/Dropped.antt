-- ===== src/Mempool/Dropped.antt =====
-- The ring of dropped actions.
use arxium.Prelude.{
  ℕ, ◌≤◌, ◌≡◌, refl, ap, ◌∙◌, String, not, none, some, List, [], ◌∷◌, ◌++◌, arith, ◌==◌, number_key,
  string_key, length, length-append, retain, ok,
}
use arxium.Primitives.Action.{Action}
use arxium.Mempool.Pool.{
  Mempool, dropped_ring, no_longer_dropped, push, note, note_all, note_dropped, newest_reason,
  dropped_reason,
}
use arxium.Mempool.Valid.{push-Pushed}

note-bounded :
    (entry : String × String) (ring : List (String × String))
    → length ring ≤ dropped_ring
    → length (note entry ring) ≤ dropped_ring
unfolding note
note-bounded entry [] h = omega arith
note-bounded entry (oldest ∷ ring) h =
    ground (arith, h, length-append ring (entry ∷ []), length-append (oldest ∷ ring) (entry ∷ []))

note_all-bounded :
    (entries ring : List (String × String))
    → length ring ≤ dropped_ring
    → length (note_all entries ring) ≤ dropped_ring
unfolding note_all
note_all-bounded [] ring h = h
note_all-bounded (entry ∷ entries) ring h =
    note_all-bounded entries (note entry ring) (note-bounded entry ring h)

note_all-append :
    (xs ys ring : List (String × String))
    → note_all (xs ++ ys) ring ≡ note_all ys (note_all xs ring)
unfolding note_all
note_all-append [] ys ring = refl
note_all-append (x ∷ xs) ys ring = note_all-append xs ys (note x ring)

newest-last :
    (signature reason : String) (ring : List (String × String))
    → newest_reason signature (ring ++ (signature, reason) ∷ []) ≡ some reason
unfolding newest_reason
newest-last signature reason [] = ground (arith, string_key.same_iff signature signature)
newest-last signature reason (entry ∷ ring) = ground (arith, newest-last signature reason ring)

newest-note :
    (signature reason : String) (ring : List (String × String))
    → newest_reason signature (note (signature, reason) ring) ≡ some reason
unfolding note
newest-note signature reason [] = newest-last signature reason []
newest-note signature reason (oldest ∷ ring) =
    ground (arith, newest-last signature reason ring, newest-last signature reason (oldest ∷ ring))

newest-retain :
    (signature : String) (ring : List (String × String))
    → newest_reason signature (retain (λ entry. not (entry.0 == signature)) ring) ≡ none
unfolding newest_reason
newest-retain signature [] = refl
newest-retain signature (entry ∷ ring) = ground (arith, newest-retain signature ring)

module _ {ℓ} {P : Type ℓ} (encoded_size : Action P → ℕ) where
  -- The last reason noted for a signature is the one reported, however many came before, the ring
  -- never grows past its bound, and a push of the action that has the signature takes the report
  -- back.
  dropped_reason-note_dropped :
      (signature reason : String) (entries : List (String × String)) (m : Mempool P)
      (action : Action P) (later after : Mempool P)
      → length m.dropped ≤ dropped_ring
      → action.signature ≡ some signature
      → push encoded_size action later ≡ ok after
      → (dropped_reason signature (note_dropped (entries ++ (signature, reason) ∷ []) m)
          ≡ some reason)
        × (length (note_dropped (entries ++ (signature, reason) ∷ []) m).dropped ≤ dropped_ring)
        × (dropped_reason signature after ≡ none)
  unfolding note_all
  dropped_reason-note_dropped signature reason entries m action later after bounded signed h =
      let p = push-Pushed encoded_size action later after h in
      (
        ap (newest_reason signature) (note_all-append entries ((signature, reason) ∷ []) m.dropped)
            ∙ newest-note signature reason (note_all entries m.dropped),
        note_all-bounded (entries ++ (signature, reason) ∷ []) m.dropped bounded,
        ap (λ (x : Mempool P). dropped_reason signature x) p.written
            ∙ ap (λ s. newest_reason signature (no_longer_dropped s later.dropped)) signed
            ∙ newest-retain signature later.dropped,
      )
