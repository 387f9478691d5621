-- ===== src/Circuit/Staking/Unbond/Index.antt =====
-- The index of what unlocks at a height.
use arxium.Prelude.{
  ℕ, ◌≡◌, refl, true, false, ◌||◌, some, List, [], ◌∷◌, ◌++◌, arith, ◌==◌, number_key, pair_key,
  same_pair_iff, ok, unwrap_or, Bool-cases, inl, inr,
}
use arxium.Primitives.Address.{Address}
use arxium.Circuit.View.{View}
use arxium.Circuit.Updates.{put_unbonding_due}
use arxium.Circuit.Staking.Unbond.{contains, index_unbonding}

-- No pair is listed twice, so that no unbonding is released twice.
abbrev IsDistinct : List (Address × Address) → Type 0
IsDistinct [] = Unit
IsDistinct (p ∷ ps) = (contains p ps ≡ false) × IsDistinct ps

contains-append :
    (p q : Address × Address) (ps : List (Address × Address))
    → contains p (ps ++ q ∷ []) ≡ (contains p ps || q == p)
contains-append p q [] = ground arith
contains-append p q (r ∷ ps) = ground (arith, contains-append p q ps)

IsDistinct-append :
    (q : Address × Address) (ps : List (Address × Address))
    → contains q ps ≡ false
    → IsDistinct ps
    → IsDistinct (ps ++ q ∷ [])
IsDistinct-append q [] fresh h = (refl, tt)
IsDistinct-append q (p ∷ ps) fresh h =
    ground
      (arith, contains-append p q ps, same_pair_iff p q, same_pair_iff q p, IsDistinct-append q ps)

-- Indexing a pair writes one row for its height, which lists the pair, still lists every pair that
-- was listed, and lists none twice if none was listed twice before.
index_unbonding-lists :
    (view : View) (unlock : ℕ) (master validator : Address) (old : List (Address × Address))
    (listed : Address × Address)
    → view.unbonding_due unlock ≡ ok (some old)
    → IsDistinct old
    → contains listed old ≡ true
    → (due : List (Address × Address)) × (index_unbonding view unlock master validator
        ≡ ok (put_unbonding_due unlock due ∷ []))
      × (contains (master, validator) due ≡ true)
      × (contains listed due ≡ true)
      × IsDistinct due
unfolding index_unbonding unwrap_or
index_unbonding-lists view unlock master validator old listed read distinct was =
    elim (Bool-cases (contains (master, validator) old)) [
      | inl there ↦ (old, ground (arith, read), there, was, distinct)
      | inr fresh ↦ (
        old ++ (master, validator) ∷ [],
        ground (arith, read),
        ground (
          arith,
          contains-append (master, validator) (master, validator) old,
          same_pair_iff (master, validator) (master, validator),
        ),
        ground (arith, contains-append listed (master, validator) old),
        IsDistinct-append (master, validator) old fresh distinct,
      )
    ]
