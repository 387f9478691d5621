-- ===== src/Runtime/Epoch/Rows.antt =====
-- What the boundary reads of the candidates, and the status rows that it writes for a set.
use arxium.Prelude.{
  ℕ, ◌≤◌, ◌≡◌, ◌↔◌, inl, inr, refl, ap, ◌∙◌, Bool, true, Option, none, some, List, [], ◌∷◌, arith,
  ◌==◌, number_key, any, ok, is_some, Bool-cases, Result-cases,
}
use arxium.Prelude.Map.{Map, get}
use arxium.Prelude.Sets.{count}
use arxium.Primitives.Address.{Address}
use arxium.Primitives.Attestor.{ascending}
use arxium.Primitives.Params.{VotingPower, ValidatorStatus}
use arxium.Circuit.View.{View}
use arxium.Runtime.Epoch.{place_new, collect_set, read_statuses, next_status, status_rows}

abbrev pub is_address : Address → Address → Bool
is_address a b = b == a

place_new-ascending :
    (a : Address) (bs : List Address) → ascending bs ≡ true → ascending (place_new a bs) ≡ true
place_new-ascending a [] h = refl
place_new-ascending a (b ∷ []) h = ground arith
place_new-ascending a (b ∷ c ∷ bs) h = ground (arith, h, place_new-ascending a (c ∷ bs))

pub collect_set-ascending : (xs : List Address) → ascending (collect_set xs) ≡ true
unfolding collect_set
collect_set-ascending [] = refl
collect_set-ascending (x ∷ xs) = place_new-ascending x (collect_set xs) (collect_set-ascending xs)

none_below :
    (a b : Address) (bs : List Address)
    → ascending (b ∷ bs) ≡ true
    → a ≤ b
    → count (is_address a) bs ≡ 0
unfolding count
none_below a b [] h le = refl
none_below a b (c ∷ bs) h le = ground (arith, h, le, none_below a c bs)

pub ascending-once :
    (a : Address) (bs : List Address) → ascending bs ≡ true → count (is_address a) bs ≤ 1
unfolding count
ascending-once a [] h = omega arith
ascending-once a (b ∷ []) h = ground arith
ascending-once a (b ∷ c ∷ bs) h =
    ground (arith, h, ascending-once a (c ∷ bs), none_below a b (c ∷ bs))

place_new-has :
    (a b : Address) (bs : List Address)
    → any (is_address a) (b ∷ bs) ≡ true
    → any (is_address a) (place_new b bs) ≡ true
place_new-has a b [] h = h
place_new-has a b (c ∷ bs) h = ground (arith, h, place_new-has a b bs)

pub collect_set-has :
    (a : Address) (xs : List Address)
    → any (is_address a) xs ≡ true
    → any (is_address a) (collect_set xs) ≡ true
unfolding collect_set
collect_set-has a [] h = h
collect_set-has a (x ∷ xs) h =
    place_new-has a x (collect_set xs) (ground (arith, h, collect_set-has a xs))

-- A validator's row after the updates: the written one, or the one that was there.
abbrev pub status_after : Option (Option ValidatorStatus) → ValidatorStatus → Option ValidatorStatus
status_after none status = some status
status_after (some next) status = next

abbrev pub row_of : Address → Address × ValidatorStatus → Bool
row_of a row = row.0 == a

no_row :
    (set : Map Address VotingPower) (next_epoch : ℕ) (a : Address)
    (statuses : Map Address ValidatorStatus)
    → count (row_of a) statuses ≡ 0
    → get a (status_rows set next_epoch statuses) ≡ none
unfolding status_rows count get
no_row set next_epoch a [] h = refl
no_row set next_epoch a ((b, status) ∷ statuses) h =
    ground (arith, h, no_row set next_epoch a statuses)

pub Active : Map Address VotingPower → Address → Option ValidatorStatus → Type 0
Active set a after = (after ≡ some ValidatorStatus.active) ↔ (is_some (get a set) ≡ true)

pub rows-Active :
    (set : Map Address VotingPower) (next_epoch : ℕ) (a : Address) (status : ValidatorStatus)
    (statuses : Map Address ValidatorStatus)
    → count (row_of a) statuses ≤ 1
    → get a statuses ≡ some status
    → Active set a (status_after (get a (status_rows set next_epoch statuses)) status)
unfolding Active status_rows next_status count get
rows-Active set next_epoch a status [] once there = absurd (ground (arith, there))
rows-Active set next_epoch a status ((b, s) ∷ statuses) once there = elim (Bool-cases (b == a)) [
  | inl same ↦ ground (arith, same, there, once, no_row set next_epoch a statuses)
  | inr other ↦ ground (
    arith,
    other,
    rows-Active set next_epoch a status statuses (ground (arith, other, once))
        (ground (arith, other, there)),
  )
]

pub read_statuses-once :
    (view : View) (a : Address) (bs : List Address) (statuses : Map Address ValidatorStatus)
    → read_statuses view bs ≡ ok statuses
    → count (row_of a) statuses ≤ count (is_address a) bs
unfolding read_statuses count
read_statuses-once view a [] statuses h = ground (arith, h)
read_statuses-once view a (b ∷ bs) statuses h = elim (Result-cases (view.validator_status b)) [
  | inl (found, is') ↦ elim (Result-cases (read_statuses view bs)) [
    | inl (rest, r) ↦ ground (arith, h, is', r, read_statuses-once view a bs rest r)
    | inr (inl (e, r)) ↦ absurd (ground (arith, h, is', r))
    | inr (inr r) ↦ absurd (ground (arith, h, is', r))
  ]
  | inr (inl (e, is')) ↦ absurd (ground (arith, h, is'))
  | inr (inr is') ↦ absurd (ground (arith, h, is'))
]

pub read_statuses-get :
    (view : View) (a : Address) (status : ValidatorStatus) (bs : List Address)
    (statuses : Map Address ValidatorStatus)
    → any (is_address a) bs ≡ true
    → view.validator_status a ≡ ok (some status)
    → read_statuses view bs ≡ ok statuses
    → get a statuses ≡ some status
unfolding read_statuses get
read_statuses-get view a status [] statuses has at h = absurd (ground (arith, has))
read_statuses-get view a status (b ∷ bs) statuses has at h =
    elim (Result-cases (view.validator_status b)) [
      | inl (found, is') ↦ elim (Result-cases (read_statuses view bs)) [
        | inl (rest, r) ↦ elim (Bool-cases (b == a)) [
          | inl same ↦
              (let eq : b ≡ a = ground (arith, same) in
                let at_b = ap view.validator_status eq ∙ at in
                ground (arith, h, is', r, same, at_b))
          | inr other ↦ ground (
            arith,
            h,
            is',
            r,
            other,
            has,
            read_statuses-get view a status bs rest (ground (arith, has, other)) at r,
          )
        ]
        | inr (inl (e, r)) ↦ absurd (ground (arith, h, is', r))
        | inr (inr r) ↦ absurd (ground (arith, h, is', r))
      ]
      | inr (inl (e, is')) ↦ absurd (ground (arith, h, is'))
      | inr (inr is') ↦ absurd (ground (arith, h, is'))
    ]
