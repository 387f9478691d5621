-- ===== src/Circuit/Identity/Attested.antt =====
-- Grants and revocations of attestations against what later reads say.
use arxium.Prelude.{
  ℕ, ◌≡◌, inl, inr, refl, ap, ◌∙◌, String, Bool, false, ◌||◌, Option, none, some, List, [], ◌∷◌,
  ◌++◌, arith, ◌==◌, number_key, string_key, if◌then◌else◌, ok, is_some, Bool-cases, Result-cases,
}
use arxium.Prelude.Map.{get, insert, commit, get-commit-insert}
use arxium.Prelude.Sets.{count, count-append}
use arxium.Primitives.Address.{Address}
use arxium.Primitives.State.{AccountEntry, ClaimTopic}
use arxium.Primitives.Attestor.{AttestorRecord}
use arxium.Circuit.View.{View, Reads, read_account}
use arxium.Circuit.Ledger.{Accounts}
use arxium.Circuit.Identity.{
  IdentityError, require_attestor, attested_entry, is_attested, topic_number, has_topic,
  unique_from, same_hash, apply_grant_attestation, apply_revoke_attestation,
}

abbrev pub is_topic : ClaimTopic → ClaimTopic → Bool
is_topic topic other = topic_number other == topic_number topic

absent_counts :
    (topic : ClaimTopic) (topics : List ClaimTopic)
    → has_topic topics topic ≡ false
    → count (is_topic topic) topics ≡ 0
unfolding count
absent_counts topic [] h = refl
absent_counts topic (t ∷ topics) h = ground (arith, h, absent_counts topic topics)

has_topic-append :
    (topic t : ClaimTopic) (topics : List ClaimTopic)
    → has_topic (topics ++ t ∷ []) topic ≡ (has_topic topics topic || is_topic topic t)
has_topic-append topic t [] = ground arith
has_topic-append topic t (u ∷ topics) = ground (arith, has_topic-append topic t topics)

unique_from-once :
    (topic : ClaimTopic) (unique topics : List ClaimTopic)
    → count (is_topic topic) (unique_from unique topics) ≡ (
        if has_topic unique topic
        then count (is_topic topic) unique
        else if has_topic topics topic
        then 1
        else 0)
unfolding unique_from count
unique_from-once topic unique [] = ground (arith, absent_counts topic unique)
unique_from-once topic unique (t ∷ topics) = elim (Bool-cases (has_topic unique t)) [
  | inl there ↦ ground (arith, there, unique_from-once topic unique topics)
  | inr new ↦ ground (
    arith,
    new,
    unique_from-once topic (unique ++ t ∷ []) topics,
    has_topic-append topic t unique,
    count-append (is_topic topic) unique (t ∷ []),
    absent_counts topic unique,
  )
]

written_row :
    (later : View) (accounts updates : Accounts) (subject : Address) (entry : AccountEntry)
    → updates ≡ insert subject entry []
    → Reads later (commit updates accounts)
    → later.account subject ≡ ok (some entry)
written_row later accounts updates subject entry rows reads = ground (
  arith,
  reads.at subject,
  ap (λ u. get subject (commit u accounts)) rows,
  get-commit-insert subject subject entry [] accounts,
)

revoked_unattested :
    (view later : View) (accounts updates : Accounts) (attestor subject : Address)
    → apply_revoke_attestation view attestor subject ≡ ok updates
    → Reads later (commit updates accounts)
    → is_attested later subject ≡ ok false
unfolding apply_revoke_attestation is_attested attested_entry
revoked_unattested view later accounts updates attestor subject h reads =
    elim (Result-cases (require_attestor view attestor)) [
      | inr (inl (e, r)) ↦ absurd (ground (arith, h, r))
      | inr (inr r) ↦ absurd (ground (arith, h, r))
      | inl (row, r) ↦ elim (Result-cases (view.account subject)) [
        | inr (inl (e, k)) ↦ absurd (ground (arith, h, r, k))
        | inr (inr k) ↦ absurd (ground (arith, h, r, k))
        | inl (none, k) ↦ absurd (ground (arith, h, r, k))
        | inl (some entry, k) ↦
            (let written = record entry {
              identity_hash = none;
              zk_identity_verified = false;
              attested_at = none;
              claims = [];
              jurisdiction = none;
            } in
              let rows : updates ≡ insert subject written [] = ground (arith, h, r, k) in
              ground (arith, written_row later accounts updates subject written rows reads))
      ]
    ]

module _ (view later : View) (accounts updates : Accounts) (attestor subject : Address)
    (hash : String) (topics : List ClaimTopic) (jurisdiction : Option String) (height : ℕ)
    (granted : apply_grant_attestation view attestor subject hash topics jurisdiction height
      ≡ ok updates)
    (reads : Reads later (commit updates accounts)) where
  granted_entry :
      (entry : AccountEntry) × (later.account subject ≡ ok (some entry))
      × (entry.identity_hash ≡ some hash)
      × (entry.attested_by ≡ some attestor)
      × (entry.claims ≡ unique_from [] topics)
  unfolding apply_grant_attestation
  granted_entry = elim (Result-cases (require_attestor view attestor)) [
    | inr (inl (e, r)) ↦ absurd (ground (arith, granted, r))
    | inr (inr r) ↦ absurd (ground (arith, granted, r))
    | inl (row, r) ↦ elim (Result-cases (read_account IdentityError.storage view subject)) [
      | inr (inl (e, k)) ↦ absurd (ground (arith, granted, r, k))
      | inr (inr k) ↦ absurd (ground (arith, granted, r, k))
      | inl (entry, k) ↦
          (let written = record entry {
            zk_identity_verified =
                if same_hash entry.identity_hash hash then entry.zk_identity_verified else false;
            identity_hash = some hash;
            attested_by = some attestor;
            attested_at = some height;
            claims = unique_from [] topics;
            jurisdiction = jurisdiction;
          } in
            let rows : updates ≡ insert subject written [] = ground (arith, granted, r, k) in
            (
              written,
              written_row later accounts updates subject written rows reads,
              refl,
              refl,
              refl,
            ))
    ]
  ]

-- After a grant is committed, the subject is attested as long as its attestor is registered, and
-- its claims hold each topic that was granted once and no other. After a registered attestor's
-- revocation is committed on top, it is not attested.
pub is_attested-apply_grant_attestation :
    (view later last : View) (accounts updates revoked : Accounts)
    (attestor other subject : Address) (hash : String) (topics : List ClaimTopic)
    (jurisdiction : Option String) (height : ℕ) (found : Option AttestorRecord) (topic : ClaimTopic)
    → apply_grant_attestation view attestor subject hash topics jurisdiction height ≡ ok updates
    → Reads later (commit updates accounts)
    → later.attestor_record attestor ≡ ok found
    → apply_revoke_attestation later other subject ≡ ok revoked
    → Reads last (commit revoked (commit updates accounts))
    → (is_attested later subject ≡ ok (is_some found))
      × ((entry : AccountEntry) × (later.account subject ≡ ok (some entry))
          × (count (is_topic topic) entry.claims ≡ (if has_topic topics topic then 1 else 0)))
      × (is_attested last subject ≡ ok false)
unfolding is_attested attested_entry count
is_attested-apply_grant_attestation view later last accounts updates revoked attestor other subject
      hash topics jurisdiction height found topic granted reads registered revoke reads_last =
    let (entry, at, hashed, by, claims) =
      granted_entry view later accounts updates attestor subject hash topics jurisdiction height
        granted reads in
    (
      ground (arith, at, hashed, by, registered),
      (entry, at, ap (count (is_topic topic)) claims ∙ unique_from-once topic [] topics),
      revoked_unattested later last (commit updates accounts) revoked other subject revoke
          reads_last,
    )
