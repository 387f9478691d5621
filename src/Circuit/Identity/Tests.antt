-- ===== src/Circuit/Identity/Tests.antt =====
-- Attestor 8 attests account 5, and attestor 9 revokes it.
use arxium.Prelude.{
  ◌≡◌, refl, true, false, none, some, List, [], ◌∷◌, ◌==◌, ◌||◌, number_key, if◌then◌else◌, ok,
  unwrap_or,
}
use arxium.Prelude.Map.{get, insert, commit}
use arxium.Prelude.Sets.{count}
use arxium.Primitives.State.{AccountEntry, ClaimTopic}
use arxium.Primitives.Attestor.{AttestorRecord}
use arxium.Circuit.View.{View, Reads, read_account}
use arxium.Circuit.Ledger.{Accounts}
use arxium.Circuit.Sample.{view_of, holding}
use arxium.Circuit.Identity.{
  is_attested, unique_from, require_attestor, registered, apply_grant_attestation,
  apply_revoke_attestation,
}
use arxium.Circuit.Identity.Attested.{is_topic, is_attested-apply_grant_attestation}

abbrev ledger : Accounts
ledger = (5, holding 10 0) ∷ []

abbrev bank : AttestorRecord
bank = registered "Arxium Bank" (1 ∷ 2 ∷ []) 2 0

abbrev with_attestors : Accounts → View
with_attestors accounts = record (view_of accounts) {
  attestor_record = λ a. ok (if a == 8 || a == 9 then some bank else none);
}

with_attestors-Reads : (accounts : Accounts) → Reads (with_attestors accounts) accounts
with_attestors-Reads accounts = record { at = λ a. refl }

abbrev topics : List ClaimTopic
topics = ClaimTopic.kyc ∷ ClaimTopic.aml ∷ ClaimTopic.kyc ∷ []

abbrev attested : AccountEntry
attested = record (holding 10 0) {
  identity_hash = some "hash";
  attested_by = some 8;
  attested_at = some 3;
  claims = ClaimTopic.kyc ∷ ClaimTopic.aml ∷ [];
}

abbrev after_grant : Accounts
after_grant = (5, attested) ∷ []

abbrev after_revocation : Accounts
after_revocation = (5, record (holding 10 0) { attested_by = some 8 }) ∷ []

grant_runs :
    apply_grant_attestation (with_attestors ledger) 8 5 "hash" topics none 3 ≡ ok after_grant
unfolding apply_grant_attestation require_attestor read_account unwrap_or get insert unique_from
grant_runs = refl

revoke_runs : apply_revoke_attestation (with_attestors after_grant) 9 5 ≡ ok after_revocation
unfolding apply_revoke_attestation require_attestor get insert
revoke_runs = refl

is_attested-apply_grant_attestation_example :
    (is_attested (with_attestors after_grant) 5 ≡ ok true)
    × ((entry : AccountEntry) × ((with_attestors after_grant).account 5 ≡ ok (some entry))
        × (count (is_topic ClaimTopic.kyc) entry.claims ≡ 1))
    × (is_attested (with_attestors after_revocation) 5 ≡ ok false)
unfolding commit insert
is_attested-apply_grant_attestation_example =
    is_attested-apply_grant_attestation (with_attestors ledger) (with_attestors after_grant)
      (with_attestors after_revocation) ledger after_grant after_revocation 8 9 5 "hash" topics none
      3 (some bank) ClaimTopic.kyc grant_runs (with_attestors-Reads after_grant) refl revoke_runs
      (with_attestors-Reads after_revocation)
