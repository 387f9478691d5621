-- ===== src/Circuit/Identity.antt =====
-- circuits/identity/src/lib.rs: the registry of attestors and the attestations that they grant. The
-- two checks of zero-knowledge proofs are left out: they are calls of third-party packages.
pub mod Attested
mod Tests
use Prim.Native.String.{len}
use arxium.Prelude.{
  ℕ, String, Bool, true, false, not, ◌||◌, Option, none, some, List, [], ◌∷◌, ◌++◌, ltb, ◌==◌,
  number_key, string_key, if◌then◌else◌, any, Result, ok, err, map_err, reject_if, is_some, ◌>>=◌,
  ◌>>◌,
}
use arxium.Prelude.Word.{u64_bound, saturating_add}
use arxium.Prelude.Map.{insert}
use arxium.Primitives.Address.{Address}
use arxium.Primitives.State.{AccountEntry, ClaimTopic}
use arxium.Primitives.Attestor.{
  AttestorRecord, Keys, blocked, codes, is_upper, validate_attestor_name,
  validate_attestor_multisig, attestor_name_skeleton,
}
use arxium.Circuit.View.{View, StorageError, read_account}
use arxium.Circuit.Ledger.{Accounts}
use arxium.Circuit.Updates.{
  GovernanceUpdates, put_attestor_name, delete_attestor_name, put_attestor_record,
}

-- The errors of the two checks that are left out are left out too.
pub data IdentityError : Type 0 where
  storage : StorageError → IdentityError
  not_attestor already_attestor attestor_blocked : Address → IdentityError
  invalid_name name_taken invalid_multisig : String → IdentityError
  removal_pending : Address → IdentityError
  removal_cooldown : Address → ℕ → IdentityError
  invalid_jurisdiction : String → IdentityError
  account_not_found : Address → IdentityError

pub record AttestorRegistration : Type 0 where
  pub attestor : Address
  pub record' : AttestorRecord

unfoldable pub validate_jurisdiction_code : String → Result IdentityError (Unit {0})
validate_jurisdiction_code code =
    reject_if (not (len code == 2) || any (λ c. not (is_upper c)) (codes code))
      (IdentityError.invalid_jurisdiction code)

abbrev pub or_err {ℓ κ} : {E : Type ℓ} {A : Type κ} → Option A → E → Result E A
or_err none e = err e
or_err (some a) e = ok a

unfoldable pub require_attestor : View → Address → Result IdentityError AttestorRecord
require_attestor view who = do
  found ← map_err IdentityError.storage (view.attestor_record who)
  or_err found (IdentityError.not_attestor who)

-- An attestation counts while its attestor is registered; one that names no attestor counts.
unfoldable pub attested_entry : View → Option AccountEntry → Result StorageError Bool
attested_entry view none = ok false
attested_entry view (some entry) = elim entry.identity_hash [
  | none ↦ ok false
  | some hash ↦ elim entry.attested_by [
    | none ↦ ok true
    | some attestor ↦ view.attestor_record attestor >>= λ found. ok (is_some found)
  ]
]

unfoldable pub is_attested : View → Address → Result StorageError Bool
is_attested view address = do entry ← view.account address; attested_entry view entry

abbrev pub registered : String → List Address → ℕ → ℕ → AttestorRecord
registered name owners threshold height = record {
  name = name;
  registered_at = height;
  owners = owners;
  threshold = threshold;
  self_blocked = false;
  removal_pending = false;
  removal_cooldown_until = 0;
}

unfoldable pub apply_register_attestor :
    Keys
    → View
    → Address
    → String
    → List Address
    → ℕ
    → ℕ
    → Result IdentityError (AttestorRegistration × GovernanceUpdates)
apply_register_attestor keys view attestor name owners threshold height = do
  map_err IdentityError.invalid_name (validate_attestor_name name)
  map_err IdentityError.invalid_multisig (validate_attestor_multisig keys attestor owners threshold)
  existing ← map_err IdentityError.storage (view.attestor_record attestor)
  reject_if (is_some existing) (IdentityError.already_attestor attestor)
  named ← map_err IdentityError.storage (view.attestor_name (attestor_name_skeleton name))
  reject_if (is_some named) (IdentityError.name_taken name)
  ok (
    record { attestor = attestor; record' = registered name owners threshold height },
    put_attestor_name (attestor_name_skeleton name) attestor ∷ [],
  )

unfoldable pub apply_deregister_attestor :
    View → Address → Result IdentityError (Address × GovernanceUpdates)
apply_deregister_attestor view attestor = do
  record' ← require_attestor view attestor
  ok (attestor, delete_attestor_name (attestor_name_skeleton record'.name) ∷ [])

unfoldable pub apply_set_self_blocked :
    View → Address → Bool → Result IdentityError GovernanceUpdates
apply_set_self_blocked view attestor block = do
  record' ← require_attestor view attestor
  ok (put_attestor_record attestor (record record' { self_blocked = block }) ∷ [])

unfoldable pub apply_open_removal : View → Address → ℕ → Result IdentityError GovernanceUpdates
apply_open_removal view attestor height = do
  record' ← require_attestor view attestor
  reject_if record'.removal_pending (IdentityError.removal_pending attestor)
  reject_if (ltb height record'.removal_cooldown_until)
      (IdentityError.removal_cooldown attestor record'.removal_cooldown_until)
  ok (put_attestor_record attestor (record record' { removal_pending = true }) ∷ [])

abbrev pub cooled : Address → ℕ → ℕ → Option AttestorRecord → GovernanceUpdates
cooled attestor height cooldown none = []
cooled attestor height cooldown (some record') =
    put_attestor_record attestor (record record' {
      removal_pending = false;
      removal_cooldown_until = saturating_add u64_bound height cooldown;
    })
    ∷ []

unfoldable pub apply_close_failed_removal :
    View → Address → ℕ → ℕ → Result IdentityError GovernanceUpdates
apply_close_failed_removal view attestor height cooldown = do
  found ← map_err IdentityError.storage (view.attestor_record attestor)
  ok (cooled attestor height cooldown found)

abbrev pub topic_number : ClaimTopic → ℕ
topic_number ClaimTopic.kyc = 0
topic_number ClaimTopic.aml = 1
topic_number ClaimTopic.accredited = 2
topic_number ClaimTopic.jurisdiction = 3

-- `unique.contains(topic)`
abbrev pub has_topic : List ClaimTopic → ClaimTopic → Bool
has_topic topics topic = any (λ t. topic_number t == topic_number topic) topics

unfoldable pub unique_from : List ClaimTopic → List ClaimTopic → List ClaimTopic
unique_from unique [] = unique
unique_from unique (topic ∷ topics) =
    unique_from (if has_topic unique topic then unique else unique ++ topic ∷ []) topics

abbrev pub valid_jurisdiction : Option String → Result IdentityError (Unit {0})
valid_jurisdiction none = ok tt
valid_jurisdiction (some code) = validate_jurisdiction_code code

-- `entry.identity_hash.as_deref() == Some(hash)`
abbrev pub same_hash : Option String → String → Bool
same_hash none hash = false
same_hash (some old) hash = old == hash

unfoldable pub apply_grant_attestation :
    View
    → Address
    → Address
    → String
    → List ClaimTopic
    → Option String
    → ℕ
    → Result IdentityError Accounts
apply_grant_attestation view attestor subject hash topics jurisdiction height = do
  record' ← require_attestor view attestor
  reject_if (blocked record') (IdentityError.attestor_blocked attestor)
  valid_jurisdiction jurisdiction
  entry ← read_account IdentityError.storage view subject
  ok (
      insert subject
        (record entry {
          zk_identity_verified =
              if same_hash entry.identity_hash hash then entry.zk_identity_verified else false;
          identity_hash = some hash;
          attested_by = some attestor;
          attested_at = some height;
          claims = unique_from [] topics;
          jurisdiction = jurisdiction;
        })
        [])

unfoldable pub apply_revoke_attestation : View → Address → Address → Result IdentityError Accounts
apply_revoke_attestation view attestor subject = do
  record' ← require_attestor view attestor
  found ← map_err IdentityError.storage (view.account subject)
  entry ← or_err found (IdentityError.account_not_found subject)
  ok (
      insert subject
        (record entry {
          identity_hash = none;
          zk_identity_verified = false;
          attested_at = none;
          claims = [];
          jurisdiction = none;
        })
        [])
