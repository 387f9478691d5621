-- ===== src/Mempool/Admission.antt =====
-- core/mempool/src/lib.rs: `validate_action`, what an action passes before it is pushed. The
-- database's rows are arguments; so is the check of the signature, another package's: it returns
-- the error that it found.
use arxium.Prelude.{
  ℕ, ◌-◌, Option, none, some, ltb, Result, map_err, reject_if, ◌>>=◌, ◌>>◌, number_key,
}
use arxium.Primitives.Address.{Address}
use arxium.Primitives.Policy.{ProgrammableAccount}
use arxium.Primitives.State.{AccountEntry}
use arxium.Primitives.Action.{Action}
use arxium.Circuit.View.{StorageError, Read}

pub data AdmissionError (SignatureError : Type 0) : Type 0 where
  bad_signature : SignatureError → AdmissionError SignatureError
  stale_nonce : Address → ℕ → ℕ → AdmissionError SignatureError
  nonce_too_far_ahead : Address → ℕ → ℕ → ℕ → AdmissionError SignatureError
  storage : StorageError → AdmissionError SignatureError

abbrev pub programmable_of : Option AccountEntry → Option ProgrammableAccount
programmable_of none = none
programmable_of (some entry) = entry.programmable

abbrev pub nonce_of : Option AccountEntry → ℕ
nonce_of none = 0
nonce_of (some entry) = entry.nonce

module _ {ℓ} {P : Type ℓ} {Hash SignatureError : Type 0} (get_account : Address → Read AccountEntry)
    (genesis_hash : Result StorageError Hash)
    (verify : Action P → Option ProgrammableAccount → Hash → Result SignatureError (Unit {0})) where
  unfoldable pub validate_action : Action P → ℕ → Result (AdmissionError SignatureError) (Unit {0})
  validate_action action max_nonce_gap = do
    account ← map_err AdmissionError.storage (get_account action.sender)
    hash ← map_err AdmissionError.storage genesis_hash
    map_err AdmissionError.bad_signature (verify action (programmable_of account) hash)
    let current_nonce = nonce_of account
    reject_if (ltb action.nonce current_nonce)
        (AdmissionError.stale_nonce action.sender action.nonce current_nonce)
    reject_if (ltb max_nonce_gap (action.nonce - current_nonce))
        (AdmissionError.nonce_too_far_ahead action.sender action.nonce current_nonce max_nonce_gap)
