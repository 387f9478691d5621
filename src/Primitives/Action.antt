-- ===== src/Primitives/Action.antt =====
-- core/primitives/src/action.rs: the envelope of an action, and how its signature fails.
use arxium.Prelude.{ℕ, String, Option}
use arxium.Primitives.Address.{Address}

pub record Action {ℓ} (P : Type ℓ) : Type ℓ where
  pub sender : Address
  pub nonce : ℕ
  pub signature : Option String
  pub payload : P

-- The payload of `bad_pubkey`, another crate's error, is left out.
pub data SignatureError : Type 0 where
  missing : SignatureError
  invalid_hex : SignatureError
  wrong_length : ℕ → SignatureError
  bad_pubkey : SignatureError
  invalid : SignatureError
  bad_multisig : String → SignatureError
