-- ===== src/Primitives/Address.antt =====
-- core/primitives/src/address.rs and asset_ref.rs. Addresses, asset references and public keys are
-- compared and ordered and otherwise opaque to the code that is modelled, so each is a number that
-- stands for its place in the order.
use arxium.Prelude.{ℕ}

abbrev pub Address : Type 0
Address = ℕ

abbrev pub AssetRef : Type 0
AssetRef = ℕ

-- a 32-byte ed25519 key, as the number that its bytes spell
abbrev pub PublicKey : Type 0
PublicKey = ℕ
