-- ===== src/Primitives.antt =====
-- core/primitives: the data that circuits, consensus and the node share.
pub mod Address
pub mod Policy
pub mod State
pub mod Params
pub mod Governance
pub mod ValidatorSet
pub mod Action
pub mod Attestor
pub mod PolicyRules
