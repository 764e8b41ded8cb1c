-- ===== src/State.antt =====
-- state/: the store, the wallets that it holds, and the helpers over them.
pub mod Types
pub mod Dcw
pub mod Record
pub mod Store
pub mod Identifiers
pub mod Participant
pub mod Keyed
pub mod Recovery
pub mod Worth
