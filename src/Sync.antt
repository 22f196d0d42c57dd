-- ===== src/Sync.antt =====
-- packages/plugin/src/sync: how the three views of a vault are compared.
pub mod Types
pub mod Pairing
pub mod Moves
pub mod Diff
pub mod Baseline
pub mod History
