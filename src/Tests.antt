-- ===== src/Tests.antt =====
-- Runs at concrete data, and the theorems applied there.
pub mod Sample
pub mod Wire
pub mod Hubs
pub mod Vault
pub mod Shares
pub mod Rooms
pub mod Merges
pub mod Histories
