-- ===== src/Spaces.antt =====
-- Shared folders: what a space covers, the records of the shares, and how the vault is divided among
-- them.
pub mod Partition
pub mod Paths
pub mod Record
pub mod Space
