-- ===== src/Merge.antt =====
-- The three-way merge of a text: the hunks of each side, the regions that they form, and the session
-- that starts from them.
pub mod Hunks
pub mod Anchored
pub mod Regions
pub mod Build
pub mod Plans
pub mod Whole
pub mod Clean
