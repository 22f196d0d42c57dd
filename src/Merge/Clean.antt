-- ===== src/Merge/Clean.antt =====
-- A merge of a text that one side left as it was.
pub mod Runs
pub mod Kept
pub mod Unchanged
