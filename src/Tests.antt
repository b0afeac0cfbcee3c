-- ===== src/Tests.antt =====
-- The theorems at concrete inputs, and runs of the definitions.
pub mod World
pub mod Manager
pub mod Blocks
pub mod Tracked
pub mod Profile
pub mod Resizing
pub mod Texts
pub mod Reports
pub mod Moving
pub mod Runs
pub mod Limits
pub mod Threads
