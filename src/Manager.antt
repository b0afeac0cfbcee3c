-- ===== src/Manager.antt =====
-- src/memsentry.cpp: the Manager. `State` is what a thread of the process sees, `Allocate`, `Free` and
-- `Realloc` are the three operations, `Lifecycle` starts and stops the library, and `Leaks` reads
-- the tracker for the reports; the other modules prove what they do.
pub mod State
pub mod Allocate
pub mod Free
pub mod Realloc
pub mod Lifecycle
pub mod Leaks
pub mod Export
pub mod Reports
pub mod Outcome
pub mod Release
pub mod Untracked
pub mod Register
pub mod RoundTrip
pub mod Accounts
pub mod Watchdog
pub mod Resize
pub mod History
