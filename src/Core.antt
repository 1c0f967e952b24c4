-- ===== src/Core.antt =====
-- darshan-runtime/lib/darshan-core.c.
pub mod State
pub mod Exclude
pub mod Names
pub mod Register
pub mod Ranks
pub mod Append
pub mod NameLog
pub mod Shared
