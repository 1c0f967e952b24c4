-- ===== src/Posix.antt =====
-- darshan-runtime/lib/darshan-posix.c, the counters of one file.
pub mod State
pub mod Record
pub mod Sums
pub mod History
