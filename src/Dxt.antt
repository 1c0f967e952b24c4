-- ===== src/Dxt.antt =====
-- darshan-runtime/lib/darshan-dxt.c, the extended tracing module.
pub mod State
pub mod Trace
pub mod Inv
pub mod Output
pub mod Log
pub mod Serialize
pub mod RoundTrip
pub mod Start
pub mod Session
pub mod Kept
pub mod Grow
pub mod Tracing
pub mod Balance
