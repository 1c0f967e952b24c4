-- ===== src/Common.antt =====
-- darshan-runtime/lib/darshan-common.h, the counters that the modules share.
pub mod Counters
pub mod Order
pub mod Ranked
pub mod Tracked
pub mod Measures
