-- ===== src/Heatmap.antt =====
-- darshan-runtime/lib/darshan-heatmap.c, the histograms of I/O over time.
pub mod State
pub mod Update
pub mod Register
pub mod Inv
pub mod Sums
pub mod Collapse
pub mod Fit
pub mod Spread
pub mod Bins
pub mod Access
pub mod Output
pub mod Reported
