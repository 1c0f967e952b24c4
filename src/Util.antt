-- ===== src/Util.antt =====
-- darshan-util/darshan-logutils.c: reading a log file.
pub mod Ids
pub mod Names
pub mod Region
pub mod Stored
