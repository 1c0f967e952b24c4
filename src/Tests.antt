-- ===== src/Tests.antt =====
-- Runs of the model on concrete inputs, with an association list for the hash table.
mod Items
mod Table
mod Setup
mod Register
mod Names
mod Dxt
mod Session
mod Heatmap
mod Common
mod Util
mod Ranks
mod Posix
mod Append
mod Shared
mod NameLog
mod Complete
