-- ===== src/Lib.antt =====
-- A model of the runtime of Darshan, the I/O characterization library, with its proofs.
--
-- Darshan instruments an application's I/O. Modules (POSIX, STDIO, heatmap, DXT and others) register
-- with darshan-core, which hands out memory for their records and keeps the names of the files. At
-- exit darshan-core asks each module for its output and writes the log, which darshan-util reads.
--
-- Parts, and the files of darshan-runtime/lib that they model unless another place is named:
--   Prelude    lists and tests on native numbers, `size_t` arithmetic (Words), module flags (Bits), and
--              the interface of the hash table of uthash.h (Hash), a parameter of everything else.
--   Core       darshan-core.c. State: the structures of darshan.h, darshan-config.h and
--              include/darshan-log-format.h. Exclude: darshan_core_name_is_excluded. Names:
--              darshan_update_name_record_ref and darshan_core_lookup_record_name. Register:
--              darshan_core_register_module, darshan_core_unregister_module and
--              darshan_core_register_record. Ranks: darshan_should_instrument_rank.
--              Append: darshan_log_append. Shared: darshan_get_shared_records, with
--              MPI_BAND as a parameter. NameLog: darshan_log_write_name_record_hash.
--   Dxt        darshan-dxt.c, extended tracing. Trace: dxt_posix_write, dxt_posix_read, dxt_mpiio_write
--              and dxt_mpiio_read. Output: initialization, output and clean-up. Log: the reader,
--              darshan-util/darshan-dxt-logutils.c, and the record loop of
--              darshan-util/darshan-dxt-parser.c. Session: a module's calls in any
--              order, as a step relation. The other files hold the proofs.
--   Heatmap    darshan-heatmap.c. Update: collapse_heatmap and heatmap_update. Register:
--              heatmap_runtime_initialize, heatmap_register and heatmap_track_new_record.
--              Output: heatmap_output.
--   Common     darshan-common.h and darshan-common.c. Counters: the macros for timers, size histograms
--              and common values. Tracked: darshan_track_common_val_counters.
--   Posix      darshan-posix.c, what each call counts in the record of its file. Record: the macros
--              POSIX_RECORD_READ, POSIX_RECORD_WRITE, POSIX_RECORD_STAT and _POSIX_RECORD_OPEN, and
--              lseek, fsync, fdatasync and close. History: the calls on a file in any order.
--   Util       darshan-util/darshan-logutils.c, reading a log. Ids: DARSHAN_BSWAP64. Names:
--              darshan_log_get_namerecs and darshan_log_get_filtered_namehash. Region:
--              darshan_log_read, darshan_log_seek, darshan_log_dzload, darshan_log_noz_read and
--              darshan_log_dzread. Stored: the two together, against the names that Core keeps.
--   Tests      concrete runs, with an association list for the hash table.
--
-- A function that changes state takes the state and returns the new one with its result. The state of
-- darshan-core is the record Core, of a DXT or heatmap module its Runtime. A lock that is dropped in
-- the middle of a call is a function of the state, `meanwhile`, of which theorems assume only what
-- they name. Whether a `malloc` or `realloc` succeeds is a Boolean argument; in
-- darshan-util it is taken to succeed. What C leaves undefined ends the model: a table
-- whose key was freed is unknown (Prelude.Hash), the log of names has no result after an overrun or
-- an overlapping copy, and theorems leave out what happens after a failed `realloc` of a trace buffer and
-- after an access that ends at the end of a heatmap. DXT and the heatmap call the registration of the
-- core as darshan-core.c defines it; tracing a write therefore runs through Dxt, Core and Prelude.
--
-- Machine integers: a `size_t` wraps at 2^64, its conversion to `int` is written out, and theorems
-- assume sizes and counts below 2^31 where the code holds them in an `int`. `int64_t` counters are not
-- wrapped.
-- Times of the heatmap and of the timers are exact multiples of a tick, where the code has doubles.
--
-- The processes of a job are the list of their tables, the root's first; what MPI broadcasts or
-- reduces is the same value on all of them.
--
-- Fuel: reading a log has as much as the log has pieces, and every record takes one. Collapsing a
-- heatmap has as much as the access's end has ticks, and every collapse gains at least one.
-- Reading names has more fuel than the region has bytes for its chunks, and the bytes of a buffer for
-- its records, each of nine bytes at least; `read` gives a byte in every round but the last; copying a
-- region copies or loads a byte. A list of ranks has one round for each token and one more.
--
-- Not modelled: start-up and shutdown of darshan-core with MPI, zlib and the log file; the trace filter
-- of DXT and the MPI reductions; the parsing of the configuration; the tables
-- of POSIX records and descriptors and the reductions; the wrappers of the other modules; the rest of
-- darshan-util; vendored code. They are I/O, glue, other projects' code, or
-- left for later.
pub mod Prelude
pub mod Core
pub mod Dxt
pub mod Heatmap
pub mod Common
pub mod Posix
pub mod Util
pub mod Tests
