-- ===== src/Dxt/State.antt =====
-- The data of darshan-runtime/lib/darshan-dxt.c and include/darshan-dxt-log-format.h. The code keeps
-- one runtime for POSIX and one for MPI-IO, of the same shape. Times are only stored, never computed
-- with, so a time is any number; the fields that hold counts of segments are `int64_t`.
use Prim.Native.Nat.{ℕ}
use mathlib.Core.Bool.{Bool}
use mathlib.Core.List.{List, []}
use darshan.Core.State.{Bytes, Core}

-- sizeof(segment_info), sizeof(struct dxt_file_record)
abbrev pub segment_size : ℕ
segment_size = 40

abbrev pub file_record_size : ℕ
file_record_size = 104

abbrev pub io_trace_buf_size : ℕ
io_trace_buf_size = 64

abbrev pub def_record_size : ℕ
def_record_size = 1024

-- 2 MiB
abbrev pub io_trace_mem_max : ℕ
io_trace_mem_max = 2097152

pub record Segment : Type 0 where
  pub offset : ℕ
  pub length : ℕ
  pub start_time : ℕ
  pub end_time : ℕ
  pub pthread_id : ℕ

abbrev pub zero_segment : Segment
zero_segment = record { offset = 0; length = 0; start_time = 0; end_time = 0; pthread_id = 0 }

pub record FileRecord : Type 0 where
  pub id : ℕ
  pub rank : ℕ
  pub hostname : Bytes
  pub write_count : ℕ
  pub read_count : ℕ

-- The trace arrays are as long as they are allocated. What `realloc` adds to one is not initialised;
-- the code never reads it, and zeros stand for it.
pub record RecordRef : Type 0 where
  pub file_rec : FileRecord
  pub write_available_buf : ℕ
  pub read_available_buf : ℕ
  pub write_traces : List Segment
  pub read_traces : List Segment

-- `memset(rec_ref, 0, sizeof(*rec_ref))`, and the zeroed file record.
abbrev pub zero_file_record : FileRecord
zero_file_record = record { id = 0; rank = 0; hostname = []; write_count = 0; read_count = 0 }

abbrev pub zero_record_ref : RecordRef
zero_record_ref = record {
  file_rec = zero_file_record;
  write_available_buf = 0;
  read_available_buf = 0;
  write_traces = [];
  read_traces = [];
}

-- What is written into `record_buf`, piece by piece.
pub data Chunk : Type 0 where
  header : FileRecord → Chunk
  segment : Segment → Chunk

-- `R` is the type of the hash table of record references.
pub record Runtime (R : Type 0) : Type 0 where
  pub rec_id_hash : R
  pub file_rec_count : ℕ
  pub mem_allocated : ℕ
  pub mem_used : ℕ
  pub record_buf : List Chunk
  pub record_buf_size : ℕ
  pub frozen : Bool
  pub my_rank : ℕ

-- What the calls of one operation meet: other threads while darshan-core drops its lock, and whether
-- each `malloc` (and, of the trace buffers, `realloc`) succeeds, in the order in which they are made.
pub record Env (T : Type 0) : Type 0 where
  pub meanwhile : Core T → Core T
  pub alloc_ref : Bool
  pub alloc_tracker : Bool
  pub alloc_traces : Bool
  pub alloc_name : Bool
  pub alloc_file : Bool
  pub hostname : Bytes
