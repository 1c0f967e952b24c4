-- ===== src/Posix/State.antt =====
-- The data of darshan-runtime/lib/darshan-posix.c and include/darshan-posix-log-format.h for one
-- file. Offsets and sizes are those of calls that succeeded, so none is negative. Times are whole
-- numbers of some tick.
use darshan.Prelude.{ℕ, Bool, List, [], replicate}
use darshan.Common.Counters.{Timer}
use darshan.Common.Tracked.{CommonVals}

-- enum darshan_io_type
pub data IoType : Type 0 where
  io_none io_read io_write : IoType

-- What is kept once for the reads and once for the writes, as POSIX_READS and POSIX_WRITES: the
-- counters, then the end of the last access. `next_byte` is `last_byte_read + 1`, or that of the
-- writes; the last byte is -1 after an access of no bytes at offset 0.
pub record Side : Type 0 where
  pub ops : ℕ
  pub bytes : ℕ
  pub max_byte : ℕ
  pub consec : ℕ
  pub seq : ℕ
  pub sizes : List ℕ
  pub start_timestamp : ℕ
  pub end_timestamp : ℕ
  pub max_time : ℕ
  pub max_time_size : ℕ
  pub time : Timer
  pub next_byte : ℕ

-- struct posix_file_record_ref with its struct darshan_posix_file
pub record FileRef : Type 0 where
  pub rec_id : ℕ
  pub offset : ℕ
  pub last_io_type : IoType
  pub reads : Side
  pub writes : Side
  pub access : CommonVals
  pub stride : CommonVals
  pub opens : ℕ
  pub filenos : ℕ
  pub dups : ℕ
  pub seeks : ℕ
  pub stats : ℕ
  pub fsyncs : ℕ
  pub fdsyncs : ℕ
  pub mode : ℕ
  pub rw_switches : ℕ
  pub mem_not_aligned : ℕ
  pub file_not_aligned : ℕ
  pub mem_alignment : ℕ
  pub file_alignment : ℕ
  pub open_start_timestamp : ℕ
  pub open_end_timestamp : ℕ
  pub close_start_timestamp : ℕ
  pub close_end_timestamp : ℕ
  pub meta_time : Timer

-- Memory set to zero.
abbrev pub no_time : Timer
no_time = record { plus = 0; minus = 0; last = 0 }

abbrev pub zero_side : Side
zero_side = record {
  ops = 0;
  bytes = 0;
  max_byte = 0;
  consec = 0;
  seq = 0;
  sizes = replicate 10 0;
  start_timestamp = 0;
  end_timestamp = 0;
  max_time = 0;
  max_time_size = 0;
  time = no_time;
  next_byte = 1;
}

abbrev pub no_vals : CommonVals
no_vals = record { tracked = []; table = replicate 4 (record { val = 0; count = 0 }) }

-- A call that moved data: what the module hands to DXT and the heatmap.
pub record Access : Type 0 where
  pub is_read : Bool
  pub rec_id : ℕ
  pub offset : ℕ
  pub size : ℕ
  pub tm1 : ℕ
  pub tm2 : ℕ
