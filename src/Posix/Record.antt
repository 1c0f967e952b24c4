-- ===== src/Posix/Record.antt =====
-- The macros of darshan-runtime/lib/darshan-posix.c that count a call in the record of a file, and
-- the same parts of its wrappers for lseek, fsync, fdatasync and close. A call that failed, or whose
-- descriptor has no record, changes nothing and does not get here.
use darshan.Prelude.{
  ℕ, ◌+◌, ◌-◌, ◌%◌, ltb, leb, ◌==◌, if◌then◌else◌, Bool, false, not, ◌&&◌, ◌||◌, Option, none, some,
}
use darshan.Common.Counters.{timer_inc_no_overlap, bucket_inc}
use darshan.Common.Tracked.{CommonVals, note_common_val}
use darshan.Posix.State.{
  IoType, io_none, io_read, io_write, Side, FileRef, Access, zero_side, no_time, no_vals,
}

-- The counters of the first and the last time something happened.
unfoldable pub first_time : ℕ → ℕ → ℕ
first_time start tm1 = if start == 0 || ltb tm1 start then tm1 else start

-- The gap to the end of the last access of the same kind.
unfoldable pub stride_of : Side → ℕ → ℕ
stride_of s this_offset =
    if ltb 0 this_offset && leb s.next_byte this_offset && not (s.next_byte == 1)
    then this_offset - s.next_byte
    else 0

-- The counters that reads and writes have each for themselves.
unfoldable pub count_side : Side → ℕ → ℕ → ℕ → ℕ → Side
count_side s this_offset ret tm1 tm2 =
    let longest = ltb s.max_time (tm2 - tm1) in
    record {
      ops = s.ops + 1;
      bytes = s.bytes + ret;
      max_byte =
          if ltb (s.max_byte + 1) (this_offset + ret) then this_offset + ret - 1 else s.max_byte;
      consec = if this_offset == s.next_byte then s.consec + 1 else s.consec;
      seq = if leb s.next_byte this_offset then s.seq + 1 else s.seq;
      sizes = bucket_inc s.sizes ret;
      start_timestamp = first_time s.start_timestamp tm1;
      end_timestamp = tm2;
      max_time = if longest then tm2 - tm1 else s.max_time;
      max_time_size = if longest then ret else s.max_time_size;
      time = timer_inc_no_overlap s.time tm1 tm2;
      next_byte = this_offset + ret;
    }

unfoldable pub switched : Bool → IoType → Bool
switched is_read io_none = false
switched is_read io_read = not is_read
switched is_read io_write = is_read

unfoldable pub io_type : Bool → IoType
io_type is_read = if is_read then io_read else io_write

-- The counters that reads and writes share, after the two trees were updated.
unfoldable pub count_both : Bool → FileRef → ℕ → ℕ → Bool → CommonVals → CommonVals → FileRef
count_both is_read r this_offset ret aligned access stride = record r {
  offset = this_offset + ret;
  access = access;
  stride = stride;
  mem_not_aligned = if aligned then r.mem_not_aligned else r.mem_not_aligned + 1;
  file_not_aligned =
      if ltb 0 r.file_alignment && not (this_offset % r.file_alignment == 0)
      then r.file_not_aligned + 1
      else r.file_not_aligned;
  rw_switches = if switched is_read r.last_io_type then r.rw_switches + 1 else r.rw_switches;
  last_io_type = io_type is_read;
}

unfoldable pub side_of : Bool → FileRef → Side
side_of is_read r = if is_read then r.reads else r.writes

unfoldable pub with_side : Bool → FileRef → Side → FileRef
with_side is_read r s = if is_read then record r { reads = s } else record r { writes = s }

-- POSIX_RECORD_READ and POSIX_RECORD_WRITE: the offset is given for `pread` and its kin, else it is
-- that of the file. `none` is a read past a table of common values.
unfoldable pub record_access :
    Bool → Bool → Option ℕ → ℕ → Bool → ℕ → ℕ → FileRef → Option (FileRef × Access)
record_access alloc is_read given ret aligned tm1 tm2 r =
    let this_offset : ℕ = elim given [ none ↦ r.offset | some offset ↦ offset ] in
    let s = side_of is_read r in
    elim (note_common_val alloc ret r.access) [
      | none ↦ none
      | some access ↦ elim (note_common_val alloc (stride_of s this_offset) r.stride) [
        | none ↦ none
        | some stride ↦ some (
          with_side is_read (count_both is_read r this_offset ret aligned access stride)
              (count_side s this_offset ret tm1 tm2),
          record {
            is_read = is_read;
            rec_id = r.rec_id;
            offset = this_offset;
            size = ret;
            tm1 = tm1;
            tm2 = tm2;
          },
        )
      ]
    ]

-- The counter that an open by another descriptor raises besides POSIX_OPENS.
pub data RefCounter : Type 0 where
  no_counter fileno_counter dup_counter : RefCounter

unfoldable pub raise_counter : RefCounter → FileRef → FileRef
raise_counter no_counter r = r
raise_counter fileno_counter r = record r { filenos = r.filenos + 1 }
raise_counter dup_counter r = record r { dups = r.dups + 1 }

unfoldable pub reset_position : FileRef → FileRef
reset_position r = record r {
  offset = 0;
  reads = record (r.reads) { next_byte = 1 };
  writes = record (r.writes) { next_byte = 1 };
}

-- _POSIX_RECORD_OPEN, without the entry in the table of descriptors.
unfoldable pub record_open : ℕ → Bool → RefCounter → ℕ → ℕ → FileRef → FileRef
record_open mode reset counter tm1 tm2 r =
    let r1 : FileRef = if mode == 0 then r else record r { mode = mode } in
    let r2 = raise_counter counter (if reset then reset_position r1 else r1) in
    record r2 {
      opens = r2.opens + 1;
      open_start_timestamp = first_time r2.open_start_timestamp tm1;
      open_end_timestamp = tm2;
      meta_time = timer_inc_no_overlap r2.meta_time tm1 tm2;
    }

-- POSIX_RECORD_STAT
unfoldable pub record_stat : ℕ → ℕ → FileRef → FileRef
record_stat tm1 tm2 r = record r {
  stats = r.stats + 1;
  meta_time = timer_inc_no_overlap r.meta_time tm1 tm2;
}

unfoldable pub record_seek : ℕ → ℕ → ℕ → FileRef → FileRef
record_seek ret tm1 tm2 r = record r {
  offset = ret;
  seeks = r.seeks + 1;
  meta_time = timer_inc_no_overlap r.meta_time tm1 tm2;
}

unfoldable pub record_fsync : Bool → ℕ → ℕ → FileRef → FileRef
record_fsync data_only tm1 tm2 r = record r {
  writes = record (r.writes) { time = timer_inc_no_overlap r.writes.time tm1 tm2 };
  fsyncs = if data_only then r.fsyncs else r.fsyncs + 1;
  fdsyncs = if data_only then r.fdsyncs + 1 else r.fdsyncs;
}

unfoldable pub record_close : ℕ → ℕ → FileRef → FileRef
record_close tm1 tm2 r = record r {
  reads = record (r.reads) { next_byte = 1 };
  writes = record (r.writes) { next_byte = 1 };
  close_start_timestamp = first_time r.close_start_timestamp tm1;
  close_end_timestamp = tm2;
  meta_time = timer_inc_no_overlap r.meta_time tm1 tm2;
}

-- The record as posix_track_new_file_record leaves it.
unfoldable pub new_file_record : ℕ → ℕ → ℕ → FileRef
new_file_record rec_id mem_alignment block_size = record {
  rec_id = rec_id;
  offset = 0;
  last_io_type = io_none;
  reads = zero_side;
  writes = zero_side;
  access = no_vals;
  stride = no_vals;
  opens = 0;
  filenos = 0;
  dups = 0;
  seeks = 0;
  stats = 0;
  fsyncs = 0;
  fdsyncs = 0;
  mode = 0;
  rw_switches = 0;
  mem_not_aligned = 0;
  file_not_aligned = 0;
  mem_alignment = mem_alignment;
  file_alignment = block_size;
  open_start_timestamp = 0;
  open_end_timestamp = 0;
  close_start_timestamp = 0;
  close_end_timestamp = 0;
  meta_time = no_time;
}
