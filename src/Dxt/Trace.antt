-- ===== src/Dxt/Trace.antt =====
-- Tracing reads and writes: dxt_posix_write, dxt_posix_read and their MPI-IO counterparts of
-- darshan-runtime/lib/darshan-dxt.c, with the growth of the trace buffers. The two sets of functions
-- differ in the module and its runtime only, so each is an instance of one definition.
use darshan.Prelude.{
  ℕ, ◌+◌, ◌/◌, ltb, leb, ◌==◌, if◌then◌else◌, Bool, true, false, not, ◌||◌, Option, none, some,
  List, [], ◌++◌, set, replicate,
}
use darshan.Prelude.Hash.{Uthash}
use darshan.Prelude.Words.{add_size, sub_size, mul_size, int_of_size}
use darshan.Core.State.{NameRef, Core, dxt_mpiio_mod}
use darshan.Core.Names.{lookup_record_name}
use darshan.Core.Register.{Outcome, fault, null, granted, buffer, register_record}
use darshan.Dxt.State.{
  Segment, RecordRef, Runtime, Env, zero_file_record, zero_record_ref, zero_segment, segment_size,
  file_record_size, io_trace_buf_size,
}

-- Whether darshan_core_register_record returned a non-NULL pointer. The module of a runtime is
-- registered, so that the call does not fault.
unfoldable pub succeeded : Outcome → Bool
succeeded granted = true
succeeded (buffer p) = true
succeeded null = false
succeeded fault = false

-- The segments by which a buffer of `available` grows and the bytes asked for: it doubles, starting
-- from 64, as far as memory is left, and asks for one segment at least.
unfoldable pub growth : ℕ → ℕ → ℕ × ℕ
growth available mem_left =
    let inc = if available == 0 then io_trace_buf_size else available in
    let mem_req = mul_size inc segment_size in
    if ltb mem_left mem_req
    then (let fit = int_of_size (mem_left / segment_size) in
        let inc' = if fit == 0 then 1 else fit in (inc', mul_size inc' segment_size))
    else (inc, mem_req)

unfoldable pub mem_left : {R : Type 0} → Runtime R → ℕ
mem_left rt = sub_size rt.mem_allocated rt.mem_used

-- The buffer that `realloc` returns, when it succeeds. Its result is not tested: on failure the NULL is
-- stored, a buffer of no segments, while the number of segments available is raised all the same, and
-- a copy through the NULL, which ends the process, is not described any further.
unfoldable pub grow_traces : Bool → List Segment → ℕ → List Segment
grow_traces true traces inc = traces ++ replicate inc zero_segment
grow_traces false traces inc = []

module _ {T R : Type 0} ⦃h : Uthash NameRef T⦄ where
  -- `mem_used` counts the request whether or not it was granted.
  unfoldable pub check_wr_trace_buf :
      ℕ → Env T → Core T → Runtime R → RecordRef → Core T × Runtime R × RecordRef
  unfolding growth mem_left grow_traces succeeded
  check_wr_trace_buf mod_id env c rt ref =
      if leb ref.write_available_buf ref.file_rec.write_count
      then (let (inc, mem_req) = growth ref.write_available_buf (mem_left rt) in
          let (c', out) =
            register_record env.meanwhile env.alloc_name c ref.file_rec.id none mod_id mem_req in
          (
            c',
            record rt { mem_used = add_size rt.mem_used mem_req },
            if succeeded out
                then record ref {
                  write_available_buf = ref.write_available_buf + inc;
                  write_traces = grow_traces env.alloc_traces ref.write_traces inc;
                }
                else ref,
          ))
      else (c, rt, ref)

  unfoldable pub check_rd_trace_buf :
      ℕ → Env T → Core T → Runtime R → RecordRef → Core T × Runtime R × RecordRef
  unfolding growth mem_left grow_traces succeeded
  check_rd_trace_buf mod_id env c rt ref =
      if leb ref.read_available_buf ref.file_rec.read_count
      then (let (inc, mem_req) = growth ref.read_available_buf (mem_left rt) in
          let (c', out) =
            register_record env.meanwhile env.alloc_name c ref.file_rec.id none mod_id mem_req in
          (
            c',
            record rt { mem_used = add_size rt.mem_used mem_req },
            if succeeded out
                then record ref {
                  read_available_buf = ref.read_available_buf + inc;
                  read_traces = grow_traces env.alloc_traces ref.read_traces inc;
                }
                else ref,
          ))
      else (c, rt, ref)

-- The new segment is written at the count, unless the buffer is full.
unfoldable pub add_write : RecordRef → Segment → RecordRef
add_write ref s = if ref.file_rec.write_count == ref.write_available_buf then ref else record ref {
  write_traces = set ref.write_traces ref.file_rec.write_count s;
  file_rec = record (ref.file_rec) { write_count = ref.file_rec.write_count + 1 };
}

unfoldable pub add_read : RecordRef → Segment → RecordRef
add_read ref s = if ref.file_rec.read_count == ref.read_available_buf then ref else record ref {
  read_traces = set ref.read_traces ref.file_rec.read_count s;
  file_rec = record (ref.file_rec) { read_count = ref.file_rec.read_count + 1 };
}

-- The writes through `rec_ref` reach the item in the table.
module _ {R : Type 0} ⦃d : Uthash RecordRef R⦄ where
  unfoldable pub store_ref : Runtime R → ℕ → RecordRef → Runtime R
  store_ref rt rec_id ref = record rt { rec_id_hash = d.store rt.rec_id_hash rec_id ref }

module _ {T R : Type 0} ⦃h : Uthash NameRef T⦄ ⦃d : Uthash RecordRef R⦄ where
  -- `none` is a return of NULL. The reference enters the table before the record is registered and
  -- leaves it again on failure.
  unfoldable pub track_new_file_record :
      ℕ → Env T → Core T → Runtime R → ℕ → Core T × Runtime R × Option RecordRef
  unfolding succeeded
  track_new_file_record mod_id env c rt rec_id =
      if not env.alloc_ref || not env.alloc_tracker
      then (c, rt, none)
      else (let added = d.add rt.rec_id_hash rec_id zero_record_ref in
          let (c', out) =
            register_record env.meanwhile env.alloc_name c rec_id (lookup_record_name c rec_id)
              mod_id file_record_size in
          let ref : RecordRef = record zero_record_ref {
            file_rec = record zero_file_record {
              id = rec_id;
              rank = rt.my_rank;
              hostname = env.hostname;
            };
          } in
          if not (succeeded out) || not env.alloc_file
          then (c', record rt { rec_id_hash = d.delete added rec_id }, none)
          else (
            c',
            record rt {
              rec_id_hash = d.store added rec_id ref;
              file_rec_count = rt.file_rec_count + 1;
              mem_used = add_size rt.mem_used file_record_size;
            },
            some ref,
          ))

  -- The reference of a file, tracked anew if there is none.
  unfoldable pub find_or_track :
      ℕ → Env T → Core T → Runtime R → ℕ → Core T × Runtime R × Option RecordRef
  unfolding track_new_file_record
  find_or_track mod_id env c rt rec_id = elim (d.find rt.rec_id_hash rec_id) [
    | some ref ↦ (c, rt, some ref)
    | none ↦ track_new_file_record mod_id env c rt rec_id
  ]

  -- After the reference is at hand; `none` means that the call backs out.
  unfoldable pub write_segment :
      ℕ → Env T → Core T → Runtime R → ℕ → Option RecordRef → Segment → Core T × Runtime R
  unfolding check_wr_trace_buf add_write store_ref
  write_segment mod_id env c rt rec_id none s = (c, rt)
  write_segment mod_id env c rt rec_id (some ref) s =
      let (c', rt', ref') = check_wr_trace_buf mod_id env c rt ref in
      (c', store_ref rt' rec_id (add_write ref' s))

  unfoldable pub read_segment :
      ℕ → Env T → Core T → Runtime R → ℕ → Option RecordRef → Segment → Core T × Runtime R
  unfolding check_rd_trace_buf add_read store_ref
  read_segment mod_id env c rt rec_id none s = (c, rt)
  read_segment mod_id env c rt rec_id (some ref) s =
      let (c', rt', ref') = check_rd_trace_buf mod_id env c rt ref in
      (c', store_ref rt' rec_id (add_read ref' s))

  -- dxt_posix_write, of the POSIX runtime when `mod_id` is its module. `none` is a runtime that is
  -- not initialised.
  unfoldable pub trace_write :
      ℕ → Env T → Core T → Option (Runtime R) → ℕ → Segment → Core T × Option (Runtime R)
  unfolding find_or_track write_segment
  trace_write mod_id env c none rec_id s = (c, none)
  trace_write mod_id env c (some rt) rec_id s =
      if rt.frozen
      then (c, some rt)
      else (let (c', rt', ref) = find_or_track mod_id env c rt rec_id in
          let (c'', rt'') = write_segment mod_id env c' rt' rec_id ref s in (c'', some rt''))

  -- dxt_posix_read
  unfoldable pub trace_read :
      ℕ → Env T → Core T → Option (Runtime R) → ℕ → Segment → Core T × Option (Runtime R)
  unfolding find_or_track read_segment
  trace_read mod_id env c none rec_id s = (c, none)
  trace_read mod_id env c (some rt) rec_id s =
      if rt.frozen
      then (c, some rt)
      else (let (c', rt', ref) = find_or_track mod_id env c rt rec_id in
          let (c'', rt'') = read_segment mod_id env c' rt' rec_id ref s in (c'', some rt''))

  unfoldable pub mpiio_write :
      Env T → Core T → Option (Runtime R) → ℕ → Segment → Core T × Option (Runtime R)
  mpiio_write = trace_write dxt_mpiio_mod

  unfoldable pub mpiio_read :
      Env T → Core T → Option (Runtime R) → ℕ → Segment → Core T × Option (Runtime R)
  mpiio_read = trace_read dxt_mpiio_mod

  unfoldable pub mpiio_track_new_file_record :
      Env T → Core T → Runtime R → ℕ → Core T × Runtime R × Option RecordRef
  mpiio_track_new_file_record = track_new_file_record dxt_mpiio_mod
