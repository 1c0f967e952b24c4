-- ===== src/Dxt/Output.antt =====
-- The start and the end of the DXT modules: dxt_posix_runtime_initialize, dxt_posix_output,
-- dxt_posix_cleanup and their MPI-IO counterparts of darshan-runtime/lib/darshan-dxt.c. The buffer is
-- modelled by the pieces written into it, and `record_buf_size` by the code's arithmetic on bytes.
use darshan.Prelude.{
  ℕ, ◌+◌, ◌*◌, ◌/◌, ◌==◌, if◌then◌else◌, Bool, true, false, not, ◌&&◌, Option, none, some, List, [],
  ◌∷◌, ◌++◌, map, take,
}
use darshan.Prelude.Hash.{Uthash}
use darshan.Prelude.Words.{mul_size, int_of_size}
use darshan.Core.State.{Core, dxt_mpiio_mod}
use darshan.Core.Register.{Grant, register_module, unregister_module}
use darshan.Dxt.State.{
  RecordRef, Runtime, Chunk, header, segment, segment_size, file_record_size, io_trace_mem_max,
  def_record_size,
}

-- The pieces of a record: its header, its writes, its reads.
unfoldable pub record_chunks : RecordRef → List Chunk
record_chunks ref =
    header ref.file_rec
    ∷ (map segment (take ref.file_rec.write_count ref.write_traces)
        ++ map segment (take ref.file_rec.read_count ref.read_traces))

unfoldable pub record_size : RecordRef → ℕ
record_size ref =
    file_record_size + (ref.file_rec.write_count + ref.file_rec.read_count) * segment_size

module _ {R : Type 0} where
  -- dxt_serialize_posix_records and dxt_serialize_mpiio_records
  unfoldable pub serialize_record : Runtime R → RecordRef → Runtime R
  unfolding record_chunks record_size
  serialize_record rt ref =
      if ref.file_rec.write_count == 0 && ref.file_rec.read_count == 0 then rt else record rt {
        record_buf = rt.record_buf ++ record_chunks ref;
        record_buf_size = int_of_size (rt.record_buf_size + record_size ref);
      }

  -- darshan_iter_record_refs with the above
  unfoldable pub serialize_all : Runtime R → List (ℕ × RecordRef) → Runtime R
  unfolding serialize_record
  serialize_all rt [] = rt
  serialize_all rt ((k, ref) ∷ items) = serialize_all (serialize_record rt ref) items

module _ {R : Type 0} ⦃d : Uthash RecordRef R⦄ where
  -- `alloc` is whether `malloc` succeeds. The results are the output buffer, if there is one, and its
  -- size.
  unfoldable pub output : Bool → Runtime R → Runtime R × Option (List Chunk) × ℕ
  unfolding serialize_all
  output alloc rt =
      if not alloc
      then (rt, none, 0)
      else (let rt' =
            serialize_all (record rt { record_buf = []; record_buf_size = 0 })
              (d.iter rt.rec_id_hash) in
          (record rt' { frozen = true }, some rt'.record_buf, rt'.record_buf_size))

  -- dxt_posix_cleanup: the runtime is gone.
  unfoldable pub cleanup : Runtime R → Option (Runtime R)
  cleanup rt = none

module _ {T R : Type 0} ⦃d : Uthash RecordRef R⦄ where
  -- After darshan_core_register_module; `alloc` is whether `malloc` succeeds.
  unfoldable pub start_runtime :
      Bool → ℕ → Option (Core T) → Option Grant → Option (Core T) × Option (Runtime R)
  start_runtime alloc mod_id core none = (core, none)
  start_runtime alloc mod_id core (some g) =
      if alloc
      then (
        core,
        some (record {
          rec_id_hash = d.empty;
          file_rec_count = 0;
          mem_allocated = mul_size g.rec_count def_record_size;
          mem_used = 0;
          record_buf = [];
          record_buf_size = 0;
          frozen = false;
          my_rank = g.rank;
        }),
      )
      else (unregister_module core mod_id, none)

  -- `alloc_mod` is the `malloc` of darshan-core, and `my_rank` its rank.
  unfoldable pub initialize :
      Bool → Bool → ℕ → ℕ → Option (Core T) → Option (Core T) × Option (Runtime R)
  unfolding start_runtime
  initialize alloc_mod alloc my_rank mod_id core =
      let (core', grant) =
        register_module alloc_mod my_rank core mod_id def_record_size
          (io_trace_mem_max / def_record_size) in
      start_runtime alloc mod_id core' grant

  unfoldable pub mpiio_initialize :
      Bool → Bool → ℕ → Option (Core T) → Option (Core T) × Option (Runtime R)
  mpiio_initialize alloc_mod alloc my_rank core =
      initialize alloc_mod alloc my_rank dxt_mpiio_mod core

-- The MPI-IO functions do the same to their own runtime.
unfoldable pub mpiio_serialize_record : {R : Type 0} → Runtime R → RecordRef → Runtime R
mpiio_serialize_record rt ref = serialize_record rt ref

unfoldable pub mpiio_output :
    {R : Type 0} → ⦃d : Uthash RecordRef R⦄ → Bool → Runtime R → Runtime R × Option (List Chunk) × ℕ
mpiio_output alloc rt = output alloc rt
