-- ===== src/Dxt/Inv.antt =====
-- What the DXT memory is spent on: the bytes that darshan-core granted cover the records and the
-- segments that the trace buffers can hold.
use darshan.Prelude.{ℕ, ◌+◌, ◌*◌, ◌/◌, ◌≤◌, ◌<◌, ◌≡◌, ◌==◌, if◌then◌else◌, some, arith, length}
use darshan.Prelude.Hash.{Uthash, total, AllItems}
use darshan.Prelude.Words.{mul_size-eq, int_of_size-eq}
use darshan.Core.State.{Module, Core, module_at}
use darshan.Dxt.State.{RecordRef, Runtime, segment_size, file_record_size}
use darshan.Dxt.Trace.{growth}

-- The bytes granted for a record and its buffers.
abbrev pub held : RecordRef → ℕ
held r = file_record_size + (r.write_available_buf + r.read_available_buf) * segment_size

-- A record reference within its own buffers.
pub record IsFit (r : RecordRef) : Type 0 where
  pub writes : r.file_rec.write_count ≤ r.write_available_buf
  pub write_len : length r.write_traces ≡ r.write_available_buf
  pub reads : r.file_rec.read_count ≤ r.read_available_buf
  pub read_len : length r.read_traces ≡ r.read_available_buf

abbrev pub FitItem : ℕ → RecordRef → Type 0
FitItem k r = IsFit r

-- What was granted and what darshan-core still holds for the module stay within `mem_allocated`.
pub record Balanced {T R : Type 0} ⦃d : Uthash RecordRef R⦄ (mod_id : ℕ) (c : Core T)
    (rt : Runtime R) : Type 0 where
  pub owner : Module
  pub registered : module_at c mod_id ≡ some owner
  pub balance : total held (d.iter rt.rec_id_hash) + owner.rec_mem_avail ≤ rt.mem_allocated
  pub small : rt.mem_allocated < 2147483648
  pub fit : AllItems FitItem (d.iter rt.rec_id_hash)

-- A request is for whole segments, at least one.
pub growth-eq :
    (available left : ℕ)
    → available < 2147483648
    → ((growth available left).1 ≡ (growth available left).0 * segment_size)
      × (1 ≤ (growth available left).0)
unfolding growth
growth-eq available left h =
    let inc = if available == 0 then 64 else available in
    ground (
      arith,
      mul_size-eq available segment_size,
      mul_size-eq 64 segment_size,
      mul_size-eq 1 segment_size,
      int_of_size-eq (left / segment_size),
      mul_size-eq (left / segment_size) segment_size,
    )
