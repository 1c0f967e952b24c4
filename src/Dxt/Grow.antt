-- ===== src/Dxt/Grow.antt =====
-- check_wr_trace_buf and check_rd_trace_buf: what darshan-core grants for a buffer is what the
-- buffer grows by. The copy of a segment into its buffer stays inside.
use darshan.Prelude.{
  ℕ, ◌+◌, ◌*◌, ◌≤◌, ◌<◌, ◌≡◌, leb, ◌==◌, true, none, some, List, arith, refl, length, length-append,
  length-replicate, length-set, replicate, Bool-cases, inl, inr, ◌==◌,
}
use darshan.Prelude.Hash.{Uthash}
use darshan.Core.State.{Module, NameRef, Core, module_at, is_dxt}
use darshan.Core.Register.{register_record}
use darshan.Core.Register.Granted.{spent, register_record-Answer}
use darshan.Dxt.State.{Segment, RecordRef, Runtime, Env, segment_size, zero_segment}
use darshan.Dxt.Trace.{
  growth, mem_left, grow_traces, succeeded, check_wr_trace_buf, check_rd_trace_buf, add_write,
  add_read,
}
use darshan.Dxt.Inv.{held, IsFit, growth-eq}

-- Another thread never touches the module `i` while darshan-core drops its lock: a DXT module holds
-- its own lock throughout.
abbrev pub Undisturbed : {T : Type 0} → Env T → ℕ → Type 0
Undisturbed {T} env i = (c : Core T) → module_at (env.meanwhile c) i ≡ module_at c i

-- The outcome of a growth step on a runtime, a reference and the module's memory.
pub record Grown {T R : Type 0} (i : ℕ) (owner : Module) (rt : Runtime R) (ref : RecordRef)
    (c' : Core T) (rt' : Runtime R) (ref' : RecordRef) : Type 0 where
  pub owner' : Module
  pub here : module_at c' i ≡ some owner'
  pub paid : held ref' + owner'.rec_mem_avail ≤ held ref + owner.rec_mem_avail
  pub fit : IsFit ref'
  pub same_hash : rt'.rec_id_hash ≡ rt.rec_id_hash
  pub same_size : rt'.mem_allocated ≡ rt.mem_allocated

length-grow_traces : (xs : List Segment) (n : ℕ) → length (grow_traces true xs n) ≡ length xs + n
unfolding grow_traces
length-grow_traces xs n =
    ground (arith, length-append xs (replicate n zero_segment), length-replicate n zero_segment)

unfoldable pub more_writes : RecordRef → ℕ → RecordRef
more_writes ref inc = record ref {
  write_available_buf = ref.write_available_buf + inc;
  write_traces = grow_traces true ref.write_traces inc;
}

pub more_writes-IsFit : (ref : RecordRef) (inc : ℕ) → IsFit ref → IsFit (more_writes ref inc)
unfolding more_writes
more_writes-IsFit ref inc w = record {
  writes = ground (arith, w.writes);
  write_len = ground (arith, w.write_len, length-grow_traces ref.write_traces inc);
  reads = w.reads;
  read_len = w.read_len;
}

unfoldable pub more_reads : RecordRef → ℕ → RecordRef
more_reads ref inc = record ref {
  read_available_buf = ref.read_available_buf + inc;
  read_traces = grow_traces true ref.read_traces inc;
}

more_reads-IsFit : (ref : RecordRef) (inc : ℕ) → IsFit ref → IsFit (more_reads ref inc)
unfolding more_reads
more_reads-IsFit ref inc w = record {
  writes = w.writes;
  write_len = w.write_len;
  reads = ground (arith, w.reads);
  read_len = ground (arith, w.read_len, length-grow_traces ref.read_traces inc);
}

module _ {T R : Type 0} ⦃h : Uthash NameRef T⦄ (i : ℕ) (env : Env T) (c : Core T) (rt : Runtime R)
    (ref : RecordRef) (owner : Module) (dxt : is_dxt i ≡ true) (quiet : Undisturbed env i)
    (moved : env.alloc_traces ≡ true) (here : module_at c i ≡ some owner)
    (small : held ref + owner.rec_mem_avail < 2147483648) (fit : IsFit ref) where
  pub check_wr_trace_buf-Grown :
      let (c', rt', ref') = check_wr_trace_buf i env c rt ref in Grown i owner rt ref c' rt' ref'
  unfolding check_wr_trace_buf succeeded more_writes
  check_wr_trace_buf-Grown =
      let (inc, req) = growth ref.write_available_buf (mem_left rt) in
      let size : (req ≡ inc * segment_size) × (1 ≤ inc) =
        growth-eq ref.write_available_buf (mem_left rt) (ground arith) in
      let (c', out) = register_record env.meanwhile env.alloc_name c ref.file_rec.id none i req in
      elim (Bool-cases (leb ref.write_available_buf ref.file_rec.write_count)) [
        | inr roomy ↦
            rw (roomy, check_wr_trace_buf)
              (record {
                owner' = owner;
                here = here;
                paid = omega arith;
                fit = fit;
                same_hash = refl;
                same_size = refl;
              })
        | inl full ↦
            elim (register_record-Answer env.meanwhile env.alloc_name c ref.file_rec.id none i req
              owner dxt (quiet c) here (ground arith)) [
                | inl (refused, kept) ↦
                    rw (full, check_wr_trace_buf, refused)
                      (record {
                        owner' = owner;
                        here = kept;
                        paid = omega arith;
                        fit = fit;
                        same_hash = refl;
                        same_size = refl;
                      })
                | inr (got, room, kept) ↦
                    rw (full, check_wr_trace_buf, got, moved)
                      (record {
                        owner' = spent owner req;
                        here = kept;
                        paid = ground arith;
                        fit = more_writes-IsFit ref inc fit;
                        same_hash = refl;
                        same_size = refl;
                      })
              ]
      ]

  pub check_rd_trace_buf-Grown :
      let (c', rt', ref') = check_rd_trace_buf i env c rt ref in Grown i owner rt ref c' rt' ref'
  unfolding check_rd_trace_buf succeeded more_reads
  check_rd_trace_buf-Grown =
      let (inc, req) = growth ref.read_available_buf (mem_left rt) in
      let size : (req ≡ inc * segment_size) × (1 ≤ inc) =
        growth-eq ref.read_available_buf (mem_left rt) (ground arith) in
      let (c', out) = register_record env.meanwhile env.alloc_name c ref.file_rec.id none i req in
      elim (Bool-cases (leb ref.read_available_buf ref.file_rec.read_count)) [
        | inr roomy ↦
            rw (roomy, check_rd_trace_buf)
              (record {
                owner' = owner;
                here = here;
                paid = omega arith;
                fit = fit;
                same_hash = refl;
                same_size = refl;
              })
        | inl full ↦
            elim (register_record-Answer env.meanwhile env.alloc_name c ref.file_rec.id none i req
              owner dxt (quiet c) here (ground arith)) [
                | inl (refused, kept) ↦
                    rw (full, check_rd_trace_buf, refused)
                      (record {
                        owner' = owner;
                        here = kept;
                        paid = omega arith;
                        fit = fit;
                        same_hash = refl;
                        same_size = refl;
                      })
                | inr (got, room, kept) ↦
                    rw (full, check_rd_trace_buf, got, moved)
                      (record {
                        owner' = spent owner req;
                        here = kept;
                        paid = ground arith;
                        fit = more_reads-IsFit ref inc fit;
                        same_hash = refl;
                        same_size = refl;
                      })
              ]
      ]

-- Adding a segment leaves the buffers' sizes.
pub add_write-IsFit :
    (ref : RecordRef) (s : Segment)
    → IsFit ref
    → IsFit (add_write ref s) × (held (add_write ref s) ≡ held ref)
unfolding add_write
add_write-IsFit ref s w = elim (Bool-cases (ref.file_rec.write_count == ref.write_available_buf)) [
  | inl full ↦ rw (full, add_write) (w, refl)
  | inr roomy ↦
      rw (roomy, add_write)
        (
          record {
            writes = ground (arith, w.writes);
            write_len =
                ground (arith, w.write_len, length-set ref.write_traces ref.file_rec.write_count s);
            reads = w.reads;
            read_len = w.read_len;
          },
          refl,
        )
]

pub add_read-IsFit :
    (ref : RecordRef) (s : Segment)
    → IsFit ref
    → IsFit (add_read ref s) × (held (add_read ref s) ≡ held ref)
unfolding add_read
add_read-IsFit ref s w = elim (Bool-cases (ref.file_rec.read_count == ref.read_available_buf)) [
  | inl full ↦ rw (full, add_read) (w, refl)
  | inr roomy ↦
      rw (roomy, add_read)
        (
          record {
            writes = w.writes;
            write_len = w.write_len;
            reads = ground (arith, w.reads);
            read_len =
                ground (arith, w.read_len, length-set ref.read_traces ref.file_rec.read_count s);
          },
          refl,
        )
]
