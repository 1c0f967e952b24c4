-- ===== src/Dxt/Kept.antt =====
-- What dxt_posix_write and dxt_mpiio_write keep of a write to a file that is tracked.
use darshan.Prelude.{
  ℕ, suc, ◌+◌, ◌*◌, ◌≤◌, ◌<◌, ◌≡◌, ◌⊎◌, ◌==◌, leb, true, false, none, some, List, [], ◌∷◌, ◌++◌,
  take, set, take-set, take-append, arith, refl, ◌≢◌, ◌∙◌, ap, Bool-cases, inl, inr,
}
use darshan.Prelude.Hash.{Uthash, AllItems-find}
use darshan.Core.State.{Module, NameRef, Core, module_at, is_dxt}
use darshan.Core.Register.{Outcome, null, register_record}
use darshan.Core.Register.Granted.{register_record-Answer}
use darshan.Dxt.State.{Segment, RecordRef, Runtime, Env, segment_size}
use darshan.Dxt.Trace.{
  growth, mem_left, grow_traces, succeeded, check_wr_trace_buf, add_write, store_ref, find_or_track,
  write_segment, trace_write,
}
use darshan.Dxt.Inv.{held, IsFit, FitItem, Balanced, growth-eq}
use darshan.Dxt.Balance.{affordable}
use darshan.Dxt.Grow.{Undisturbed, check_wr_trace_buf-Grown, more_writes, more_writes-IsFit}

-- The writes that a record keeps, in order.
abbrev pub writes_of : RecordRef → List Segment
writes_of ref = take ref.file_rec.write_count ref.write_traces

-- Either the write is kept after the earlier ones and the reads are left alone, or nothing changes:
-- then the buffer was full, and darshan-core had less memory left than the segments asked for or
-- did not register the record.
abbrev pub KeepsWrite : RecordRef → Segment → Outcome → RecordRef → Type 0
KeepsWrite ref s out ref' =
    ((writes_of ref' ≡ writes_of ref ++ s ∷ [])
      × (ref'.read_traces ≡ ref.read_traces)
      × (ref'.file_rec.read_count ≡ ref.file_rec.read_count))
    ⊎ ((ref' ≡ ref) × (ref.write_available_buf ≤ ref.file_rec.write_count) × (out ≡ null))

add_write-kept :
    (ref : RecordRef) (s : Segment)
    → IsFit ref
    → ref.file_rec.write_count < ref.write_available_buf
    → (writes_of (add_write ref s) ≡ writes_of ref ++ s ∷ [])
      × ((add_write ref s).read_traces ≡ ref.read_traces)
      × ((add_write ref s).file_rec.read_count ≡ ref.file_rec.read_count)
unfolding add_write
add_write-kept ref s w room =
    let roomy : (ref.file_rec.write_count == ref.write_available_buf) ≡ false = ground arith in
    let next : ref.file_rec.write_count + 1 ≡ suc ref.file_rec.write_count = omega arith in
    rw (roomy, add_write)
      (
        ap (λ n. take n (set ref.write_traces ref.file_rec.write_count s)) next
            ∙ take-set ref.file_rec.write_count ref.write_traces s (omega (arith, w.write_len)),
        refl,
        refl,
      )

add_write-full :
    (ref : RecordRef) (s : Segment)
    → IsFit ref
    → ref.write_available_buf ≤ ref.file_rec.write_count
    → add_write ref s ≡ ref
unfolding add_write
add_write-full ref s w full =
    let e : (ref.file_rec.write_count == ref.write_available_buf) ≡ true =
      ground (arith, w.writes) in
    rw (e, add_write) refl

more_writes-kept :
    (ref : RecordRef) (inc : ℕ) → IsFit ref → writes_of (more_writes ref inc) ≡ writes_of ref
unfolding more_writes grow_traces
more_writes-kept ref inc w =
    take-append ref.file_rec.write_count ref.write_traces _ (omega (arith, w.writes, w.write_len))

-- What darshan-core answers to the growth of the write buffer.
module _ {T R : Type 0} ⦃h : Uthash NameRef T⦄ where
  abbrev pub write_grant : ℕ → Env T → Core T → Runtime R → RecordRef → Outcome
  write_grant i env c rt ref =
      (register_record env.meanwhile env.alloc_name c ref.file_rec.id none i
        (growth ref.write_available_buf (mem_left rt)).1).1

  write-kept :
      (i : ℕ) (env : Env T) (c : Core T) (rt : Runtime R) (ref : RecordRef) (s : Segment)
      (owner : Module)
      → is_dxt i ≡ true
      → Undisturbed env i
      → env.alloc_traces ≡ true
      → module_at c i ≡ some owner
      → held ref + owner.rec_mem_avail < 2147483648
      → IsFit ref
      → KeepsWrite ref s
          (write_grant i env c rt ref)
          (add_write (check_wr_trace_buf i env c rt ref).2 s)
  unfolding check_wr_trace_buf succeeded more_writes
  write-kept i env c rt ref s owner dxt quiet moved here small w =
      let (inc, req) = growth ref.write_available_buf (mem_left rt) in
      let size : (req ≡ inc * segment_size) × (1 ≤ inc) =
        growth-eq ref.write_available_buf (mem_left rt) (ground arith) in
      elim (Bool-cases (leb ref.write_available_buf ref.file_rec.write_count)) [
        | inr roomy ↦ rw (roomy, check_wr_trace_buf) (inl (add_write-kept ref s w (ground arith)))
        | inl full ↦
            elim (register_record-Answer env.meanwhile env.alloc_name c ref.file_rec.id none i req
              owner dxt (quiet c) here (ground arith)) [
                | inl (refused, kept) ↦
                    rw (full, check_wr_trace_buf, refused)
                      (inr (add_write-full ref s w (ground arith), ground arith, refl))
                | inr (got, room, kept) ↦
                    let (after, same, count) =
                      add_write-kept (more_writes ref inc) s (more_writes-IsFit ref inc w)
                        (ground (arith, w.writes)) in
                    rw (full, check_wr_trace_buf, got, moved)
                      (inl
                        (after ∙ ap (λ ws. ws ++ s ∷ []) (more_writes-kept ref inc w), same, count))
              ]
      ]

module _ {T R : Type 0} ⦃h : Uthash NameRef T⦄ ⦃d : Uthash RecordRef R⦄ where
  -- A write to a tracked file, on a DXT runtime that is in balance and not frozen, while no other
  -- thread changes the module and where `realloc` does not fail, is kept after the file's earlier writes, or dropped with the
  -- file's record unchanged because the buffer is full and darshan-core refused more memory. No
  -- other file's record changes.
  pub trace_write-kept :
      (i : ℕ) (env : Env T) (c : Core T) (rt : Runtime R) (k : ℕ) (s : Segment) (ref : RecordRef)
      → is_dxt i ≡ true
      → Undisturbed env i
      → env.alloc_traces ≡ true
      → Balanced i c rt
      → rt.frozen ≡ false
      → d.find rt.rec_id_hash k ≡ some ref
      → (rt' : Runtime R) × (ref' : RecordRef) × ((trace_write i env c (some rt) k s).1 ≡ some rt')
        × (d.find rt'.rec_id_hash k ≡ some ref')
        × KeepsWrite ref s (write_grant i env c rt ref) ref'
        × ((j : ℕ) → k ≢ j → d.find rt'.rec_id_hash j ≡ d.find rt.rec_id_hash j)
  unfolding trace_write find_or_track write_segment store_ref
  trace_write-kept i env c rt k s ref dxt quiet moved bal live found =
      let w = AllItems-find d FitItem rt.rec_id_hash k ref found bal.fit in
      let small = affordable i c rt k ref bal found in
      let g =
        check_wr_trace_buf-Grown i env c rt ref bal.owner dxt quiet moved bal.registered small w in
      let (c', rt', ref') = check_wr_trace_buf i env c rt ref in
      let keeps = write-kept i env c rt ref s bal.owner dxt quiet moved bal.registered small w in
      (
        store_ref rt' k (add_write ref' s),
        add_write ref' s,
        simp (live, trace_write, found, find_or_track) refl,
        rw g.same_hash
            (ground (arith, d.find-store rt.rec_id_hash k ref (add_write ref' s) k found)),
        keeps,
        λ j ne.
            rw g.same_hash
              (ground (arith, d.find-store rt.rec_id_hash k ref (add_write ref' s) j found, ne)),
      )
