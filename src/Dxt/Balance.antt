-- ===== src/Dxt/Balance.antt =====
-- The whole of dxt_posix_write, dxt_posix_read, dxt_mpiio_write and dxt_mpiio_read: the memory stays
-- in balance.
use darshan.Prelude.{ℕ, ◌+◌, ◌<◌, ◌≡◌, true, Option, none, some, arith, refl, Bool-cases, inl, inr}
use darshan.Prelude.Hash.{Uthash, total-find, total-store, AllItems-find, AllItems-store}
use darshan.Core.State.{NameRef, Core, is_dxt}
use darshan.Dxt.State.{Segment, RecordRef, Runtime, Env}
use darshan.Dxt.Trace.{
  find_or_track, store_ref, write_segment, read_segment, trace_write, trace_read,
  check_wr_trace_buf, check_rd_trace_buf, add_write, add_read,
}
use darshan.Dxt.Inv.{held, IsFit, FitItem, Balanced}
use darshan.Dxt.Grow.{
  Undisturbed, Grown, check_wr_trace_buf-Grown, check_rd_trace_buf-Grown, add_write-IsFit,
  add_read-IsFit,
}
use darshan.Dxt.Tracing.{Tracked, find_or_track-Tracked}

-- A runtime that may be missing.
abbrev pub MaybeBalanced :
    {T R : Type 0} → ⦃d : Uthash RecordRef R⦄ → ℕ → Core T → Option (Runtime R) → Type 0
MaybeBalanced i c none = Unit
MaybeBalanced i c (some rt) = Balanced i c rt

module _ {T R : Type 0} ⦃d : Uthash RecordRef R⦄ (i : ℕ) (c : Core T) (rt : Runtime R) (k : ℕ)
    (ref : RecordRef) (bal : Balanced i c rt) (present : d.find rt.rec_id_hash k ≡ some ref) where
  pub affordable : held ref + (bal.owner).rec_mem_avail < 2147483648
  affordable = omega (arith, total-find d held rt.rec_id_hash k ref present, bal.balance, bal.small)

  stored-Balanced :
      (c' : Core T) (rt' : Runtime R) (ref' ref'' : RecordRef)
      → Grown i bal.owner rt ref c' rt' ref'
      → IsFit ref'' × (held ref'' ≡ held ref')
      → Balanced i c' (store_ref rt' k ref'')
  unfolding store_ref
  stored-Balanced c' rt' ref' ref'' g w = record {
    owner = g.owner';
    registered = g.here;
    balance =
        rw (g.same_hash, g.same_size)
          (omega (
            arith,
            bal.balance,
            g.paid,
            w.1,
            total-store d held rt.rec_id_hash k ref ref'' present,
          ));
    small = rw g.same_size bal.small;
    fit = rw g.same_hash (AllItems-store d FitItem rt.rec_id_hash k ref ref'' present bal.fit w.0);
  }

module _ {T R : Type 0} ⦃h : Uthash NameRef T⦄ ⦃d : Uthash RecordRef R⦄ (i : ℕ) (env : Env T)
    (dxt : is_dxt i ≡ true) (quiet : Undisturbed env i) (moved : env.alloc_traces ≡ true) where
  write_segment-Balanced :
      (c : Core T) (rt : Runtime R) (k : ℕ) (found : Option RecordRef) (s : Segment)
      → Tracked i k c rt found
      → let (c', rt') = write_segment i env c rt k found s in Balanced i c' rt'
  unfolding write_segment
  write_segment-Balanced c rt k none s t = t.balanced
  write_segment-Balanced c rt k (some ref) s t =
      let present = t.in_table ref refl in
      let g =
        check_wr_trace_buf-Grown i env c rt ref t.balanced.owner dxt quiet moved
          t.balanced.registered (affordable i c rt k ref t.balanced present)
          (AllItems-find d FitItem rt.rec_id_hash k ref present t.balanced.fit) in
      let (c', rt', ref') = check_wr_trace_buf i env c rt ref in
      stored-Balanced i c rt k ref t.balanced present c' rt' ref' (add_write ref' s) g
        (add_write-IsFit ref' s g.fit)

  read_segment-Balanced :
      (c : Core T) (rt : Runtime R) (k : ℕ) (found : Option RecordRef) (s : Segment)
      → Tracked i k c rt found
      → let (c', rt') = read_segment i env c rt k found s in Balanced i c' rt'
  unfolding read_segment
  read_segment-Balanced c rt k none s t = t.balanced
  read_segment-Balanced c rt k (some ref) s t =
      let present = t.in_table ref refl in
      let g =
        check_rd_trace_buf-Grown i env c rt ref t.balanced.owner dxt quiet moved
          t.balanced.registered (affordable i c rt k ref t.balanced present)
          (AllItems-find d FitItem rt.rec_id_hash k ref present t.balanced.fit) in
      let (c', rt', ref') = check_rd_trace_buf i env c rt ref in
      stored-Balanced i c rt k ref t.balanced present c' rt' ref' (add_read ref' s) g
        (add_read-IsFit ref' s g.fit)

  -- Tracing a write in a DXT module keeps the module's memory in balance, on every branch and whichever
  -- `malloc` fails, if `realloc` does not and no other thread changes the module while darshan-core drops its lock: the
  -- records and trace buffers, with what darshan-core still holds, fit in the memory allocated, and
  -- every record stays within its buffers.
  pub trace_write-Balanced :
      (c : Core T) (rt : Option (Runtime R)) (k : ℕ) (s : Segment)
      → MaybeBalanced i c rt
      → let (c', rt') = trace_write i env c rt k s in MaybeBalanced i c' rt'
  unfolding trace_write
  trace_write-Balanced c none k s bal = tt
  trace_write-Balanced c (some rt) k s bal = elim (Bool-cases rt.frozen) [
    | inl frozen ↦ simp (frozen, trace_write) bal
    | inr live ↦
        simp (live, trace_write)
          (let t = find_or_track-Tracked i env c rt k dxt quiet bal in
            let (c', rt', found) = find_or_track i env c rt k in
            write_segment-Balanced c' rt' k found s t)
  ]

  -- Tracing a read in a DXT module keeps the module's memory in balance, on every branch and
  -- whichever `malloc` fails, if `realloc` does not and no other thread changes the module while
  -- darshan-core drops its lock.
  pub trace_read-Balanced :
      (c : Core T) (rt : Option (Runtime R)) (k : ℕ) (s : Segment)
      → MaybeBalanced i c rt
      → let (c', rt') = trace_read i env c rt k s in MaybeBalanced i c' rt'
  unfolding trace_read
  trace_read-Balanced c none k s bal = tt
  trace_read-Balanced c (some rt) k s bal = elim (Bool-cases rt.frozen) [
    | inl frozen ↦ simp (frozen, trace_read) bal
    | inr live ↦
        simp (live, trace_read)
          (let t = find_or_track-Tracked i env c rt k dxt quiet bal in
            let (c', rt', found) = find_or_track i env c rt k in
            read_segment-Balanced c' rt' k found s t)
  ]
