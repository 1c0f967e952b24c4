-- ===== src/Dxt/Serialize.antt =====
-- The output of the DXT modules fits into the buffer of `mem_allocated` bytes that it is written to.
use darshan.Prelude.{
  ℕ, ◌+◌, ◌*◌, ◌≤◌, ◌<◌, ◌≡◌, ◌==◌, if◌then◌else◌, Bool, true, ◌&&◌, some, List, [], ◌∷◌, ◌++◌, map,
  take, arith, refl, sym, ◌∙◌, ap, length, length-take, Bool-cases, inl, inr,
}
use mathlib.Core.List.{append_assoc, append-nil}
use darshan.Prelude.Hash.{Uthash, total, AllItems}
use darshan.Prelude.Words.{int_of_size, int_of_size-eq}
use darshan.Core.State.{Core}
use darshan.Dxt.State.{
  Segment, RecordRef, Runtime, Chunk, header, segment, segment_size, file_record_size,
}
use darshan.Dxt.Output.{record_chunks, record_size, serialize_record, serialize_all, output}
use darshan.Dxt.Inv.{held, IsFit, FitItem, Balanced}

-- The bytes of what is written.
abbrev pub bytes : List Chunk → ℕ
bytes [] = 0
bytes (header r ∷ cs) = file_record_size + bytes cs
bytes (segment s ∷ cs) = segment_size + bytes cs

-- The records that have traces, and their pieces in the order of the table.
abbrev pub is_idle : RecordRef → Bool
is_idle ref = ref.file_rec.write_count == 0 && ref.file_rec.read_count == 0

unfoldable pub log_of : List (ℕ × RecordRef) → List Chunk
log_of [] = []
log_of ((k, ref) ∷ items) = if is_idle ref then log_of items else record_chunks ref ++ log_of items

bytes-append : (xs ys : List Chunk) → bytes (xs ++ ys) ≡ bytes xs + bytes ys
bytes-append [] ys = omega arith
bytes-append (header r ∷ xs) ys = omega (arith, bytes-append xs ys)
bytes-append (segment s ∷ xs) ys = omega (arith, bytes-append xs ys)

bytes-segments : (ss : List Segment) → bytes (map segment ss) ≡ length ss * segment_size
bytes-segments [] = refl
bytes-segments (s ∷ ss) = omega (arith, bytes-segments ss)

record_chunks-bytes :
    (ref : RecordRef)
    → IsFit ref
    → (bytes (record_chunks ref) ≡ record_size ref) × (record_size ref ≤ held ref)
unfolding record_chunks record_size
record_chunks-bytes ref w =
    let ws = take ref.file_rec.write_count ref.write_traces in
    let rs = take ref.file_rec.read_count ref.read_traces in
    let lw : length ws ≡ ref.file_rec.write_count =
      length-take ref.file_rec.write_count ref.write_traces
        (omega (arith, w.writes, w.write_len)) in
    let lr : length rs ≡ ref.file_rec.read_count =
      length-take ref.file_rec.read_count ref.read_traces (omega (arith, w.reads, w.read_len)) in
    (
      omega (
        arith,
        bytes-append (map segment ws) (map segment rs),
        bytes-segments ws,
        bytes-segments rs,
        lw,
        lr,
      ),
      omega (arith, w.writes, w.reads),
    )

module _ {R : Type 0} where
  -- What is written is the log of the items, and the size says how long it is.
  pub serialize_all-log_of :
      (rt : Runtime R) (items : List (ℕ × RecordRef))
      → AllItems FitItem items
      → rt.record_buf_size + total held items < 2147483648
      → let rt' = serialize_all rt items in
        (rt'.record_buf ≡ rt.record_buf ++ log_of items)
        × (rt'.record_buf_size ≡ rt.record_buf_size + bytes (log_of items))
        × (bytes (log_of items) ≤ total held items)
  unfolding serialize_all serialize_record log_of total
  serialize_all-log_of rt [] w small = (sym (append-nil rt.record_buf), omega arith, omega arith)
  serialize_all-log_of rt ((k, ref) ∷ items) w small = elim (Bool-cases (is_idle ref)) [
    | inl idle ↦
        rw (idle, serialize_all, log_of)
          (let (same, size, fits) = serialize_all-log_of rt items w.1 (omega arith) in
            (same, size, omega (arith, fits)))
    | inr busy ↦
        let rt' : Runtime R = record rt {
          record_buf = rt.record_buf ++ record_chunks ref;
          record_buf_size = int_of_size (rt.record_buf_size + record_size ref);
        } in
        let (exact, within) = record_chunks-bytes ref w.0 in
        let size' : rt'.record_buf_size ≡ rt.record_buf_size + record_size ref =
          int_of_size-eq (rt.record_buf_size + record_size ref) (omega (arith, within)) in
        let (same, size, fits) =
          serialize_all-log_of rt' items w.1 (omega (arith, within, size')) in
        rw (busy, serialize_all, log_of)
          (
            same ∙ append_assoc rt.record_buf (record_chunks ref) (log_of items),
            omega (arith, size, size', exact, bytes-append (record_chunks ref) (log_of items)),
            omega (arith, fits, exact, within, bytes-append (record_chunks ref) (log_of items)),
          )
  ]

module _ {T R : Type 0} ⦃d : Uthash RecordRef R⦄ where
  -- When the buffer can be allocated and the module is in balance, the buffer holds the log of
  -- the table, its size is the bytes of that log, at most the `mem_allocated` bytes of the
  -- buffer, and the runtime is frozen.
  pub output-fits :
      (i : ℕ) (c : Core T) (rt : Runtime R)
      → Balanced i c rt
      → let (rt', buf, size) = output true rt in
        (buf ≡ some (log_of (d.iter rt.rec_id_hash)))
        × (size ≡ bytes (log_of (d.iter rt.rec_id_hash)))
        × (size ≤ rt.mem_allocated)
        × (rt'.frozen ≡ true)
  unfolding output
  output-fits i c rt bal =
      let (same, size, fits) =
        serialize_all-log_of (record rt { record_buf = []; record_buf_size = 0 })
          (d.iter rt.rec_id_hash) bal.fit (omega (arith, bal.balance, bal.small)) in
      (ap some same, omega (arith, size), omega (arith, size, fits, bal.balance), refl)
