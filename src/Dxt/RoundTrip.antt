-- ===== src/Dxt/RoundTrip.antt =====
-- The output of the DXT modules, read back by darshan-util's parser.
use darshan.Prelude.{
  ℕ, zero, suc, ◌+◌, ◌≤◌, ◌≡◌, if◌then◌else◌, true, some, List, [], ◌∷◌, ◌++◌, map, take, arith,
  refl, sym, ap, length, length-take, length-append, Bool-cases, inl, inr,
}
use darshan.Prelude.Hash.{Uthash, AllItems}
use darshan.Core.State.{Core}
use darshan.Dxt.State.{Segment, FileRecord, RecordRef, Runtime, Chunk, segment}
use darshan.Dxt.Output.{record_chunks, output}
use darshan.Dxt.Log.{got, get_segments, get_file, after_file, parse_log}
use darshan.Dxt.Inv.{IsFit, FitItem, Balanced}
use darshan.Dxt.Serialize.{is_idle, log_of, output-fits}

-- A record's traces, the writes first.
abbrev pub traces_of : RecordRef → List Segment
traces_of ref =
    take ref.file_rec.write_count ref.write_traces ++ take ref.file_rec.read_count ref.read_traces

-- The records that have traces.
unfoldable pub files_of : List (ℕ × RecordRef) → List (FileRecord × List Segment)
files_of [] = []
files_of ((k, ref) ∷ items) =
    if is_idle ref then files_of items else (ref.file_rec, traces_of ref) ∷ files_of items

map-append : {A B : Type 0} (f : A → B) (xs ys : List A) → map f xs ++ map f ys ≡ map f (xs ++ ys)
map-append f [] ys = refl
map-append f (x ∷ xs) ys = ap (f x ∷◌) (map-append f xs ys)

get_segments-map :
    (ss : List Segment) (rest : List Chunk)
    → get_segments (length ss) (map segment ss ++ rest) ≡ some (ss, rest)
unfolding get_segments
get_segments-map [] rest = refl
get_segments-map (s ∷ ss) rest = rw (get_segments-map ss rest) refl

get_file-record_chunks :
    (ref : RecordRef) (rest : List Chunk)
    → IsFit ref
    → get_file (record_chunks ref ++ rest) ≡ got ref.file_rec (traces_of ref) rest
unfolding get_file record_chunks
get_file-record_chunks ref rest w =
    let ws = take ref.file_rec.write_count ref.write_traces in
    let rs = take ref.file_rec.read_count ref.read_traces in
    let n : length (ws ++ rs) ≡ ref.file_rec.write_count + ref.file_rec.read_count = omega (
      arith,
      length-append ws rs,
      length-take ref.file_rec.write_count ref.write_traces (omega (arith, w.writes, w.write_len)),
      length-take ref.file_rec.read_count ref.read_traces (omega (arith, w.reads, w.read_len)),
    ) in
    rw (map-append segment ws rs, get_file, sym n, get_segments-map (ws ++ rs) rest) refl

record_chunks-some : (ref : RecordRef) → 1 ≤ length (record_chunks ref)
unfolding record_chunks
record_chunks-some ref = omega arith

after_got :
    (fuel : ℕ) (r : FileRecord) (ss : List Segment) (items : List (ℕ × RecordRef))
    → 1 ≤ fuel
    → ((n : ℕ) → suc n ≡ fuel → after_file n (get_file (log_of items)) ≡ some (files_of items))
    → after_file fuel (got r ss (log_of items)) ≡ some ((r, ss) ∷ files_of items)
unfolding after_file
after_got zero r ss items enough rest = absurd (omega arith)
after_got (suc n) r ss items enough rest = rw (after_file, rest n refl) refl

after_file-log_of :
    (fuel : ℕ) (items : List (ℕ × RecordRef))
    → AllItems FitItem items
    → length (log_of items) ≤ fuel
    → after_file fuel (get_file (log_of items)) ≡ some (files_of items)
unfolding after_file get_file log_of files_of
after_file-log_of fuel [] w enough = refl
after_file-log_of fuel ((k, ref) ∷ items) w enough = elim (Bool-cases (is_idle ref)) [
  | inl idle ↦
      rw (idle, log_of, files_of) (after_file-log_of fuel items w.1 (rw (idle, log_of) at enough))
  | inr busy ↦
      let pieces : 1 ≤ length (record_chunks ref) = record_chunks-some ref in
      let enough' : length (record_chunks ref) + length (log_of items) ≤ fuel =
        omega (
          arith,
          length-append (record_chunks ref) (log_of items),
          (rw (busy, log_of) at enough),
        ) in
      rw (busy, log_of, files_of, get_file-record_chunks ref (log_of items) w.0)
        (after_got fuel ref.file_rec (traces_of ref) items (omega arith)
          (λ n e. after_file-log_of n items w.1 (omega arith)))
]

module _ {T R : Type 0} ⦃d : Uthash RecordRef R⦄ where
  -- What a DXT module in balance outputs, when the buffer can be allocated, is a log from which
  -- the parser reads each record that has traces, in the order of the table, with the traces it
  -- kept, the writes first.
  pub parse_log-output :
      (i : ℕ) (c : Core T) (rt : Runtime R)
      → Balanced i c rt
      → let (rt', buf, size) = output true rt in
        (cs : List Chunk) × (buf ≡ some cs)
        × (parse_log cs ≡ some (files_of (d.iter rt.rec_id_hash)))
  unfolding parse_log
  parse_log-output i c rt bal =
      let items = d.iter rt.rec_id_hash in
      (
        log_of items,
        (output-fits i c rt bal).0,
        after_file-log_of (length (log_of items)) items bal.fit (omega arith),
      )
