-- ===== src/Dxt/Log.antt =====
-- Reading DXT records back: dxt_log_get_posix_file and dxt_log_get_mpiio_file of
-- darshan-util/darshan-dxt-logutils.c, and the loop over a module's records in
-- darshan-util/darshan-dxt-parser.c. The log is one that this version wrote, on a machine of the same
-- byte order: there is nothing to convert. A read returns whole pieces; `malloc` succeeds.
use darshan.Prelude.{ℕ, zero, suc, ◌+◌, Option, none, some, List, [], ◌∷◌, length}
use darshan.Dxt.State.{Segment, FileRecord, Chunk, header, segment}

-- The segments that one darshan_log_get_mod reads; `none` is a read that falls short.
unfoldable pub get_segments : ℕ → List Chunk → Option (List Segment × List Chunk)
get_segments zero cs = some ([], cs)
get_segments (suc n) [] = none
get_segments (suc n) (header r ∷ cs) = none
get_segments (suc n) (segment s ∷ cs) = elim (get_segments n cs) [
  | none ↦ none
  | some (ss, rest) ↦ some (s ∷ ss, rest)
]

-- The results 0, -1, and 1 with the record, its segments and the rest of the log.
pub data ReadFile : Type 0 where
  done failed : ReadFile
  got : FileRecord → List Segment → List Chunk → ReadFile

unfoldable pub get_file : List Chunk → ReadFile
unfolding get_segments
get_file [] = done
get_file (segment s ∷ cs) = failed
get_file (header r ∷ cs) = elim (get_segments (r.write_count + r.read_count) cs) [
  | none ↦ failed
  | some (ss, rest) ↦ got r ss rest
]

unfoldable pub get_mpiio_file : List Chunk → ReadFile
get_mpiio_file = get_file

-- The records that the parser prints before it stops; `none` is a record that fails to parse, or no
-- fuel.
unfoldable pub after_file : ℕ → ReadFile → Option (List (FileRecord × List Segment))
unfolding get_file
after_file fuel done = some []
after_file fuel failed = none
after_file zero (got r ss rest) = none
after_file (suc fuel) (got r ss rest) = elim (after_file fuel (get_file rest)) [
  | none ↦ none
  | some recs ↦ some ((r, ss) ∷ recs)
]

-- Every record takes a piece at least, so that the length of the log is enough fuel.
unfoldable pub parse_log : List Chunk → Option (List (FileRecord × List Segment))
unfolding after_file get_file
parse_log cs = after_file (length cs) (get_file cs)
