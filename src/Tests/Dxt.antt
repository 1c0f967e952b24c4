-- ===== src/Tests/Dxt.antt =====
-- Starting, tracing, output and reading back of a DXT module.
use darshan.Prelude.{
  ℕ, ◌*◌, ◌≤◌, ◌<◌, ◌≡◌, ◌≢◌, true, false, none, some, List, [], ◌∷◌, replicate, refl, arith,
}
use darshan.Prelude.Hash.{Uthash, total}
use darshan.Core.State.{Core}
use darshan.Core.Register.{records_requested}
use darshan.Dxt.State.{Segment, RecordRef, Runtime, Env, Chunk, zero_segment}
use darshan.Dxt.Trace.{trace_write, trace_read}
use darshan.Dxt.Output.{output, initialize}
use darshan.Dxt.Log.{parse_log}
use darshan.Dxt.Inv.{IsFit, Balanced}
use darshan.Dxt.Balance.{MaybeBalanced, trace_write-Balanced, trace_read-Balanced}
use darshan.Dxt.Kept.{KeepsWrite, write_grant, trace_write-kept}
use darshan.Dxt.Serialize.{bytes, log_of, output-fits}
use darshan.Dxt.RoundTrip.{files_of, parse_log-output}
use darshan.Dxt.Start.{Started, initialize-Started}
use darshan.Tests.Table.{Table, list_uthash}
use darshan.Tests.Setup.{Names, name_table, core_start, core_dxt, dxt_module}

abbrev pub Refs : Type 0
Refs = Table RecordRef

instance abbrev pub ref_table : Uthash RecordRef Refs
ref_table = list_uthash RecordRef

abbrev pub env_a : Env Names
env_a = record {
  meanwhile = λ c. c;
  alloc_ref = true;
  alloc_tracker = true;
  alloc_traces = true;
  alloc_name = true;
  alloc_file = true;
  hostname = 104 ∷ [];
}

abbrev pub segment_a : Segment
segment_a = record { offset = 0; length = 4096; start_time = 5; end_time = 9; pthread_id = 1 }

abbrev segment_b : Segment
segment_b = record { offset = 4096; length = 100; start_time = 10; end_time = 11; pthread_id = 1 }

-- A file with one write traced, in a buffer for 64.
abbrev ref_a : RecordRef
ref_a = record {
  file_rec = record { id = 77; rank = 0; hostname = 104 ∷ []; write_count = 1; read_count = 0 };
  write_available_buf = 64;
  read_available_buf = 0;
  write_traces = segment_a ∷ replicate 63 zero_segment;
  read_traces = [];
}

-- The module after that file and its buffer, 2664 bytes, are granted.
abbrev core_traced : Core Names
core_traced = record core_dxt {
  mod_array =
      none
      ∷ none
      ∷ none
      ∷ none
      ∷ none
      ∷ none
      ∷ none
      ∷ none
      ∷ none
      ∷ none
      ∷ some (record dxt_module { rec_mem_avail = 2094488 })
      ∷ replicate 7 none;
}

abbrev runtime_a : Runtime Refs
runtime_a = record {
  rec_id_hash = record { items = (77, ref_a) ∷ []; unique = (refl, tt) };
  file_rec_count = 1;
  mem_allocated = 2097152;
  mem_used = 2664;
  record_buf = [];
  record_buf_size = 0;
  frozen = false;
  my_rank = 0;
}

ref_a-IsFit : IsFit ref_a
ref_a-IsFit = record {
  writes = omega arith;
  write_len = refl;
  reads = omega arith;
  read_len = refl;
}

runtime_a-Balanced : Balanced 10 core_traced runtime_a
unfolding total
runtime_a-Balanced = record {
  owner = record dxt_module { rec_mem_avail = 2094488 };
  registered = refl;
  balance = omega arith;
  small = omega arith;
  fit = (ref_a-IsFit, tt);
}

small_start : records_requested core_start.config 10 2048 * 1024 < 2147483648
unfolding records_requested
small_start = omega arith

initialize-Started_example :
    let (core', rt) = initialize {R = Refs} true true 0 10 (some core_start) in Started 10 core' rt
initialize-Started_example = initialize-Started Refs true true 0 10 core_start refl refl small_start

trace_write-Balanced_example :
    let (c', rt') = trace_write 10 env_a core_traced (some runtime_a) 78 segment_b in
    MaybeBalanced 10 c' rt'
trace_write-Balanced_example =
    trace_write-Balanced 10 env_a refl (λ c. refl) refl core_traced (some runtime_a) 78 segment_b
      runtime_a-Balanced

trace_read-Balanced_example :
    let (c', rt') = trace_read 10 env_a core_traced (some runtime_a) 77 segment_b in
    MaybeBalanced 10 c' rt'
trace_read-Balanced_example =
    trace_read-Balanced 10 env_a refl (λ c. refl) refl core_traced (some runtime_a) 77 segment_b
      runtime_a-Balanced

trace_write-kept_example :
    (rt' : Runtime Refs) × (ref' : RecordRef) × ((trace_write 10 env_a core_traced
        (some runtime_a)
        77
        segment_b).1
      ≡ some rt')
    × (ref_table.find rt'.rec_id_hash 77 ≡ some ref')
    × KeepsWrite ref_a segment_b (write_grant 10 env_a core_traced runtime_a ref_a) ref'
    × ((j : ℕ) → 77 ≢ j → ref_table.find rt'.rec_id_hash j ≡ ref_table.find runtime_a.rec_id_hash j)
trace_write-kept_example =
    trace_write-kept 10 env_a core_traced runtime_a 77 segment_b ref_a refl (λ c. refl) refl
      runtime_a-Balanced refl refl

output-fits_example :
    let (rt', buf, size) = output true runtime_a in
    (buf ≡ some (log_of ((77, ref_a) ∷ [])))
    × (size ≡ bytes (log_of ((77, ref_a) ∷ [])))
    × (size ≤ 2097152)
    × (rt'.frozen ≡ true)
output-fits_example = output-fits 10 core_traced runtime_a runtime_a-Balanced

parse_log-output_example :
    let (rt', buf, size) = output true runtime_a in
    (cs : List Chunk) × (buf ≡ some cs) × (parse_log cs ≡ some (files_of ((77, ref_a) ∷ [])))
parse_log-output_example = parse_log-output 10 core_traced runtime_a runtime_a-Balanced
