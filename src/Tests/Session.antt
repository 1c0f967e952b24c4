-- ===== src/Tests/Session.antt =====
-- A DXT session: a module starts, one write is traced, and the output is read back.
use darshan.Prelude.{
  ◌*◌, ◌<◌, ◌≤◌, ◌≡◌, true, false, Option, none, some, List, [], replicate, set, refl, arith,
}
use darshan.Prelude.Words.{mul_size}
use darshan.Prelude.Bits.{mod_flag_isset}
use darshan.Core.State.{Core}
use darshan.Core.Register.{register_module, records_requested}
use darshan.Dxt.State.{Runtime, Chunk}
use darshan.Dxt.Trace.{trace_write}
use darshan.Dxt.Output.{output, initialize}
use darshan.Dxt.Log.{parse_log}
use darshan.Dxt.Serialize.{bytes}
use darshan.Dxt.RoundTrip.{files_of}
use darshan.Dxt.Session.{started, wrote, Reaches-log}
use darshan.Tests.Setup.{Names, name_table, core_start, dxt_module}
use darshan.Tests.Dxt.{Refs, ref_table, env_a, segment_a}

abbrev core_begun : Core Names
core_begun = record core_start {
  log_hdr = record { partial_flag = 0; mod_ver = set (replicate 18 0) 10 2 };
  mod_array = set (replicate 18 none) 10 (some dxt_module);
}

abbrev runtime_begun : Runtime Refs
runtime_begun = record {
  rec_id_hash = ref_table.empty;
  file_rec_count = 0;
  mem_allocated = 2097152;
  mem_used = 0;
  record_buf = [];
  record_buf_size = 0;
  frozen = false;
  my_rank = 0;
}

begun :
    initialize {R = Refs} true true 0 10 (some core_start) ≡ (some core_begun, some runtime_begun)
unfolding initialize mul_size mod_flag_isset register_module
begun = refl

abbrev or_begun : Option (Runtime Refs) → Runtime Refs
or_begun none = runtime_begun
or_begun (some rt) = rt

abbrev core_wrote : Core Names
core_wrote = (trace_write 10 env_a core_begun (some runtime_begun) 77 segment_a).0

abbrev runtime_wrote : Runtime Refs
runtime_wrote = or_begun (trace_write 10 env_a core_begun (some runtime_begun) 77 segment_a).1

one_write :
    trace_write 10 env_a core_begun (some runtime_begun) 77 segment_a
    ≡ (core_wrote, some runtime_wrote)
unfolding trace_write
one_write = refl

small_start : records_requested core_start.config 10 2048 * 1024 < 2147483648
unfolding records_requested
small_start = omega arith

Reaches-log_example :
    let (rt', buf, size) = output true runtime_wrote in
    (cs : List Chunk) × (buf ≡ some cs)
    × (size ≡ bytes cs)
    × (size ≤ runtime_wrote.mem_allocated)
    × (parse_log cs ≡ some (files_of (ref_table.iter runtime_wrote.rec_id_hash)))
Reaches-log_example =
    Reaches-log true true 0 10 core_start core_begun core_wrote runtime_begun runtime_wrote refl
      refl small_start begun (wrote env_a 77 segment_a (λ c. refl) refl started one_write)
