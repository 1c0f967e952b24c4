-- ===== src/Dxt/Session.antt =====
-- A DXT module from its start to its output: the calls of dxt_posix_write and dxt_posix_read (or their
-- MPI-IO counterparts) in any order, as a step relation.
use darshan.Prelude.{ℕ, ◌*◌, ◌<◌, ◌≤◌, List, ◌≡◌, Bool, true, some, length}
use mathlib.Core.Path.{subst}
use darshan.Prelude.Hash.{Uthash}
use darshan.Core.State.{NameRef, Core, is_dxt, known_module_count}
use darshan.Core.Register.{records_requested}
use darshan.Dxt.State.{Segment, RecordRef, Runtime, Env, Chunk, def_record_size}
use darshan.Dxt.Trace.{trace_write, trace_read}
use darshan.Dxt.Output.{output, initialize}
use darshan.Dxt.Log.{parse_log}
use darshan.Dxt.Inv.{Balanced}
use darshan.Dxt.Grow.{Undisturbed}
use darshan.Dxt.Balance.{MaybeBalanced, trace_write-Balanced, trace_read-Balanced}
use darshan.Dxt.Start.{Started, initialize-Started}
use darshan.Dxt.Serialize.{bytes, log_of, output-fits}
use darshan.Dxt.RoundTrip.{files_of, parse_log-output}

-- The states that tracing reaches from a core and a runtime.
pub data Reaches {T R : Type 0} ⦃h : Uthash NameRef T⦄ ⦃d : Uthash RecordRef R⦄ (i : ℕ)
    (c0 : Core T) (rt0 : Runtime R) : Core T → Runtime R → Type 0 where
  started : Reaches i c0 rt0 c0 rt0
  wrote :
      {c c' : Core T} {rt rt' : Runtime R} (env : Env T) (k : ℕ) (s : Segment)
      → Undisturbed env i
      → env.alloc_traces ≡ true
      → Reaches i c0 rt0 c rt
      → trace_write i env c (some rt) k s ≡ (c', some rt')
      → Reaches i c0 rt0 c' rt'
  did_read :
      {c c' : Core T} {rt rt' : Runtime R} (env : Env T) (k : ℕ) (s : Segment)
      → Undisturbed env i
      → env.alloc_traces ≡ true
      → Reaches i c0 rt0 c rt
      → trace_read i env c (some rt) k s ≡ (c', some rt')
      → Reaches i c0 rt0 c' rt'

module _ {T R : Type 0} ⦃h : Uthash NameRef T⦄ ⦃d : Uthash RecordRef R⦄ where
  Reaches-Balanced :
      (i : ℕ) (c0 : Core T) (rt0 : Runtime R) {c : Core T} {rt : Runtime R}
      → is_dxt i ≡ true
      → Balanced i c0 rt0
      → Reaches i c0 rt0 c rt
      → Balanced i c rt
  Reaches-Balanced i c0 rt0 dxt bal started = bal
  Reaches-Balanced i c0 rt0 dxt bal (wrote {c = c} {rt = rt} env k s quiet moved before step) =
      subst (λ out. MaybeBalanced i out.0 out.1) step
        (trace_write-Balanced i env dxt quiet moved c (some rt) k s
          (Reaches-Balanced i c0 rt0 dxt bal before))
  Reaches-Balanced i c0 rt0 dxt bal (did_read {c = c} {rt = rt} env k s quiet moved before step) =
      subst (λ out. MaybeBalanced i out.0 out.1) step
        (trace_read-Balanced i env dxt quiet moved c (some rt) k s
          (Reaches-Balanced i c0 rt0 dxt bal before))

  -- From a DXT module that has started, through any sequence of traced reads and writes, in which no
  -- other thread changes the module and `realloc` does not fail: its output, when the buffer can be allocated, fits the memory
  -- allocated, and the parser reads from it each record that has traces, with the traces it kept. The
  -- module starts on a core with an entry for each module, with records to ask for that fit an `int`.
  pub Reaches-log :
      (alloc_mod alloc : Bool) (my_rank i : ℕ) (core c0 c : Core T) (rt0 rt : Runtime R)
      → is_dxt i ≡ true
      → length core.mod_array ≡ known_module_count
      → records_requested core.config i 2048 * def_record_size < 2147483648
      → initialize {R = R} alloc_mod alloc my_rank i (some core) ≡ (some c0, some rt0)
      → Reaches i c0 rt0 c rt
      → let (rt', buf, size) = output true rt in
        (cs : List Chunk) × (buf ≡ some cs)
        × (size ≡ bytes cs)
        × (size ≤ rt.mem_allocated)
        × (parse_log cs ≡ some (files_of (d.iter rt.rec_id_hash)))
  Reaches-log alloc_mod alloc my_rank i core c0 c rt0 rt dxt len small begun reach =
      let first : Balanced i c0 rt0 =
        subst (λ out. Started i out.0 out.1) begun
          (initialize-Started R alloc_mod alloc my_rank i core dxt len small) in
      let bal = Reaches-Balanced i c0 rt0 dxt first reach in
      let (cs, buf, parsed) = parse_log-output i c rt bal in
      let (buf', size, fits, frozen) = output-fits i c rt bal in
      let same : cs ≡ log_of (d.iter rt.rec_id_hash) = cc in (cs, buf, rw same size, fits, parsed)
