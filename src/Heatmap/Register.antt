-- ===== src/Heatmap/Register.antt =====
-- Starting the heatmap module and tracking a heatmap: heatmap_runtime_initialize, heatmap_register,
-- heatmap_track_new_record and heatmap_cleanup of darshan-runtime/lib/darshan-heatmap.c. A record's
-- memory is zero when darshan-core hands it out.
use darshan.Prelude.{
  ℕ, ◌+◌, if◌then◌else◌, Bool, true, false, not, ◌||◌, Option, none, some, replicate,
}
use darshan.Prelude.Hash.{Uthash}
use darshan.Core.State.{Bytes, NameRef, Core, heatmap_mod}
use darshan.Core.Register.{
  Outcome, fault, null, granted, buffer, Grant, register_module, unregister_module,
  core_register_record,
}
use darshan.Heatmap.State.{
  Heatmap, Runtime, max_heatmap_bins, heatmap_size, max_heatmaps, initial_bin_width,
}

-- What the calls of one operation meet, as for DXT: other threads while darshan-core drops its lock,
-- and whether each `malloc` succeeds. `gen_record_id` is the hash of a name.
pub record Env (T : Type 0) : Type 0 where
  pub meanwhile : Core T → Core T
  pub my_rank : ℕ
  pub alloc_module : Bool
  pub alloc_runtime : Bool
  pub alloc_ref : Bool
  pub alloc_tracker : Bool
  pub alloc_name : Bool
  pub gen_record_id : Bytes → ℕ

unfoldable pub returned : Outcome → Bool
returned (buffer p) = true
returned granted = true
returned null = false
returned fault = false

unfoldable pub fresh_heatmap : ℕ → ℕ → Heatmap
fresh_heatmap id rank = record {
  id = id;
  rank = rank;
  bin_width = initial_bin_width;
  nbins = max_heatmap_bins;
  write_bins = replicate 200 0;
  read_bins = replicate 200 0;
}

unfoldable pub heatmap_cleanup : {H : Type 0} → Runtime H → Option (Runtime H)
heatmap_cleanup rt = none

-- A missing runtime is started first, with the lock dropped: `theirs` is the runtime that another
-- thread has started by then. If only the other thread got one, it is lost.
unfoldable pub chosen_runtime :
    {H : Type 0} → Option (Runtime H) → Option (Runtime H) → Option (Runtime H)
chosen_runtime (some theirs) (some tmp) = some theirs
chosen_runtime none tmp = tmp
chosen_runtime (some theirs) none = none

module _ {T H : Type 0} ⦃h : Uthash Heatmap H⦄ where
  unfoldable pub start_runtime :
      Bool → Option (Core T) → Option Grant → Option (Core T) × Option (Runtime H)
  start_runtime alloc core none = (core, none)
  start_runtime alloc core (some g) =
      if alloc
      then (core, some (record { rec_id_hash = h.empty; rec_count = 0; frozen = false }))
      else (unregister_module core heatmap_mod, none)

  unfoldable pub heatmap_runtime_initialize :
      Env T → Option (Core T) → Option (Core T) × Option (Runtime H)
  unfolding start_runtime
  heatmap_runtime_initialize env core =
      let (core', grant) =
        register_module env.alloc_module env.my_rank core heatmap_mod heatmap_size max_heatmaps in
      start_runtime env.alloc_runtime core' grant

module _ {T H : Type 0} ⦃n : Uthash NameRef T⦄ ⦃h : Uthash Heatmap H⦄ where
  -- The reference enters the table before the record is registered and leaves it again on failure.
  unfoldable pub heatmap_track_new_record :
      Env T → Option (Core T) → Runtime H → ℕ → Bytes → Option (Core T) × Runtime H
  unfolding returned fresh_heatmap
  heatmap_track_new_record env core rt id name =
      if not env.alloc_ref || not env.alloc_tracker
      then (core, rt)
      else (let hm = fresh_heatmap id env.my_rank in
          let added = h.add rt.rec_id_hash id hm in
          let (core', out) =
            core_register_record env.meanwhile env.alloc_name core id (some name) heatmap_mod
              heatmap_size in
          if returned out
          then (core', record rt { rec_id_hash = added; rec_count = rt.rec_count + 1 })
          else (core', record rt { rec_id_hash = h.delete added id }))

  -- The second half of heatmap_register, with the runtime that is there by then.
  unfoldable pub register_heatmap :
      Env T
      → Option (Core T)
      → Option (Runtime H)
      → Bytes
      → Option (Core T) × Option (Runtime H) × ℕ
  unfolding heatmap_track_new_record
  register_heatmap env core none name = (core, none, 0)
  register_heatmap env core (some rt) name =
      let id = env.gen_record_id name in
      elim (h.find rt.rec_id_hash id) [
        | some hm ↦ (core, some rt, id)
        | none ↦
            let (core', rt') = heatmap_track_new_record env core rt id name in (core', some rt', id)
      ]

  unfoldable pub heatmap_register :
      Env T
      → Option (Runtime H)
      → Option (Core T)
      → Option (Runtime H)
      → Bytes
      → Option (Core T) × Option (Runtime H) × ℕ
  unfolding heatmap_runtime_initialize register_heatmap chosen_runtime
  heatmap_register env theirs core (some rt) name = register_heatmap env core (some rt) name
  heatmap_register env theirs core none name =
      let (core', tmp) = heatmap_runtime_initialize {H = H} env core in
      register_heatmap env core' (chosen_runtime theirs tmp) name
