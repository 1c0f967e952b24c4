-- ===== src/Core/Register.antt =====
-- darshan_core_register_module, darshan_core_unregister_module and darshan_core_register_record of
-- darshan-runtime/lib/darshan-core.c. The global `__darshan_core` is an option: `none` is NULL, when
-- nothing is instrumented. The modules' callbacks are not held.
pub mod Inv
pub mod Modules
pub mod Records
pub mod Buffers
pub mod Refused
pub mod Granted
use darshan.Prelude.{
  ℕ, ◌/◌, ltb, leb, ◌==◌, if◌then◌else◌, Bool, true, false, not, ◌&&◌, ◌||◌, Option, none, some,
  List, [], ◌∷◌, get_or, set,
}
use mathlib.Core.Option
use darshan.Prelude.Hash.{Uthash}
use darshan.Prelude.Bits.{mod_flag_set, mod_flag_isset}
use darshan.Prelude.Words.{add_size, sub_size, mul_size, int_of_size}
use darshan.Core.State.{
  Bytes, Module, Config, Core, NameRef, FsInfo, MntData, apmpi_mod, heatmap_mod, is_dxt,
  known_module_count, module_versions, module_at,
}
use darshan.Core.Exclude.{name_is_excluded, fs_info_from_path}
use darshan.Core.Names.{update_name_record_ref}

-- What a successful registration hands back through its out parameters.
pub record Grant : Type 0 where
  pub rec_count : ℕ
  pub rank : ℕ
  pub mem_alignment : ℕ

-- The number of records to reserve; an override of 0 is no override, and modules with a static
-- record count ignore it.
unfoldable pub records_requested : Config → ℕ → ℕ → ℕ
records_requested cfg mod_id req =
    let override = get_or cfg.mod_max_records_override mod_id 0 in
    if not (override == 0) && not (mod_id == heatmap_mod) && not (mod_id == apmpi_mod)
    then override
    else req

-- The memory reserved for `req` records of `rec_size` bytes out of `avail`, and how many fit.
unfoldable pub reserve : ℕ → ℕ → ℕ → ℕ × ℕ
reserve avail rec_size req =
    let mem_req = mul_size req rec_size in
    if leb mem_req avail
    then (mem_req, req)
    else (let count = int_of_size (avail / rec_size) in (mul_size count rec_size, count))

unfoldable pub is_some_module : Option Module → Bool
is_some_module none = false
is_some_module (some m) = true

module _ {T : Type 0} where
  -- The four reasons to fail, after the one that the runtime is off.
  unfoldable pub registration_refused : Core T → ℕ → Bool
  unfolding is_some_module
  registration_refused c mod_id =
      leb known_module_count mod_id
      || is_some_module (module_at c mod_id)
      || mod_flag_isset c.config.mod_disabled mod_id

  unfoldable pub enter_module : Core T → ℕ → Module → Core T
  enter_module c mod_id m = record c {
    log_hdr = record (c.log_hdr) {
      mod_ver = set c.log_hdr.mod_ver mod_id (get_or module_versions mod_id 0);
    };
    mod_array = set c.mod_array mod_id (some m);
  }

  -- A module that is not DXT gets a region of the module memory; DXT modules allocate their own.
  unfoldable pub add_module : Core T → ℕ → ℕ → ℕ → Core T × ℕ
  unfolding enter_module records_requested reserve
  add_module c mod_id rec_size rec_count =
      let req = records_requested c.config mod_id rec_count in
      if not (is_dxt mod_id)
      then (let (mem, count) = reserve (sub_size c.config.mod_mem c.mod_mem_used) rec_size req in
          (
            enter_module (record c { mod_mem_used = add_size c.mod_mem_used mem }) mod_id
                (record {
                  rec_buf_start = c.mod_mem_used;
                  rec_buf_p = c.mod_mem_used;
                  rec_mem_avail = mem;
                }),
            count,
          ))
      else (
        enter_module c mod_id
            (record { rec_buf_start = 0; rec_buf_p = 0; rec_mem_avail = mul_size req rec_size }),
        req,
      )

  -- `alloc` is whether `malloc` succeeds; `none` is a return of -1, with `*inout_rec_count` 0.
  unfoldable pub register_module :
      Bool → ℕ → Option (Core T) → ℕ → ℕ → ℕ → Option (Core T) × Option Grant
  unfolding add_module registration_refused
  register_module alloc my_rank none mod_id rec_size rec_count = (none, none)
  register_module alloc my_rank (some c) mod_id rec_size rec_count =
      if not alloc || registration_refused c mod_id
      then (some c, none)
      else (let (c', count) = add_module c mod_id rec_size rec_count in
          (
            some c',
            some (record {
              rec_count = count;
              rank = my_rank;
              mem_alignment = c.config.mem_alignment;
            }),
          ))

  unfoldable pub unregister_module : Option (Core T) → ℕ → Option (Core T)
  unregister_module none mod_id = none
  unregister_module (some c) mod_id = some (record c {
    log_hdr = record (c.log_hdr) { mod_ver = set c.log_hdr.mod_ver mod_id 0 };
    mod_array = set c.mod_array mod_id none;
  })

-- `buffer` is the offset of the record in the module memory, `granted` the non-NULL value that a DXT
-- module gets, and `fault` the access through a NULL entry of `mod_array`.
pub data Outcome : Type 0 where
  fault null granted : Outcome
  buffer : ℕ → Outcome

module _ {T : Type 0} where
  unfoldable pub set_partial : Core T → ℕ → Core T
  set_partial c mod_id = record c {
    log_hdr = record (c.log_hdr) { partial_flag = mod_flag_set c.log_hdr.partial_flag mod_id };
  }

  -- After the name is registered: the record's memory is taken from the module.
  unfoldable pub take_record : Core T → ℕ → ℕ → Core T × Outcome
  take_record c mod_id rec_size = elim (module_at c mod_id) [
    | none ↦ (c, fault)
    | some m ↦
        let avail = sub_size m.rec_mem_avail rec_size in
        if not (is_dxt mod_id)
        then (
          record c {
            mod_array = set c.mod_array mod_id (
                some
                  (record m { rec_mem_avail = avail; rec_buf_p = add_size m.rec_buf_p rec_size }));
          },
          buffer m.rec_buf_p,
        )
        else (
          record c {
            mod_array = set c.mod_array mod_id (some (record m { rec_mem_avail = avail }));
          },
          granted,
        )
  ]

module _ {T : Type 0} ⦃h : Uthash NameRef T⦄ where
  -- The body with the lock held, while Darshan is instrumenting.
  unfoldable pub register_record :
      (Core T → Core T) → Bool → Core T → ℕ → Option Bytes → ℕ → ℕ → Core T × Outcome
  unfolding set_partial take_record
  register_record meanwhile alloc c rec_id name mod_id rec_size = elim (module_at c mod_id) [
    | none ↦ (c, fault)
    | some m ↦
        if ltb m.rec_mem_avail rec_size
        then (set_partial c mod_id, null)
        else (if name_is_excluded c.config name mod_id
            then (c, null)
            else (let (c', named) = update_name_record_ref meanwhile alloc c rec_id name mod_id in
                let done = take_record c' mod_id rec_size in
                if named then done else (set_partial c' mod_id, null)))
  ]

  unfoldable pub core_register_record :
      (Core T → Core T)
      → Bool
      → Option (Core T)
      → ℕ
      → Option Bytes
      → ℕ
      → ℕ
      → Option (Core T) × Outcome
  core_register_record meanwhile alloc none rec_id name mod_id rec_size = (none, null)
  core_register_record meanwhile alloc (some c) rec_id name mod_id rec_size =
      let (c', out) = register_record meanwhile alloc c rec_id name mod_id rec_size in
      (some c', out)

-- The end of darshan_core_register_record: the file system of a record that was registered.
unfoldable pub record_fs_info : List MntData → Outcome → Bytes → Option FsInfo
record_fs_info mounts (buffer p) name = fs_info_from_path mounts name
record_fs_info mounts granted name = fs_info_from_path mounts name
record_fs_info mounts null name = none
record_fs_info mounts fault name = none
