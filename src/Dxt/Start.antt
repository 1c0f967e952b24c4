-- ===== src/Dxt/Start.antt =====
-- Starting a DXT module: darshan-core's registration gives the balance that tracing keeps.
use darshan.Prelude.{
  ℕ, ◌*◌, ◌<◌, ◌≡◌, Bool, true, false, not, ◌||◌, Option, none, some, arith, refl, length,
  Bool-cases, inl, inr,
}
use darshan.Prelude.Hash.{Uthash, total}
use darshan.Prelude.Words.{mul_size, mul_size-le}
use darshan.Core.State.{Module, Core, module_at, is_dxt, known_module_count}
use darshan.Core.Register.{
  Grant, register_module, registration_refused, add_module, enter_module, records_requested,
}
use darshan.Core.Register.Modules.{module_at-enter}
use darshan.Dxt.State.{RecordRef, Runtime, def_record_size}
use darshan.Dxt.Output.{start_runtime, initialize}
use darshan.Dxt.Inv.{Balanced}

-- A core and a runtime, where each may be missing; a runtime comes with a core.
abbrev pub Started :
    {T R : Type 0} → ⦃d : Uthash RecordRef R⦄ → ℕ → Option (Core T) → Option (Runtime R) → Type 0
Started i core none = Unit
Started i none (some rt) = ⊥
Started i (some c) (some rt) = Balanced i c rt

module _ {T : Type 0} (R : Type 0) ⦃d : Uthash RecordRef R⦄ where
  start_runtime-Started :
      (alloc : Bool) (i : ℕ) (c : Core T) (g : Grant) (owner : Module)
      → module_at c i ≡ some owner
      → owner.rec_mem_avail ≡ mul_size g.rec_count def_record_size
      → mul_size g.rec_count def_record_size < 2147483648
      → Started {R = R} i
          (start_runtime {R = R} alloc i (some c) (some g)).0
          (start_runtime {R = R} alloc i (some c) (some g)).1
  unfolding start_runtime total
  start_runtime-Started true i c g owner here room small = record {
    owner = owner;
    registered = here;
    balance = rw (d.iter-empty, total) (omega (arith, room));
    small = small;
    fit = rw d.iter-empty tt;
  }
  start_runtime-Started false i c g owner here room small = tt

  -- A DXT module that starts on a core with an entry for each module is balanced, whichever
  -- allocation fails, when the records it asks for fit an `int`.
  pub initialize-Started :
      (alloc_mod alloc : Bool) (my_rank i : ℕ) (c : Core T)
      → is_dxt i ≡ true
      → length c.mod_array ≡ known_module_count
      → records_requested c.config i 2048 * def_record_size < 2147483648
      → let (core', rt) = initialize {R = R} alloc_mod alloc my_rank i (some c) in
        Started i core' rt
  unfolding initialize register_module add_module registration_refused
  initialize-Started alloc_mod alloc my_rank i c dxt len small =
      let req = records_requested c.config i 2048 in
      elim (Bool-cases (not alloc_mod || registration_refused c i)) [
        | inl refused ↦ rw (initialize, register_module, refused) tt
        | inr free ↦
            let inside : i < known_module_count = ground (arith, free) in
            let m : Module = record {
              rec_buf_start = 0;
              rec_buf_p = 0;
              rec_mem_avail = mul_size req def_record_size;
            } in
            let here : module_at (enter_module c i m) i ≡ some m =
              ground (arith, module_at-enter c i i m len inside) in
            let g : Grant = record {
              rec_count = req;
              rank = my_rank;
              mem_alignment = c.config.mem_alignment;
            } in
            rw (initialize, register_module, free, add_module, dxt)
              (start_runtime-Started alloc i (enter_module c i m) g m here refl
                (omega (arith, mul_size-le req def_record_size)))
      ]
