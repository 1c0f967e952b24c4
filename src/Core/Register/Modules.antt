-- ===== src/Core/Register/Modules.antt =====
-- darshan_core_register_module and darshan_core_unregister_module keep the module memory apart.
use darshan.Prelude.{
  ℕ, ◌+◌, ◌*◌, ◌-◌, ◌/◌, ◌≤◌, ◌<◌, ◌≡◌, inl, inr, refl, ◌==◌, Bool, true, false, not, ◌||◌, Option,
  some, none, length, arith, get_or-set, length-set, Bool-cases, if◌then◌else◌,
}
use darshan.Prelude.Words.{add_size-eq, sub_size-eq, mul_size-le, int_of_size-eq}
use darshan.Prelude.Words.{add_size, sub_size}
use darshan.Core.State.{Module, Core, module_at, is_dxt, known_module_count}
use darshan.Core.Register.{
  reserve, records_requested, enter_module, add_module, register_module, unregister_module,
  registration_refused,
}
use darshan.Core.Register.Inv.{IsValid}

div-mul-le : (a b : ℕ) → a / b * b ≤ a
div-mul-le a b = grind arith

div-le : (a b : ℕ) → a / b ≤ a
div-le a b = grind arith

-- What is reserved fits what is available.
reserve-le : (avail rec_size req : ℕ) → avail < 2147483648 → (reserve avail rec_size req).0 ≤ avail
unfolding reserve
reserve-le avail rec_size req h = ground (
  arith,
  div-mul-le avail rec_size,
  div-le avail rec_size,
  int_of_size-eq (avail / rec_size),
  mul_size-le (avail / rec_size) rec_size,
)

module _ {T : Type 0} where
  pub module_at-enter :
      (c : Core T) (i j : ℕ) (m : Module)
      → length c.mod_array ≡ known_module_count
      → i < known_module_count
      → module_at (enter_module c i m) j ≡ (if i == j then some m else module_at c j)
  unfolding enter_module
  module_at-enter c i j m len h = ground (arith, get_or-set c.mod_array i j (some m) none)

  enter_fresh-IsValid :
      (c : Core T) (i mem : ℕ)
      → IsValid c
      → i < known_module_count
      → mem ≤ c.config.mod_mem - c.mod_mem_used
      → (m : Module)
      → m
        ≡ record { rec_buf_start = c.mod_mem_used; rec_buf_p = c.mod_mem_used; rec_mem_avail = mem }
      → IsValid (enter_module (record c { mod_mem_used = c.mod_mem_used + mem }) i m)
  unfolding enter_module
  enter_fresh-IsValid c i mem v h room m e = record {
    modules = rw length-set v.modules;
    budget = omega (arith, v.budget);
    small = v.small;
    fits = λ j n at_j dxt_j.
        ground (arith, get_or-set c.mod_array i j (some m) none, v.fits j n, v.modules, v.budget);
    apart = λ j k n o ne at_j at_k dxt_j dxt_k. ground (
      arith,
      get_or-set c.mod_array i j (some m) none,
      get_or-set c.mod_array i k (some m) none,
      v.fits j n,
      v.fits k o,
      v.apart j k n o ne,
      v.modules,
    );
  }

  enter_dxt-IsValid :
      (c : Core T) (i : ℕ) (m : Module)
      → IsValid c
      → i < known_module_count
      → is_dxt i ≡ true
      → IsValid (enter_module c i m)
  unfolding enter_module
  enter_dxt-IsValid c i m v h dxt = record {
    modules = rw length-set v.modules;
    budget = v.budget;
    small = v.small;
    fits = λ j n at_j dxt_j.
        ground (arith, get_or-set c.mod_array i j (some m) none, v.fits j n, v.modules);
    apart = λ j k n o ne at_j at_k dxt_j dxt_k. ground (
      arith,
      get_or-set c.mod_array i j (some m) none,
      get_or-set c.mod_array i k (some m) none,
      v.apart j k n o ne,
      v.modules,
    );
  }

  add_module-IsValid :
      (c : Core T) (i rec_size rec_count : ℕ)
      → IsValid c
      → i < known_module_count
      → IsValid (add_module c i rec_size rec_count).0
  unfolding add_module
  add_module-IsValid c i rec_size rec_count v h = elim (Bool-cases (is_dxt i)) [
    | inl dxt ↦ rw dxt (enter_dxt-IsValid c i _ v h dxt)
    | inr plain ↦
        let avail = sub_size c.config.mod_mem c.mod_mem_used in
        let req = records_requested c.config i rec_count in
        let mem = (reserve avail rec_size req).0 in
        let left : avail ≡ c.config.mod_mem - c.mod_mem_used =
          sub_size-eq c.config.mod_mem c.mod_mem_used v.budget (omega (arith, v.small)) in
        let room : mem ≤ c.config.mod_mem - c.mod_mem_used =
          omega (arith, left, v.small, reserve-le avail rec_size req) in
        let sum : add_size c.mod_mem_used mem ≡ c.mod_mem_used + mem =
          add_size-eq c.mod_mem_used mem (omega (arith, v.small, v.budget)) in
        rw (plain, sum) (enter_fresh-IsValid c i mem v h room _ refl)
  ]

-- The global runtime: nothing is asked while it is NULL.
abbrev pub AllValid : {T : Type 0} → Option (Core T) → Type 0
AllValid none = Unit
AllValid (some c) = IsValid c

module _ {T : Type 0} where
  -- Registering a module, on every branch, keeps the regions of all modules apart and in budget.
  pub register_module-IsValid :
      (alloc : Bool) (my_rank : ℕ) (core : Option (Core T)) (mod_id rec_size rec_count : ℕ)
      → AllValid core
      → AllValid (register_module alloc my_rank core mod_id rec_size rec_count).0
  unfolding register_module
  register_module-IsValid alloc my_rank none mod_id rec_size rec_count v = tt
  register_module-IsValid alloc my_rank (some c) mod_id rec_size rec_count v =
      elim (Bool-cases (not alloc || registration_refused c mod_id)) [
        | inl refused ↦ rw refused v
        | inr fresh ↦ rw fresh (add_module-IsValid c mod_id rec_size rec_count v (known fresh))
      ]
    where
      known : not alloc || registration_refused c mod_id ≡ false → mod_id < known_module_count
      known fresh = ground arith

  -- Unregistering a module gives no memory back and keeps the other regions apart.
  pub unregister_module-IsValid :
      (core : Option (Core T)) (mod_id : ℕ)
      → AllValid core
      → AllValid (unregister_module core mod_id)
  unfolding unregister_module
  unregister_module-IsValid none mod_id v = tt
  unregister_module-IsValid (some c) i v = record {
    modules = rw length-set v.modules;
    budget = v.budget;
    small = v.small;
    fits = λ j n at_j dxt_j. ground (arith, get_or-set c.mod_array i j none none, v.fits j n);
    apart = λ j k n o ne at_j at_k dxt_j dxt_k. ground (
      arith,
      get_or-set c.mod_array i j none none,
      get_or-set c.mod_array i k none none,
      v.apart j k n o ne,
    );
  }
