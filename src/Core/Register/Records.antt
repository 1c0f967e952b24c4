-- ===== src/Core/Register/Records.antt =====
-- darshan_core_register_record: where a record lies in the module memory.
use darshan.Prelude.{
  ℕ, ◌+◌, ◌-◌, ◌≤◌, ◌≡◌, ltb, Bool, false, Option, some, none, arith, set, get_or-set, length-set,
  Bool-cases, Option-cases, refl, inl, inr, ◌∙◌,
}
use darshan.Prelude.Hash.{Uthash}
use darshan.Prelude.Words.{add_size, sub_size, add_size-eq, sub_size-eq}
use darshan.Core.State.{Bytes, Module, NameRef, Core, module_at, is_dxt}
use darshan.Core.Exclude.{name_is_excluded}
use darshan.Core.Names.{update_name_record_ref}
use darshan.Core.Names.Frame.{SameModules, locked_core, update_name_record_ref-SameModules}
use darshan.Core.Register.{set_partial, take_record, register_record}
use darshan.Core.Register.Inv.{IsValid, region_end}

-- What other threads may do while the lock is dropped: anything that keeps the regions apart and
-- leaves the calling module alone, whose own lock its caller holds.
pub record Quiet {T : Type 0} (meanwhile : Core T → Core T) (mod_id : ℕ) (c : Core T) : Type 0 where
  pub valid : IsValid (meanwhile c)
  pub same : module_at (meanwhile c) mod_id ≡ module_at c mod_id

SameModules-IsValid : {T : Type 0} (c d : Core T) → SameModules c d → IsValid c → IsValid d
SameModules-IsValid c d s v = record {
  modules = rw s.mod_array v.modules;
  budget = rw (s.mod_mem_used, s.config) v.budget;
  small = rw s.config v.small;
  fits = rw (s.mod_array, s.mod_mem_used) v.fits;
  apart = rw s.mod_array v.apart;
}

-- A module may shrink its region.
shrink-IsValid :
    {T : Type 0} (c : Core T) (i : ℕ) (m m' : Module)
    → IsValid c
    → module_at c i ≡ some m
    → m'.rec_buf_start ≡ m.rec_buf_start
    → (is_dxt i ≡ false → m.rec_buf_p ≤ m'.rec_buf_p)
    → (is_dxt i ≡ false → region_end m' ≤ region_end m)
    → IsValid (record c { mod_array = set c.mod_array i (some m') })
shrink-IsValid c i m m' v here start grown less = record {
  modules = rw length-set v.modules;
  budget = v.budget;
  small = v.small;
  fits = λ j n at_j dxt_j.
      ground (arith, get_or-set c.mod_array i j (some m') none, v.fits j n, v.fits i m);
  apart = λ j k n o ne at_j at_k dxt_j dxt_k. ground (
    arith,
    get_or-set c.mod_array i j (some m') none,
    get_or-set c.mod_array i k (some m') none,
    v.apart j k n o ne,
    v.apart i k m o,
    v.apart j i n m,
  );
}

-- The arithmetic of taking a record from a module that is not DXT does not wrap.
module _ {T : Type 0} (c : Core T) (i : ℕ) (m : Module) (size : ℕ) (v : IsValid c) where
  pub no_wrap :
      module_at c i ≡ some m
      → is_dxt i ≡ false
      → size ≤ m.rec_mem_avail
      → (add_size m.rec_buf_p size ≡ m.rec_buf_p + size)
        × (sub_size m.rec_mem_avail size ≡ m.rec_mem_avail - size)
        × (m.rec_buf_p + m.rec_mem_avail ≤ c.mod_mem_used)
        × (m.rec_buf_start ≤ m.rec_buf_p)
  no_wrap here plain room =
      let f = v.fits i m here plain in
      (
        add_size-eq m.rec_buf_p size (omega (arith, f, v.budget, v.small)),
        sub_size-eq m.rec_mem_avail size room (omega (arith, f, v.budget, v.small)),
        f.1,
        f.0,
      )

  take_record-IsValid :
      module_at c i ≡ some m → size ≤ m.rec_mem_avail → IsValid (take_record c i size).0
  unfolding take_record
  take_record-IsValid here room = elim (Bool-cases (is_dxt i)) [
    | inl dxt ↦
        rw (here, take_record, dxt)
          (shrink-IsValid c i m _ v here refl (λ e. ground arith) (λ e. ground arith))
    | inr plain ↦
        let w = no_wrap here plain room in
        rw (here, take_record, plain)
          (shrink-IsValid c i m _ v here refl (λ e. omega (arith, w)) (λ e. omega (arith, w)))
  ]

module _ {T : Type 0} where
  set_partial-IsValid : (c : Core T) (i : ℕ) → IsValid c → IsValid (set_partial c i)
  unfolding set_partial
  set_partial-IsValid c i v = record {
    modules = v.modules;
    budget = v.budget;
    small = v.small;
    fits = v.fits;
    apart = v.apart;
  }

module _ {T : Type 0} ⦃h : Uthash NameRef T⦄ where
  -- The runtime after the name is registered is valid, and the module is as it was.
  pub named-IsValid :
      (meanwhile : Core T → Core T) (alloc : Bool) (c : Core T) (rec_id : ℕ) (name : Option Bytes)
      (i : ℕ)
      → IsValid c
      → Quiet meanwhile i c
      → let c' = (update_name_record_ref meanwhile alloc c rec_id name i).0 in
        IsValid c' × (module_at c' i ≡ module_at c i)
  unfolding locked_core
  named-IsValid meanwhile alloc c rec_id name i v q =
      let s = update_name_record_ref-SameModules meanwhile alloc c rec_id name i in
      elim (Option-cases (h.find c.name_hash rec_id)) [
        | inl absent ↦
            let s' = rw (absent, locked_core) at s in
            (SameModules-IsValid (meanwhile c) _ s' q.valid, rw s'.mod_array q.same)
        | inr (ref, found) ↦
            let s' = rw (found, locked_core) at s in
            (SameModules-IsValid c _ s' v, rw s'.mod_array refl)
      ]

  -- Registering a record, on every branch, keeps the regions of all modules apart and in budget,
  -- if other threads meanwhile do so too and leave the registering module alone.
  pub register_record-IsValid :
      (meanwhile : Core T → Core T) (alloc : Bool) (c : Core T) (rec_id : ℕ) (name : Option Bytes)
      (mod_id rec_size : ℕ)
      → IsValid c
      → Quiet meanwhile mod_id c
      → IsValid (register_record meanwhile alloc c rec_id name mod_id rec_size).0
  unfolding register_record
  register_record-IsValid meanwhile alloc c rec_id name i size v q =
      let (v', same) = named-IsValid meanwhile alloc c rec_id name i v q in
      let (c', named) = update_name_record_ref meanwhile alloc c rec_id name i in
      elim (Option-cases (module_at c i)) [
        | inl absent ↦ rw (absent, register_record) v
        | inr (m, here) ↦ elim (Bool-cases (ltb m.rec_mem_avail size)) [
          | inl full ↦ rw (here, register_record, full) (set_partial-IsValid c i v)
          | inr room ↦ elim (Bool-cases (name_is_excluded c.config name i)) [
            | inl out ↦ rw (here, register_record, room, out) v
            | inr kept ↦ elim (Bool-cases named) [
              | inl done ↦
                  rw (here, register_record, room, kept, done)
                    (take_record-IsValid c' i m size v' (same ∙ here) (ground arith))
              | inr failed ↦
                  rw (here, register_record, room, kept, failed) (set_partial-IsValid c' i v')
            ]
          ]
        ]
      ]
