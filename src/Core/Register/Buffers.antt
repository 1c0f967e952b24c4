-- ===== src/Core/Register/Buffers.antt =====
-- The buffers that darshan_core_register_record returns do not overlap.
use darshan.Prelude.{
  ℕ, ◌+◌, ◌-◌, ◌≤◌, ◌≡◌, ◌≢◌, ◌⊎◌, ltb, Bool, false, Option, some, none, arith, get_or-set,
  lt-length_of_get_or, Bool-cases, Option-cases, inl, inr, ◌∙◌, ap, sym,
}
use darshan.Prelude.Hash.{Uthash}
use darshan.Core.State.{Bytes, Module, NameRef, Core, module_at, is_dxt}
use darshan.Core.Exclude.{name_is_excluded}
use darshan.Core.Names.{update_name_record_ref}
use darshan.Core.Register.{buffer, take_record, register_record}
use darshan.Core.Register.Inv.{IsValid, region_end}
use darshan.Core.Register.Records.{Quiet, no_wrap, named-IsValid, register_record-IsValid}
use native.Mathlib.Decide.{ℕ_discrete}
use mathlib.Core.Path.{subst}

-- A module after a record of `size` bytes is taken from it.
abbrev pub taken : Module → ℕ → Module
taken m size = record m { rec_buf_p = m.rec_buf_p + size; rec_mem_avail = m.rec_mem_avail - size }

-- What a buffer at `p` says of the runtime before and after.
pub record Took {T : Type 0} (c c' : Core T) (i p size : ℕ) : Type 0 where
  pub owner : Module
  pub owned : module_at c i ≡ some owner
  pub address : p ≡ owner.rec_buf_p
  pub room : size ≤ owner.rec_mem_avail
  pub after : module_at c' i ≡ some (taken owner size)

module _ {T : Type 0} where
  take_record-Took :
      (c : Core T) (i : ℕ) (m : Module) (size p : ℕ)
      → IsValid c
      → is_dxt i ≡ false
      → module_at c i ≡ some m
      → size ≤ m.rec_mem_avail
      → (take_record c i size).1 ≡ buffer p
      → Took c (take_record c i size).0 i p size
  unfolding take_record
  take_record-Took c i m size p v plain here room out =
      let w = no_wrap c i m size v here plain room in
      record {
        owner = m;
        owned = here;
        address = let out' = rw (here, take_record, plain) at out in cc;
        room = room;
        after =
            rw (here, take_record, plain, w.0, w.1)
              (ground (
                arith,
                get_or-set c.mod_array i i (some (taken m size)) none,
                lt-length_of_get_or c.mod_array i m here,
              ));
      }

module _ {T : Type 0} ⦃h : Uthash NameRef T⦄ where
  register_record-Took :
      (meanwhile : Core T → Core T) (alloc : Bool) (c c' : Core T) (rec_id : ℕ)
      (name : Option Bytes) (i size p : ℕ)
      → IsValid c
      → Quiet meanwhile i c
      → is_dxt i ≡ false
      → register_record meanwhile alloc c rec_id name i size ≡ (c', buffer p)
      → Took c c' i p size
  unfolding register_record
  register_record-Took meanwhile alloc c c' rec_id name i size p v q plain e =
      elim (Option-cases (module_at c i)) [
        | inl absent ↦ let e' = rw (absent, register_record) at e in cc
        | inr (m, here) ↦ elim (Bool-cases (ltb m.rec_mem_avail size)) [
          | inl full ↦ let e' = rw (here, register_record, full) at e in cc
          | inr room ↦ elim (Bool-cases (name_is_excluded c.config name i)) [
            | inl out ↦ let e' = rw (here, register_record, room, out) at e in cc
            | inr kept ↦
                elim (Bool-cases (update_name_record_ref meanwhile alloc c rec_id name i).1) [
                  | inl done ↦
                      let e' = rw (here, register_record, room, kept, done) at e in
                      let (v', same) = named-IsValid meanwhile alloc c rec_id name i v q in
                      let c₁ = (update_name_record_ref meanwhile alloc c rec_id name i).0 in
                      let t =
                        take_record-Took c₁ i m size p v' plain (same ∙ here) (ground arith) (cc) in
                      let end : (take_record c₁ i size).0 ≡ c' = cc in
                      record {
                        owner = t.owner;
                        owned = sym same ∙ t.owned;
                        address = t.address;
                        room = t.room;
                        after = rw (← end) t.after;
                      }
                  | inr failed ↦ let e' = rw (here, register_record, room, kept, failed) at e in cc
                ]
          ]
        ]
      ]

  -- A buffer that a registration returns to a module other than DXT lies in the region of its
  -- module, behind every record that the module already has, and outside the regions of all other
  -- modules. The module keeps the rest of its region, which starts where the buffer ends. The
  -- regions are apart and in budget before, and other threads meanwhile keep them so and leave
  -- the module alone.
  pub register_record_buffer :
      (meanwhile : Core T → Core T) (alloc : Bool) (c c' : Core T) (rec_id : ℕ)
      (name : Option Bytes) (mod_id rec_size p : ℕ)
      → IsValid c
      → Quiet meanwhile mod_id c
      → is_dxt mod_id ≡ false
      → register_record meanwhile alloc c rec_id name mod_id rec_size ≡ (c', buffer p)
      → (m : Module) × (module_at c mod_id ≡ some m)
        × (m.rec_buf_p ≡ p)
        × (p + rec_size ≤ region_end m)
        × (p + rec_size ≤ c.config.mod_mem)
        × (module_at c' mod_id ≡ some (taken m rec_size))
        × ((j : ℕ) (n : Module)
            → mod_id ≢ j
            → module_at c j ≡ some n
            → is_dxt j ≡ false
            → (p + rec_size ≤ n.rec_buf_start) ⊎ (region_end n ≤ p))
  register_record_buffer meanwhile alloc c c' rec_id name i size p v q plain e =
      let t = register_record-Took meanwhile alloc c c' rec_id name i size p v q plain e in
      let f = v.fits i t.owner t.owned plain in
      (
        t.owner,
        t.owned,
        sym t.address,
        omega (arith, t.address, t.room),
        omega (arith, t.address, t.room, f, v.budget),
        t.after,
        λ j n ne at_j dxt_j.
            omega (arith, t.address, t.room, f, v.apart i j t.owner n ne t.owned at_j plain dxt_j),
      )

  -- The buffers of two registrations, one after the other, of the same or of different modules
  -- other than DXT, do not overlap, if the module regions are apart and in budget before the
  -- first, and other threads meanwhile keep them so and leave the registering module alone.
  pub register_record_disjoint :
      (meanwhile meanwhile' : Core T → Core T) (alloc alloc' : Bool) (c c' c'' : Core T)
      (rec_id rec_id' : ℕ) (name name' : Option Bytes) (i j size size' p q : ℕ)
      → IsValid c
      → Quiet meanwhile i c
      → Quiet meanwhile' j c'
      → is_dxt i ≡ false
      → is_dxt j ≡ false
      → register_record meanwhile alloc c rec_id name i size ≡ (c', buffer p)
      → register_record meanwhile' alloc' c' rec_id' name' j size' ≡ (c'', buffer q)
      → (p + size ≤ q) ⊎ (q + size' ≤ p)
  register_record_disjoint meanwhile meanwhile' alloc alloc' c c' c'' rec_id rec_id' name name' i j
        size size' p q v quiet quiet' plain plain' e e' =
      let v' : IsValid c' =
        subst IsValid (ap (λ r. r.0) e)
          (register_record-IsValid meanwhile alloc c rec_id name i size v quiet) in
      let t = register_record-Took meanwhile alloc c c' rec_id name i size p v quiet plain e in
      let u =
        register_record-Took meanwhile' alloc' c' c'' rec_id' name' j size' q v' quiet' plain' e' in
      let f = v'.fits j u.owner u.owned plain' in
      let g = v.fits i t.owner t.owned plain in
      elim (ℕ_discrete i j) [
        | yes same ↦ ground (arith, t.address, t.after, u.owned, u.address, t.room, u.room)
        | no other ↦ omega (
          arith,
          t.address,
          t.room,
          u.address,
          u.room,
          f,
          g,
          v'.apart i j (taken t.owner size) u.owner other t.after u.owned plain plain',
        )
      ]
