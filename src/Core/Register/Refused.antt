-- ===== src/Core/Register/Refused.antt =====
-- What darshan_core_register_record does when it returns no record.
use darshan.Prelude.{
  ℕ, ◌≡◌, ◌⊎◌, ltb, Bool, true, Option, arith, Bool-cases, Option-cases, inl, inr,
}
use darshan.Prelude.Hash.{Uthash}
use darshan.Prelude.Bits.{mod_flag_isset, isset-set}
use darshan.Core.State.{Bytes, NameRef, Core, module_at}
use darshan.Core.Exclude.{name_is_excluded}
use darshan.Core.Names.{update_name_record_ref}
use darshan.Core.Register.{null, set_partial, take_record, register_record}

module _ {T : Type 0} where
  set_partial-isset :
      (c : Core T) (i : ℕ) → mod_flag_isset (set_partial c i).log_hdr.partial_flag i ≡ true
  unfolding set_partial
  set_partial-isset c i = ground (arith, isset-set c.log_hdr.partial_flag i i)

  take_record-ne-null : (c : Core T) (i size : ℕ) → (take_record c i size).1 ≡ null → ⊥
  unfolding take_record
  take_record-ne-null c i size = ground arith

module _ {T : Type 0} ⦃h : Uthash NameRef T⦄ where
  -- A record that a running registration refuses is never lost without a trace: either its name is
  -- excluded, and the runtime is as it was, or the module's partial flag is set in the log header.
  pub register_record_refused :
      (meanwhile : Core T → Core T) (alloc : Bool) (c c' : Core T) (rec_id : ℕ)
      (name : Option Bytes) (mod_id rec_size : ℕ)
      → register_record meanwhile alloc c rec_id name mod_id rec_size ≡ (c', null)
      → ((name_is_excluded c.config name mod_id ≡ true) × (c' ≡ c))
        ⊎ (mod_flag_isset c'.log_hdr.partial_flag mod_id ≡ true)
  unfolding register_record
  register_record_refused meanwhile alloc c c' rec_id name i size e =
      elim (Option-cases (module_at c i)) [
        | inl absent ↦ let e' = rw (absent, register_record) at e in cc
        | inr (m, here) ↦ elim (Bool-cases (ltb m.rec_mem_avail size)) [
          | inl full ↦
              let e' = rw (here, register_record, full) at e in
              let end : set_partial c i ≡ c' = cc in inr (rw (← end) (set_partial-isset c i))
          | inr room ↦ elim (Bool-cases (name_is_excluded c.config name i)) [
            | inl out ↦ let e' = rw (here, register_record, room, out) at e in inl (out, cc)
            | inr kept ↦
                let c₁ = (update_name_record_ref meanwhile alloc c rec_id name i).0 in
                elim (Bool-cases (update_name_record_ref meanwhile alloc c rec_id name i).1) [
                  | inl done ↦
                      let e' = rw (here, register_record, room, kept, done) at e in
                      absurd (take_record-ne-null c₁ i size (cc))
                  | inr failed ↦
                      let e' = rw (here, register_record, room, kept, failed) at e in
                      let end : set_partial c₁ i ≡ c' = cc in
                      inr (rw (← end) (set_partial-isset c₁ i))
                ]
          ]
        ]
      ]
