-- ===== src/Core/Names/Frame.antt =====
-- What the name record functions of darshan-core.c leave alone.
use darshan.Prelude.{
  ℕ, ◌≡◌, Bool, true, false, Option, none, some, [], inl, inr, arith, Option-cases,
}
use mathlib.Core.Option.{get_or}
use darshan.Prelude.Hash.{Uthash}
use darshan.Core.State.{Bytes, NameRef, Core}
use darshan.Core.Names.{update_name_record_ref, set_name_record, add_name_record_ref, zero_ref}

-- Two states of the runtime with the same modules.
pub record SameModules {T : Type 0} (c d : Core T) : Type 0 where
  pub mod_array : d.mod_array ≡ c.mod_array
  pub mod_mem_used : d.mod_mem_used ≡ c.mod_mem_used
  pub config : d.config ≡ c.config
  pub log_hdr : d.log_hdr ≡ c.log_hdr

module _ {T : Type 0} ⦃h : Uthash NameRef T⦄ where
  -- The runtime as it is once the lock is held for good: after `malloc`, if there was no reference.
  unfoldable pub locked_core : (Core T → Core T) → Core T → ℕ → Core T
  locked_core meanwhile c rec_id = elim (h.find c.name_hash rec_id) [
    | some ref ↦ c
    | none ↦ meanwhile c
  ]

  set_name_record-SameModules :
      (c : Core T) (rec_id : ℕ) (name : Bytes) (mod_id : ℕ) (is_new : Bool) (ref : NameRef)
      → SameModules c (set_name_record c rec_id name mod_id is_new ref).0
  unfolding set_name_record
  set_name_record-SameModules c rec_id name mod_id is_new ref = ground arith

  add_name_record_ref-SameModules :
      (alloc : Bool) (c : Core T) (rec_id : ℕ) (name : Bytes) (mod_id : ℕ)
      → SameModules c (add_name_record_ref alloc c rec_id name mod_id).0
  unfolding add_name_record_ref
  add_name_record_ref-SameModules alloc c rec_id name mod_id = ground (
    arith,
    λ (ref : NameRef). set_name_record-SameModules c rec_id name mod_id false ref,
    set_name_record-SameModules c rec_id name mod_id true zero_ref,
  )

  pub update_name_record_ref-SameModules :
      (meanwhile : Core T → Core T) (alloc : Bool) (c : Core T) (rec_id : ℕ) (name : Option Bytes)
      (mod_id : ℕ)
      → SameModules
          (locked_core meanwhile c rec_id)
          (update_name_record_ref meanwhile alloc c rec_id name mod_id).0
  unfolding update_name_record_ref locked_core
  update_name_record_ref-SameModules meanwhile alloc c rec_id name mod_id =
      elim (Option-cases (h.find c.name_hash rec_id)) [
        | inl absent ↦
            rw (absent, update_name_record_ref, locked_core)
              (add_name_record_ref-SameModules alloc (meanwhile c) rec_id (get_or name []) mod_id)
        | inr (ref, found) ↦
            rw (found, update_name_record_ref, locked_core)
              (set_name_record-SameModules c rec_id (get_or name []) mod_id false ref)
      ]
