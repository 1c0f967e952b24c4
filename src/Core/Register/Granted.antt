-- ===== src/Core/Register/Granted.antt =====
-- darshan_core_register_record for the DXT modules, which allocate their own memory and are only
-- told whether there is some left.
use darshan.Prelude.{
  ℕ, ◌-◌, ◌≤◌, ◌<◌, ◌≡◌, ◌⊎◌, ltb, Bool, true, Option, some, none, arith, get_or-set,
  lt-length_of_get_or, Bool-cases, Option-cases, refl, inl, inr, ◌∙◌,
}
use darshan.Prelude.Hash.{Uthash}
use darshan.Prelude.Words.{word, sub_size-eq}
use darshan.Core.State.{Bytes, Module, NameRef, Core, module_at, is_dxt}
use darshan.Core.Exclude.{name_is_excluded}
use darshan.Core.Names.{update_name_record_ref}
use darshan.Core.Names.Frame.{locked_core, update_name_record_ref-SameModules}
use darshan.Core.Register.{Outcome, null, granted, set_partial, take_record, register_record}

-- The module after `size` bytes are granted.
abbrev pub spent : Module → ℕ → Module
spent m size = record m { rec_mem_avail = m.rec_mem_avail - size }

-- The two answers that a registered DXT module gets.
abbrev pub Answer : {T : Type 0} → Core T → ℕ → Module → ℕ → Outcome → Type 0
Answer c' i m size out =
    ((out ≡ null) × (module_at c' i ≡ some m))
    ⊎ ((out ≡ granted) × (size ≤ m.rec_mem_avail) × (module_at c' i ≡ some (spent m size)))

module _ {T : Type 0} where
  module_at-set_partial : (c : Core T) (i j : ℕ) → module_at (set_partial c i) j ≡ module_at c j
  unfolding set_partial
  module_at-set_partial c i j = refl

  take_record-Answer :
      (c : Core T) (i : ℕ) (m : Module) (size : ℕ)
      → is_dxt i ≡ true
      → module_at c i ≡ some m
      → size ≤ m.rec_mem_avail
      → m.rec_mem_avail < word
      → Answer (take_record c i size).0 i m size (take_record c i size).1
  unfolding take_record
  take_record-Answer c i m size dxt here room small =
      let sub = sub_size-eq m.rec_mem_avail size room small in
      rw (here, take_record, dxt, sub)
        (inr (
          refl,
          room,
          ground (
            arith,
            get_or-set c.mod_array i i (some (spent m size)) none,
            lt-length_of_get_or c.mod_array i m here,
          ),
        ))

module _ {T : Type 0} ⦃h : Uthash NameRef T⦄ where
  named-same :
      (meanwhile : Core T → Core T) (alloc : Bool) (c : Core T) (rec_id : ℕ) (name : Option Bytes)
      (i : ℕ)
      → module_at (meanwhile c) i ≡ module_at c i
      → module_at (update_name_record_ref meanwhile alloc c rec_id name i).0 i ≡ module_at c i
  unfolding locked_core
  named-same meanwhile alloc c rec_id name i q =
      let s = update_name_record_ref-SameModules meanwhile alloc c rec_id name i in
      elim (Option-cases (h.find c.name_hash rec_id)) [
        | inl absent ↦ let s' = rw (absent, locked_core) at s in rw s'.mod_array q
        | inr (ref, found) ↦ let s' = rw (found, locked_core) at s in rw s'.mod_array refl
      ]

  -- A registered DXT module gets NULL and keeps all it had left, or the bytes it asks for are
  -- taken from what it had left, which covers them, if other threads leave the module alone
  -- meanwhile and what it has left is below 2^64.
  pub register_record-Answer :
      (meanwhile : Core T → Core T) (alloc : Bool) (c : Core T) (rec_id : ℕ) (name : Option Bytes)
      (mod_id rec_size : ℕ) (m : Module)
      → is_dxt mod_id ≡ true
      → module_at (meanwhile c) mod_id ≡ module_at c mod_id
      → module_at c mod_id ≡ some m
      → m.rec_mem_avail < word
      → let (c', out) = register_record meanwhile alloc c rec_id name mod_id rec_size in
        Answer c' mod_id m rec_size out
  unfolding register_record
  register_record-Answer meanwhile alloc c rec_id name i size m dxt q here small =
      let same = named-same meanwhile alloc c rec_id name i q in
      let (c', named) = update_name_record_ref meanwhile alloc c rec_id name i in
      elim (Bool-cases (ltb m.rec_mem_avail size)) [
        | inl full ↦ rw (here, register_record, full, module_at-set_partial) (inl (refl, here))
        | inr room ↦ elim (Bool-cases (name_is_excluded c.config name i)) [
          | inl out ↦ rw (here, register_record, room, out) (inl (refl, here))
          | inr kept ↦ elim (Bool-cases named) [
            | inl done ↦
                rw (here, register_record, room, kept, done)
                  (take_record-Answer c' i m size dxt (same ∙ here) (ground arith) small)
            | inr failed ↦
                rw (here, register_record, room, kept, failed, module_at-set_partial)
                  (inl (refl, same ∙ here))
          ]
        ]
      ]
