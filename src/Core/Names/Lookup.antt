-- ===== src/Core/Names/Lookup.antt =====
-- What darshan_core_lookup_record_name sees of darshan_update_name_record_ref.
use darshan.Prelude.{
  ℕ, ◌≡◌, refl, Bool, true, false, not, ◌&&◌, Option, none, some, [], ◌∷◌, arith, inl, inr,
  Option-cases, Bool-cases, if◌then◌else◌, ◌==◌, ltb,
}
use mathlib.Core.Option.{get_or}
use darshan.Prelude.Hash.{Uthash}
use darshan.Prelude.Words.{add_size}
use darshan.Core.State.{Bytes, NameRecord, NameRef, Core}
use darshan.Core.Names.{
  update_name_record_ref, attach_ref, set_name_record, add_name_record_ref, lookup_record_name,
  zero_ref, is_empty, write_name_record, name_record_size,
}
use darshan.Core.Names.Frame.{locked_core}

-- The name that is kept when `new` is offered: a name once set is not replaced.
abbrev pub kept_name : Option Bytes → Bytes → Bytes
kept_name none new = new
kept_name (some []) new = new
kept_name (some (b ∷ bs)) new = b ∷ bs

pub kept_name-new :
    (old new : Bytes) → is_empty old && not (is_empty new) ≡ true → kept_name (some old) new ≡ new
unfolding is_empty
kept_name-new [] new h = refl
kept_name-new (b ∷ bs) new h = cc

pub kept_name-old :
    (old new : Bytes) → is_empty old && not (is_empty new) ≡ false → kept_name (some old) new ≡ old
unfolding is_empty
kept_name-old [] [] h = refl
kept_name-old [] (b ∷ bs) h = cc
kept_name-old (b ∷ bs) new h = refl

module _ {T : Type 0} ⦃h : Uthash NameRef T⦄ where
  pub attach_ref-lookup_old :
      (c : Core T) (rec_id mod_id : ℕ) (old ref : NameRef) (k : ℕ)
      → h.find c.name_hash rec_id ≡ some old
      → lookup_record_name (attach_ref c rec_id mod_id false ref) k
        ≡ (if rec_id == k then some ref.name_record.name else lookup_record_name c k)
  unfolding attach_ref lookup_record_name
  attach_ref-lookup_old c rec_id mod_id old ref k found =
      rw (h.find-store c.name_hash rec_id old _ k found) (ground arith)

  pub attach_ref-lookup_new :
      (c : Core T) (rec_id mod_id : ℕ) (ref : NameRef) (k : ℕ)
      → h.find c.name_hash rec_id ≡ none
      → lookup_record_name (attach_ref c rec_id mod_id true ref) k
        ≡ (if rec_id == k then some ref.name_record.name else lookup_record_name c k)
  unfolding attach_ref lookup_record_name
  attach_ref-lookup_new c rec_id mod_id ref k absent =
      rw (h.find-add c.name_hash rec_id _ k absent) (ground arith)

  set_name_record-lookup_old :
      (c : Core T) (rec_id : ℕ) (name : Bytes) (mod_id : ℕ) (ref : NameRef) (k : ℕ)
      → h.find c.name_hash rec_id ≡ some ref
      → (set_name_record c rec_id name mod_id false ref).1 ≡ true
      → lookup_record_name (set_name_record c rec_id name mod_id false ref).0 k ≡ (
          if rec_id == k
          then some (kept_name (lookup_record_name c rec_id) name)
          else lookup_record_name c k)
  unfolding set_name_record lookup_record_name
  set_name_record-lookup_old c rec_id name mod_id ref k found ok =
      let old = ref.name_record.name in
      let r : NameRecord = record { id = rec_id; name = name } in
      let before : lookup_record_name c rec_id ≡ some old = rw found in
      elim (Bool-cases (is_empty old && not (is_empty name))) [
        | inl wanted ↦
            elim (Bool-cases
              (ltb c.config.name_mem (add_size (name_record_size name) c.name_mem_used))) [
                | inl full ↦ let ok' = rw (wanted, full) at ok in cc
                | inr room ↦
                    rw (wanted, room, before, kept_name-new old name wanted)
                      (attach_ref-lookup_old (write_name_record c r) rec_id mod_id ref _ k found)
              ]
        | inr same ↦
            rw (same, before, kept_name-old old name same)
              (attach_ref-lookup_old c rec_id mod_id ref ref k found)
      ]

  set_name_record-lookup_new :
      (c : Core T) (rec_id : ℕ) (name : Bytes) (mod_id k : ℕ)
      → h.find c.name_hash rec_id ≡ none
      → (set_name_record c rec_id name mod_id true zero_ref).1 ≡ true
      → lookup_record_name (set_name_record c rec_id name mod_id true zero_ref).0 k
        ≡ (if rec_id == k then some name else lookup_record_name c k)
  unfolding set_name_record lookup_record_name
  set_name_record-lookup_new c rec_id name mod_id k absent ok =
      let r : NameRecord = record { id = rec_id; name = name } in
      elim (Bool-cases (ltb c.config.name_mem (add_size (name_record_size name) c.name_mem_used))) [
        | inl full ↦ let ok' = rw full at ok in cc
        | inr room ↦
            rw room (attach_ref-lookup_new (write_name_record c r) rec_id mod_id _ k absent)
      ]

  add_name_record_ref-lookup :
      (alloc : Bool) (c : Core T) (rec_id : ℕ) (name : Bytes) (mod_id k : ℕ)
      → (add_name_record_ref alloc c rec_id name mod_id).1 ≡ true
      → lookup_record_name (add_name_record_ref alloc c rec_id name mod_id).0 k ≡ (
          if rec_id == k
          then some (kept_name (lookup_record_name c rec_id) name)
          else lookup_record_name c k)
  unfolding add_name_record_ref
  add_name_record_ref-lookup false c rec_id name mod_id k ok = cc
  add_name_record_ref-lookup true c rec_id name mod_id k ok =
      elim (Option-cases (h.find c.name_hash rec_id)) [
        | inr (ref, found) ↦
            let ok' = rw (found, add_name_record_ref) at ok in
            rw (found, add_name_record_ref)
              (set_name_record-lookup_old c rec_id name mod_id ref k found ok')
        | inl absent ↦
            let ok' = rw (absent, add_name_record_ref) at ok in
            let before : lookup_record_name c rec_id ≡ none =
              unfold lookup_record_name in rw absent in
            rw (absent, add_name_record_ref, before)
              (set_name_record-lookup_new c rec_id name mod_id k absent ok')
      ]

  -- A registration of a name that succeeds makes that name the answer for its identifier, unless a
  -- name was set before, which stays; the answers for all other identifiers stay as they are. All
  -- this is relative to the table found when the lock is held for good.
  pub lookup_record_name-update :
      (meanwhile : Core T → Core T) (alloc : Bool) (c : Core T) (rec_id : ℕ) (name : Option Bytes)
      (mod_id k : ℕ)
      → (update_name_record_ref meanwhile alloc c rec_id name mod_id).1 ≡ true
      → let base = locked_core meanwhile c rec_id in
        lookup_record_name (update_name_record_ref meanwhile alloc c rec_id name mod_id).0 k ≡ (
          if rec_id == k
          then some (kept_name (lookup_record_name base rec_id) (get_or name []))
          else lookup_record_name base k)
  unfolding update_name_record_ref locked_core
  lookup_record_name-update meanwhile alloc c rec_id name mod_id k ok =
      elim (Option-cases (h.find c.name_hash rec_id)) [
        | inr (ref, found) ↦
            let ok' = rw (found, update_name_record_ref) at ok in
            rw (found, update_name_record_ref, locked_core)
              (set_name_record-lookup_old c rec_id (get_or name []) mod_id ref k found ok')
        | inl absent ↦
            let ok' = rw (absent, update_name_record_ref) at ok in
            rw (absent, update_name_record_ref, locked_core)
              (add_name_record_ref-lookup alloc (meanwhile c) rec_id (get_or name []) mod_id k ok')
      ]
