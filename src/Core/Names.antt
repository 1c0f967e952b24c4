-- ===== src/Core/Names.antt =====
-- The name records of darshan-runtime/lib/darshan-core.c: darshan_update_name_record_ref and
-- darshan_core_lookup_record_name.
pub mod Frame
pub mod Lookup
pub mod Inv
pub mod Kept
use darshan.Prelude.{
  ℕ, ◌+◌, ltb, ◌==◌, if◌then◌else◌, Bool, true, false, not, ◌&&◌, ◌||◌, Option, none, some, List,
  [], ◌∷◌, ◌++◌, length,
}
use mathlib.Core.Option
use mathlib.Core.Option.{get_or}
use darshan.Prelude.Hash.{Uthash}
use darshan.Prelude.Bits.{mod_flag_set}
use darshan.Prelude.Words.{add_size, int_of_size}
use darshan.Core.State.{Bytes, NameRecord, NameRef, Core}

-- `sizeof(darshan_record_id) + strlen(name) + 1`, held in an `int`
unfoldable pub name_record_size : Bytes → ℕ
name_record_size name = int_of_size (8 + length name + 1)

unfoldable pub is_empty : Bytes → Bool
is_empty [] = true
is_empty (x ∷ xs) = false

-- `memset(ref, 0, sizeof(*ref))`; its NULL `name_record` is not read before it is set.
abbrev zero_ref : NameRef
zero_ref = record {
  name_record = record { id = 0; name = [] };
  mod_flags = 0;
  global_mod_flags = 0;
}

module _ {T : Type 0} ⦃h : Uthash NameRef T⦄ where
  -- The end of the function: the module's flag is set, and a new reference is added to the table.
  unfoldable pub attach_ref : Core T → ℕ → ℕ → Bool → NameRef → Core T
  attach_ref c rec_id mod_id is_new ref =
      let ref' : NameRef = record ref { mod_flags = mod_flag_set ref.mod_flags mod_id } in
      record c {
        name_hash =
            if is_new then h.add c.name_hash rec_id ref' else h.store c.name_hash rec_id ref';
      }

  -- A new record at the end of the buffer.
  unfoldable pub write_name_record : Core T → NameRecord → Core T
  write_name_record c r = record c {
    log_name = c.log_name ++ r ∷ [];
    name_mem_used = add_size c.name_mem_used (name_record_size r.name);
  }

  -- The part after the reference is at hand: a record is written if the reference is new or its
  -- record has no name yet. `false` is a return of 0, the buffer being full.
  unfoldable pub set_name_record : Core T → ℕ → Bytes → ℕ → Bool → NameRef → Core T × Bool
  unfolding attach_ref write_name_record name_record_size is_empty
  set_name_record c rec_id name mod_id is_new ref =
      let r : NameRecord = record { id = rec_id; name = name } in
      if is_new || (is_empty ref.name_record.name && not (is_empty name))
      then (if ltb c.config.name_mem (add_size (name_record_size name) c.name_mem_used)
          then (c, false)
          else (
            attach_ref (write_name_record c r) rec_id mod_id is_new
                (record ref { name_record = r }),
            true,
          ))
      else (attach_ref c rec_id mod_id is_new ref, true)

  -- Once `malloc` returned and the lock is held again: someone else may have added the reference.
  -- `alloc` is whether `malloc` succeeded.
  unfoldable pub add_name_record_ref : Bool → Core T → ℕ → Bytes → ℕ → Core T × Bool
  unfolding set_name_record
  add_name_record_ref alloc c rec_id name mod_id =
      if not alloc then (c, false) else elim (h.find c.name_hash rec_id) [
        | some ref ↦ set_name_record c rec_id name mod_id false ref
        | none ↦ set_name_record c rec_id name mod_id true zero_ref
      ]

  -- `meanwhile` is what other threads do to the runtime while the lock is dropped for `malloc`.
  unfoldable pub update_name_record_ref :
      (Core T → Core T) → Bool → Core T → ℕ → Option Bytes → ℕ → Core T × Bool
  unfolding add_name_record_ref
  update_name_record_ref meanwhile alloc c rec_id name mod_id =
      let name' : Bytes = get_or name [] in
      elim (h.find c.name_hash rec_id) [
        | some ref ↦ set_name_record c rec_id name' mod_id false ref
        | none ↦ add_name_record_ref alloc (meanwhile c) rec_id name' mod_id
      ]

  unfoldable pub lookup_record_name : Core T → ℕ → Option Bytes
  lookup_record_name c rec_id = Option.map (λ r. r.name_record.name) (h.find c.name_hash rec_id)
