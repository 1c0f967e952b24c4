-- ===== src/Core/Names/Inv.antt =====
-- The name buffer of darshan-core.c: what `name_mem_used` counts, and that it stays in its budget.
use darshan.Prelude.{
  ℕ, ◌+◌, ◌≤◌, ◌<◌, ◌≡◌, ◌⊎◌, refl, Bool, true, false, not, ◌&&◌, Option, none, some, List, [], ◌∷◌,
  ◌++◌, arith, inl, inr, Option-cases, Bool-cases, ◌==◌, ltb, length, ◌∙◌, ==_iff,
}
use mathlib.Core.Option.{get_or}
use darshan.Prelude.Hash.{Uthash}
use darshan.Prelude.Words.{add_size, add_size-eq, int_of_size-eq}
use darshan.Core.State.{Bytes, NameRecord, NameRef, Core}
use darshan.Core.Names.{
  update_name_record_ref, set_name_record, add_name_record_ref, attach_ref, zero_ref, is_empty,
  write_name_record, name_record_size,
}

-- The bytes that a list of name records takes in the log.
unfoldable pub bytes_used : List NameRecord → ℕ
bytes_used [] = 0
bytes_used (r ∷ rs) = 8 + length r.name + 1 + bytes_used rs

abbrev pub Within : NameRecord → List NameRecord → Type 0
Within r [] = ⊥
Within r (x ∷ xs) = (x ≡ r) ⊎ Within r xs

-- The buffer holds exactly the records written, within the memory for names, and every reference
-- that is found under an identifier points to a record of that identifier in the buffer.
pub record NamesValid {T : Type 0} ⦃h : Uthash NameRef T⦄ (c : Core T) : Type 0 where
  pub used : c.name_mem_used ≡ bytes_used c.log_name
  pub room : c.name_mem_used ≤ c.config.name_mem
  pub small : c.config.name_mem < 9223372036854775808
  pub found :
      (k : ℕ) (r : NameRef)
      → h.find c.name_hash k ≡ some r
      → (r.name_record.id ≡ k) × Within r.name_record c.log_name

Within-append : (r x : NameRecord) (xs : List NameRecord) → Within r xs → Within r (xs ++ x ∷ [])
Within-append r x [] w = absurd w
Within-append r x (y ∷ ys) (inl e) = inl e
Within-append r x (y ∷ ys) (inr w) = inr (Within-append r x ys w)

Within-last : (r : NameRecord) (xs : List NameRecord) → Within r (xs ++ r ∷ [])
Within-last r [] = inl refl
Within-last r (y ∷ ys) = inr (Within-last r ys)

bytes_used-append :
    (r : NameRecord) (xs : List NameRecord)
    → bytes_used (xs ++ r ∷ []) ≡ bytes_used xs + (8 + length r.name + 1)
unfolding bytes_used
bytes_used-append r [] = omega arith
bytes_used-append r (x ∷ xs) = omega (arith, bytes_used-append r xs)

-- A name that fits an `int` with its header; names are paths of at most 4096 bytes.
abbrev pub IsShort : Bytes → Type 0
IsShort name = length name + 9 < 2147483648

name_record_size-eq : (name : Bytes) → IsShort name → name_record_size name ≡ 8 + length name + 1
unfolding name_record_size
name_record_size-eq name s = int_of_size-eq (8 + length name + 1) (omega arith)

-- A reference with another set of flags points to the same record.
found_here :
    (ref r : NameRef) (flags rec_id k : ℕ) (xs : List NameRecord)
    → ◌≡◌ {A = Option NameRef} (some (record ref { mod_flags = flags })) (some r)
    → (rec_id == k) ≡ true
    → (ref.name_record.id ≡ rec_id) × Within ref.name_record xs
    → (r.name_record.id ≡ k) × Within r.name_record xs
found_here ref r flags rec_id k xs e same good =
    let e' : record ref { mod_flags = flags } ≡ r = cc in
    rw (← e') (good.0 ∙ (==_iff rec_id k).0 same, good.1)

module _ {T : Type 0} ⦃h : Uthash NameRef T⦄ where
  attach_old-NamesValid :
      (c : Core T) (rec_id mod_id : ℕ) (old ref : NameRef)
      → NamesValid c
      → h.find c.name_hash rec_id ≡ some old
      → (ref.name_record.id ≡ rec_id) × Within ref.name_record c.log_name
      → NamesValid (attach_ref c rec_id mod_id false ref)
  unfolding attach_ref
  attach_old-NamesValid c rec_id mod_id old ref v here good = record {
    used = v.used;
    room = v.room;
    small = v.small;
    found = λ k r e.
        let e' = rw (h.find-store c.name_hash rec_id old _ k here) at e in
        elim (Bool-cases (rec_id == k)) [
          | inl same ↦ found_here ref r _ rec_id k c.log_name (rw same at e') same good
          | inr other ↦ let e'' = rw other at e' in v.found k r e''
        ];
  }

  attach_new-NamesValid :
      (c : Core T) (rec_id mod_id : ℕ) (ref : NameRef)
      → NamesValid c
      → h.find c.name_hash rec_id ≡ none
      → (ref.name_record.id ≡ rec_id) × Within ref.name_record c.log_name
      → NamesValid (attach_ref c rec_id mod_id true ref)
  unfolding attach_ref
  attach_new-NamesValid c rec_id mod_id ref v here good = record {
    used = v.used;
    room = v.room;
    small = v.small;
    found = λ k r e.
        let e' = rw (h.find-add c.name_hash rec_id _ k here) at e in
        elim (Bool-cases (rec_id == k)) [
          | inl same ↦ found_here ref r _ rec_id k c.log_name (rw same at e') same good
          | inr other ↦ let e'' = rw other at e' in v.found k r e''
        ];
  }

  write-NamesValid :
      (c : Core T) (r : NameRecord)
      → NamesValid c
      → IsShort r.name
      → ltb c.config.name_mem (add_size (name_record_size r.name) c.name_mem_used) ≡ false
      → NamesValid (write_name_record c r)
  unfolding write_name_record
  write-NamesValid c r v short fits =
      let size = name_record_size-eq r.name short in
      let a =
        add_size-eq (8 + length r.name + 1) c.name_mem_used (omega (arith, v.room, v.small)) in
      let b =
        add_size-eq c.name_mem_used (8 + length r.name + 1) (omega (arith, v.room, v.small)) in
      let fits' = rw (size, a) at fits in
      record {
        used = rw (size, b) (omega (arith, v.used, bytes_used-append r c.log_name));
        room = rw (size, b) (ground arith);
        small = v.small;
        found = λ k u e.
            let (same, within) = v.found k u e in
            (same, Within-append u.name_record r c.log_name within);
      }

  set_old-NamesValid :
      (c : Core T) (rec_id : ℕ) (name : Bytes) (mod_id : ℕ) (ref : NameRef)
      → NamesValid c
      → IsShort name
      → h.find c.name_hash rec_id ≡ some ref
      → NamesValid (set_name_record c rec_id name mod_id false ref).0
  unfolding set_name_record
  set_old-NamesValid c rec_id name mod_id ref v short here =
      let r : NameRecord = record { id = rec_id; name = name } in
      elim (Bool-cases (is_empty ref.name_record.name && not (is_empty name))) [
        | inl wanted ↦
            elim (Bool-cases
              (ltb c.config.name_mem (add_size (name_record_size name) c.name_mem_used))) [
                | inl full ↦ rw (wanted, full) v
                | inr room ↦
                    rw (wanted, room)
                      (attach_old-NamesValid (write_name_record c r) rec_id mod_id ref _
                        (write-NamesValid c r v short room) here (refl, Within-last r c.log_name))
              ]
        | inr same ↦
            rw same (attach_old-NamesValid c rec_id mod_id ref ref v here (v.found rec_id ref here))
      ]

  set_new-NamesValid :
      (c : Core T) (rec_id : ℕ) (name : Bytes) (mod_id : ℕ)
      → NamesValid c
      → IsShort name
      → h.find c.name_hash rec_id ≡ none
      → NamesValid (set_name_record c rec_id name mod_id true zero_ref).0
  unfolding set_name_record
  set_new-NamesValid c rec_id name mod_id v short absent =
      let r : NameRecord = record { id = rec_id; name = name } in
      elim (Bool-cases (ltb c.config.name_mem (add_size (name_record_size name) c.name_mem_used))) [
        | inl full ↦ rw full v
        | inr room ↦ rw room (
            attach_new-NamesValid (write_name_record c r) rec_id mod_id _
              (write-NamesValid c r v short room) absent (refl, Within-last r c.log_name))
      ]

  add-NamesValid :
      (alloc : Bool) (c : Core T) (rec_id : ℕ) (name : Bytes) (mod_id : ℕ)
      → NamesValid c
      → IsShort name
      → NamesValid (add_name_record_ref alloc c rec_id name mod_id).0
  unfolding add_name_record_ref
  add-NamesValid false c rec_id name mod_id v short = v
  add-NamesValid true c rec_id name mod_id v short =
      elim (Option-cases (h.find c.name_hash rec_id)) [
        | inr (ref, here) ↦
            rw (here, add_name_record_ref)
              (set_old-NamesValid c rec_id name mod_id ref v short here)
        | inl absent ↦
            rw (absent, add_name_record_ref)
              (set_new-NamesValid c rec_id name mod_id v short absent)
      ]

  -- Registering a name that fits an `int` with its header, on every branch and whatever valid changes other threads make meanwhile,
  -- keeps the name buffer: it holds exactly the records that were counted, it stays in the memory for
  -- names, and every reference points to a record of its own identifier in the buffer.
  pub update_name_record_ref-NamesValid :
      (meanwhile : Core T → Core T) (alloc : Bool) (c : Core T) (rec_id : ℕ) (name : Option Bytes)
      (mod_id : ℕ)
      → NamesValid c
      → NamesValid (meanwhile c)
      → IsShort (get_or name [])
      → NamesValid (update_name_record_ref meanwhile alloc c rec_id name mod_id).0
  unfolding update_name_record_ref
  update_name_record_ref-NamesValid meanwhile alloc c rec_id name mod_id v w short =
      elim (Option-cases (h.find c.name_hash rec_id)) [
        | inr (ref, here) ↦
            rw (here, update_name_record_ref)
              (set_old-NamesValid c rec_id (get_or name []) mod_id ref v short here)
        | inl absent ↦
            rw (absent, update_name_record_ref)
              (add-NamesValid alloc (meanwhile c) rec_id (get_or name []) mod_id w short)
      ]
