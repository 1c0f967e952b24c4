-- ===== src/Core/Names/Kept.antt =====
-- The name buffer of darshan-core.c against its table: the buffer alone tells every name that
-- darshan_core_lookup_record_name knows.
use darshan.Prelude.{
  ℕ, ◌≡◌, refl, Bool, true, false, not, ◌&&◌, Option, none, some, List, [], ◌∷◌, ◌++◌, inl, inr,
  Option-cases, Bool-cases, if◌then◌else◌, ◌==◌, ltb, ◌∙◌, sym, ==_iff, ap,
}
use mathlib.Core.Option.{get_or}
use darshan.Prelude.Hash.{Uthash}
use darshan.Prelude.Words.{add_size}
use darshan.Core.State.{Bytes, NameRecord, NameRef, Core}
use darshan.Core.Names.{
  update_name_record_ref, set_name_record, add_name_record_ref, lookup_record_name, zero_ref,
  is_empty, write_name_record, name_record_size,
}
use darshan.Core.Names.Lookup.{
  kept_name, kept_name-new, attach_ref-lookup_old, attach_ref-lookup_new,
}

-- The name of `k` after one more record of the log: a name once set is not replaced.
unfoldable pub next_name : ℕ → Option Bytes → NameRecord → Option Bytes
next_name k known r = if r.id == k then some (kept_name known r.name) else known

-- The name of `k` after the records of a log, `known` being its name before them.
unfoldable pub logged_name : ℕ → Option Bytes → List NameRecord → Option Bytes
unfolding next_name
logged_name k known [] = known
logged_name k known (r ∷ rs) = logged_name k (next_name k known r) rs

logged_name-append :
    (k : ℕ) (known : Option Bytes) (rs : List NameRecord) (r : NameRecord)
    → logged_name k known (rs ++ r ∷ []) ≡ next_name k (logged_name k known rs) r
unfolding logged_name
logged_name-append k known [] r = refl
logged_name-append k known (x ∷ xs) r = logged_name-append k (next_name k known x) xs r

-- Every name the table answers with is the one the buffer tells.
unfoldable pub IsLogged : {T : Type 0} → ⦃h : Uthash NameRef T⦄ → Core T → Type 0
IsLogged c = (k : ℕ) → lookup_record_name c k ≡ logged_name k none c.log_name

module _ {T : Type 0} ⦃h : Uthash NameRef T⦄ where
  -- A record that is written takes the place of the name known before it.
  written :
      (c : Core T) (r : NameRecord) (k : ℕ) (now : Option Bytes)
      → IsLogged c
      → kept_name (lookup_record_name c r.id) r.name ≡ r.name
      → now ≡ (if r.id == k then some r.name else lookup_record_name c k)
      → now ≡ logged_name k none (c.log_name ++ r ∷ [])
  unfolding IsLogged next_name
  written c r k now v takes e = elim (Bool-cases (r.id == k)) [
    | inl same ↦
        let same' = (==_iff r.id k).0 same in
        let takes' : kept_name (logged_name k none c.log_name) r.name ≡ r.name =
          ap (λ n. kept_name n r.name) (sym (v k) ∙ ap (lookup_record_name c) (sym same'))
          ∙ takes in
        rw (e, logged_name-append k none c.log_name r, next_name, same, takes') refl
    | inr other ↦ rw (e, logged_name-append k none c.log_name r, next_name, other) (v k)
  ]

  unchanged :
      (c : Core T) (rec_id : ℕ) (old : Bytes) (k : ℕ)
      → lookup_record_name c rec_id ≡ some old
      → (if rec_id == k then some old else lookup_record_name c k) ≡ lookup_record_name c k
  unchanged c rec_id old k e = elim (Bool-cases (rec_id == k)) [
    | inl same ↦ rw same (sym e ∙ ap (lookup_record_name c) ((==_iff rec_id k).0 same))
    | inr other ↦ rw other refl
  ]

  set_old-IsLogged :
      (c : Core T) (rec_id : ℕ) (name : Bytes) (mod_id : ℕ) (ref : NameRef)
      → IsLogged c
      → h.find c.name_hash rec_id ≡ some ref
      → IsLogged (set_name_record c rec_id name mod_id false ref).0
  unfolding IsLogged set_name_record next_name lookup_record_name
  set_old-IsLogged c rec_id name mod_id ref v found k =
      let old = ref.name_record.name in
      let r : NameRecord = record { id = rec_id; name = name } in
      let before : lookup_record_name c rec_id ≡ some old = unfold lookup_record_name in rw found in
      elim (Bool-cases (is_empty old && not (is_empty name))) [
        | inl wanted ↦
            elim (Bool-cases
              (ltb c.config.name_mem (add_size (name_record_size name) c.name_mem_used))) [
                | inl full ↦ rw (wanted, full) (v k)
                | inr room ↦
                    rw (wanted, room)
                      (written c r k _ v (rw (before, kept_name-new old name wanted) refl)
                        (attach_ref-lookup_old (write_name_record c r) rec_id mod_id ref _ k found))
              ]
        | inr same ↦ rw same (
            attach_ref-lookup_old c rec_id mod_id ref ref k found
            ∙ unchanged c rec_id old k before
            ∙ v k)
      ]

  set_new-IsLogged :
      (c : Core T) (rec_id : ℕ) (name : Bytes) (mod_id : ℕ)
      → IsLogged c
      → h.find c.name_hash rec_id ≡ none
      → IsLogged (set_name_record c rec_id name mod_id true zero_ref).0
  unfolding IsLogged set_name_record next_name lookup_record_name
  set_new-IsLogged c rec_id name mod_id v absent k =
      let before : lookup_record_name c rec_id ≡ none = unfold lookup_record_name in rw absent in
      let r : NameRecord = record { id = rec_id; name = name } in
      elim (Bool-cases (ltb c.config.name_mem (add_size (name_record_size name) c.name_mem_used))) [
        | inl full ↦ rw full (v k)
        | inr room ↦ rw room (
            written c r k _ v (rw before refl)
              (attach_ref-lookup_new (write_name_record c r) rec_id mod_id _ k absent))
      ]

  add-IsLogged :
      (alloc : Bool) (c : Core T) (rec_id : ℕ) (name : Bytes) (mod_id : ℕ)
      → IsLogged c
      → IsLogged (add_name_record_ref alloc c rec_id name mod_id).0
  unfolding add_name_record_ref
  add-IsLogged false c rec_id name mod_id v = v
  add-IsLogged true c rec_id name mod_id v = elim (Option-cases (h.find c.name_hash rec_id)) [
    | inr (ref, found) ↦
        rw (found, add_name_record_ref) (set_old-IsLogged c rec_id name mod_id ref v found)
    | inl absent ↦ rw (absent, add_name_record_ref) (set_new-IsLogged c rec_id name mod_id v absent)
  ]

  -- Registering a name, on every branch, keeps the name buffer and the table in step: if the table
  -- answered with the names that the buffer tells, before the call and after what other threads did
  -- meanwhile, it does so after the call.
  pub update_name_record_ref-IsLogged :
      (meanwhile : Core T → Core T) (alloc : Bool) (c : Core T) (rec_id : ℕ) (name : Option Bytes)
      (mod_id : ℕ)
      → IsLogged c
      → IsLogged (meanwhile c)
      → IsLogged (update_name_record_ref meanwhile alloc c rec_id name mod_id).0
  unfolding update_name_record_ref
  update_name_record_ref-IsLogged meanwhile alloc c rec_id name mod_id v w =
      elim (Option-cases (h.find c.name_hash rec_id)) [
        | inr (ref, found) ↦
            rw (found, update_name_record_ref)
              (set_old-IsLogged c rec_id (get_or name []) mod_id ref v found)
        | inl absent ↦
            rw (absent, update_name_record_ref)
              (add-IsLogged alloc (meanwhile c) rec_id (get_or name []) mod_id w)
      ]
