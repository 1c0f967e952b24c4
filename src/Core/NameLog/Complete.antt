-- ===== src/Core/NameLog/Complete.antt =====
-- darshan_get_shared_records, then darshan_log_write_name_record_hash, of
-- darshan-runtime/lib/darshan-core.c on a process other than the root: no name is lost.
use darshan.Prelude.{
  ℕ, ◌<◌, ◌≤◌, ◌≡◌, ◌⊎◌, inl, inr, refl, sym, ◌∙◌, true, false, Option, some, List, [], ◌∷◌,
  Bool-cases, Option-cases,
}
use mathlib.Core.Option
use darshan.Prelude.Hash.{Uthash}
use darshan.Core.State.{NameRecord, NameRef, Core}
use darshan.Core.Names.{lookup_record_name}
use darshan.Core.Names.Inv.{NamesValid, Within}
use darshan.Core.Names.Kept.{IsLogged}
use darshan.Core.Shared.{record_ids, get_shared_records}
use darshan.Core.Shared.Collective.{IsBand, contains}
use darshan.Core.Shared.Agreed.{Among, Touched, IsMarked, shared_ids, get_shared_records-IsMarked}
use darshan.Core.NameLog.{names_to_log}
use darshan.Core.NameLog.Split.{flags_of_ref, is_global, select_names, Apart}
use darshan.Core.NameLog.Written.{names_of, flags_in, names_to_log-NamesValid, Within-select}

-- A record that is selected as shared has global flags.
Within-select_global :
    (flags : ℕ → Option (ℕ × ℕ)) (r : NameRecord) (rs : List NameRecord)
    → Within r (select_names flags true rs)
    → is_global (flags r.id) ≡ true
unfolding select_names
Within-select_global flags r [] w = absurd w
Within-select_global flags r (x ∷ xs) w = elim (Bool-cases (is_global (flags x.id))) [
  | inl glob ↦
      let w' = rw (select_names, glob) at w in
      elim w' [ inl e ↦ rw (← e) glob | inr later ↦ Within-select_global flags r xs later ]
  | inr own ↦ let w' = rw (select_names, own) at w in Within-select_global flags r xs w'
]

module _ {T : Type 0} ⦃h : Uthash NameRef T⦄ where
  -- No reference has global flags yet.
  abbrev pub Unmarked : T → Type 0
  Unmarked t = (k : ℕ) (r : NameRef) → h.find t k ≡ some r → r.global_mod_flags ≡ 0

  module _ (root : T) (rest : List T) (shared : List ℕ) (c : Core T) (t' : T)
      (m : IsMarked root rest shared c.name_hash t') where
    -- The marked table has the same name records.
    marked-record :
        (k : ℕ)
        → Option.map (λ r. r.name_record) (h.find t' k)
          ≡ Option.map (λ r. r.name_record) (h.find c.name_hash k)
    marked-record k = elim (Bool-cases (contains k shared)) [
      | inl s ↦ let (r, g, before, after, bits) = m.held k s in rw (before, after) refl
      | inr s ↦ rw (m.others k s) refl
    ]

    marked-NamesValid : NamesValid c → NamesValid (record c { name_hash = t' })
    marked-NamesValid v = record {
      used = v.used;
      room = v.room;
      small = v.small;
      found = λ k u e. elim (Bool-cases (contains k shared)) [
        | inl s ↦
            let (r, g, before, after, bits) = m.held k s in
            let is : ◌≡◌ {A = Option NameRef} (some (record r { global_mod_flags = g })) (some u) =
              sym after ∙ e in
            let is' : record r { global_mod_flags = g } ≡ u = cc in rw (← is') (v.found k r before)
        | inr s ↦ v.found k u (sym (m.others k s) ∙ e)
      ];
    }

    marked-IsLogged : IsLogged c → IsLogged (record c { name_hash = t' })
    unfolding IsLogged lookup_record_name
    marked-IsLogged v k = elim (Bool-cases (contains k shared)) [
      | inl s ↦
          let (r, g, before, after, bits) = m.held k s in let v' = rw before at (v k) in rw after v'
      | inr s ↦ rw (m.others k s) (v k)
    ]

    marked-global :
        Unmarked c.name_hash → (k : ℕ) → is_global (flags_in t' k) ≡ true → contains k shared ≡ true
    unfolding flags_in is_global flags_of_ref
    marked-global clear k glob = elim (Bool-cases (contains k shared)) [
      | inl s ↦ s
      | inr s ↦
          let glob' = rw (flags_in, m.others k s) at glob in
          elim (Option-cases (h.find c.name_hash k)) [
            | inl absent ↦ let g = rw absent at glob' in absurd cc
            | inr (r, here) ↦ let g = rw (here, clear k r here) at glob' in absurd cc
          ]
    ]

  module _ (band : List ℕ → ℕ) (is_band : IsBand band) (root : T) (rest : List T) where
    -- On a process of the job other than the root, with a valid name buffer that tells the names of its
    -- table and with no global flags, where MPI_BAND keeps the bits that all values have and the allocations succeed, the memory for
    -- names fits an `int` and `comp_buf`, and, once the shared records are flagged, no record that is
    -- moved is longer than the shared records before it together: finding the
    -- shared records and then writing the names both return, and every name record of the process is
    -- among those appended to the log, or is of a record that the root holds, and on which some
    -- module is flagged in the tables of all processes.
    pub names_to_log_complete :
        (c : Core T)
        → Among c.name_hash (root ∷ rest)
        → NamesValid c
        → IsLogged c
        → Unmarked c.name_hash
        → c.config.name_mem < 2147483648
        → c.config.name_mem ≤ c.config.mod_mem
        → ((t' : T) (shared : List ℕ)
            → get_shared_records true band root rest c.name_hash ≡ some (t', shared)
            → Apart (flags_in t') 0 c.log_name)
        → (t' : T) × (shared : List ℕ) × (c' : Core T) × (sent : List NameRecord)
          × (get_shared_records true band root rest c.name_hash ≡ some (t', shared))
          × (names_to_log true (record c { name_hash = t' }) ≡ some (c', sent))
          × ((r : NameRecord)
              → Within r c.log_name
              → Within r sent
                ⊎ ((contains r.id (record_ids (h.iter root)) ≡ true)
                    × (j : ℕ) × Touched (root ∷ rest) r.id j))
    unfolding names_of
    names_to_log_complete c a v logged clear int roomy apart =
        let (t', finds, m) = get_shared_records-IsMarked band is_band root rest c.name_hash a in
        let shared = shared_ids band root rest in
        let (c', writes, order, valid, flags) =
          names_to_log-NamesValid (record c { name_hash = t' })
            (marked-NamesValid root rest shared c t' m v)
            (marked-IsLogged root rest shared c t' m logged) int roomy (apart t' shared finds) in
        (
          t',
          shared,
          c',
          names_of (record c { name_hash = t' }) false,
          finds,
          writes,
          λ r w. elim (Within-select (flags_in t') r c.log_name w) [
            | inl sent ↦ inl sent
            | inr other ↦ inr (
                (m.listed r.id).0 (
                  marked-global root rest shared c t' m clear r.id
                    (Within-select_global (flags_in t') r c.log_name other)))
          ],
        )
