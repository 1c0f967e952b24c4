-- ===== src/Tests/Complete.antt =====
-- The names of two processes that both opened the record 77.
use darshan.Prelude.{
  ℕ, ◌≡◌, ◌⊎◌, ◌==◌, true, some, List, [], ◌∷◌, refl, arith, inl, inr, Bool-cases, ==_iff,
}
use darshan.Core.State.{NameRecord, NameRef, Core}
use darshan.Core.Names.{lookup_record_name}
use darshan.Core.Names.Inv.{NamesValid, Within, bytes_used}
use darshan.Core.Names.Kept.{IsLogged, logged_name, next_name}
use darshan.Core.Shared.{get_shared_records, record_ids}
use darshan.Core.Shared.Collective.{contains}
use darshan.Core.Shared.Agreed.{Touched}
use darshan.Core.NameLog.{names_to_log}
use darshan.Core.NameLog.Split.{Apart, is_global}
use darshan.Core.NameLog.Written.{flags_in}
use darshan.Core.NameLog.Complete.{Unmarked, names_to_log_complete}
use darshan.Tests.Setup.{Names, name_table, core_start, path_x}
use darshan.Tests.Shared.{band_words, band_words-IsBand, names_first, ref_x}

abbrev ref_79 : NameRef
ref_79 = record {
  name_record = record { id = 79; name = path_x };
  mod_flags = 2;
  global_mod_flags = 0;
}

abbrev names_other : Names
names_other = name_table.add (name_table.add name_table.empty 77 (ref_x 77 3)) 79 ref_79

abbrev core_other : Core Names
core_other = record core_start {
  log_name = (ref_x 77 3).name_record ∷ ref_79.name_record ∷ [];
  name_hash = names_other;
  name_mem_used = 22;
}

other-NamesValid : NamesValid core_other
unfolding bytes_used
other-NamesValid = record {
  used = refl;
  room = omega arith;
  small = omega arith;
  found = λ k r e. elim (Bool-cases (77 == k)) [
    | inl a ↦
        let e' = rw a at e in
        let is : ref_x 77 3 ≡ r = cc in rw (← is) ((==_iff 77 k).0 a, inl refl)
    | inr a ↦ elim (Bool-cases (79 == k)) [
      | inl b ↦
          let e' = rw (a, b) at e in
          let is : ref_79 ≡ r = cc in rw (← is) ((==_iff 79 k).0 b, inr (inl refl))
      | inr b ↦ let e' = rw (a, b) at e in absurd cc
    ]
  ];
}

other-IsLogged : IsLogged core_other
unfolding IsLogged lookup_record_name logged_name next_name
other-IsLogged k = elim (Bool-cases (77 == k)) [
  | inl a ↦ elim (Bool-cases (79 == k)) [ inl b ↦ rw (a, b) refl | inr b ↦ rw (a, b) refl ]
  | inr a ↦ elim (Bool-cases (79 == k)) [ inl b ↦ rw (a, b) refl | inr b ↦ rw (a, b) refl ]
]

other-Unmarked : Unmarked names_other
other-Unmarked k r e = elim (Bool-cases (77 == k)) [
  | inl a ↦ let e' = rw a at e in let is : ref_x 77 3 ≡ r = cc in rw (← is) refl
  | inr a ↦ elim (Bool-cases (79 == k)) [
    | inl b ↦ let e' = rw (a, b) at e in let is : ref_79 ≡ r = cc in rw (← is) refl
    | inr b ↦ let e' = rw (a, b) at e in absurd cc
  ]
]

other-Apart :
    (t' : Names) (shared : List ℕ)
    → get_shared_records true band_words names_first (names_other ∷ []) names_other
      ≡ some (t', shared)
    → Apart (flags_in t') 0 core_other.log_name
unfolding get_shared_records band_words Apart is_global flags_in
other-Apart t' shared e =
    let t1 = name_table.store names_other 77 (record (ref_x 77 3) { global_mod_flags = 2 }) in
    let runs : get_shared_records true band_words names_first (names_other ∷ []) names_other
        ≡ some (t1, 77 ∷ []) =
      refl in
    let same : t1 ≡ t' = cc in rw (← same) (inr (omega arith), tt)

names_to_log_complete_example :
    (t' : Names) × (shared : List ℕ) × (c' : Core Names) × (sent : List NameRecord)
    × (get_shared_records true band_words names_first (names_other ∷ []) names_other
        ≡ some (t', shared))
    × (names_to_log true (record core_other { name_hash = t' }) ≡ some (c', sent))
    × ((r : NameRecord)
        → Within r core_other.log_name
        → Within r sent
          ⊎ ((contains r.id (record_ids (name_table.iter names_first)) ≡ true)
              × (j : ℕ) × Touched (names_first ∷ names_other ∷ []) r.id j))
names_to_log_complete_example =
    names_to_log_complete band_words band_words-IsBand names_first (names_other ∷ []) core_other
      (inr (inl refl)) other-NamesValid other-IsLogged other-Unmarked (omega arith) (omega arith)
      other-Apart
