-- ===== src/Tests/NameLog.antt =====
-- The name records of a process other than the root, of which one is shared.
use darshan.Prelude.{
  ℕ, ◌≡◌, ◌==◌, true, false, some, [], ◌∷◌, ◌++◌, refl, arith, inl, inr, Bool-cases, ==_iff,
}
use darshan.Core.State.{NameRecord, NameRef, Core}
use darshan.Core.Names.{lookup_record_name}
use darshan.Core.Names.Inv.{NamesValid, bytes_used}
use darshan.Core.Names.Kept.{IsLogged, logged_name, next_name}
use darshan.Core.NameLog.{names_to_log}
use darshan.Core.NameLog.Split.{is_global, Apart}
use darshan.Core.NameLog.Written.{names_of, flags_in, names_to_log-NamesValid}
use darshan.Tests.Setup.{Names, name_table, core_start, path_x, path_dx}

abbrev name_77 : NameRecord
name_77 = record { id = 77; name = path_dx }

abbrev name_78 : NameRecord
name_78 = record { id = 78; name = path_x }

abbrev ref_77 : NameRef
ref_77 = record { name_record = name_77; mod_flags = 6; global_mod_flags = 2 }

abbrev ref_78 : NameRef
ref_78 = record { name_record = name_78; mod_flags = 2; global_mod_flags = 0 }

abbrev core_two_names : Core Names
core_two_names = record core_start {
  log_name = name_77 ∷ name_78 ∷ [];
  name_hash = name_table.add (name_table.add name_table.empty 77 ref_77) 78 ref_78;
  name_mem_used = 24;
}

two_names-NamesValid : NamesValid core_two_names
unfolding bytes_used
two_names-NamesValid = record {
  used = refl;
  room = omega arith;
  small = omega arith;
  found = λ k r e. elim (Bool-cases (77 == k)) [
    | inl a ↦
        let e' = rw a at e in let is : ref_77 ≡ r = cc in rw (← is) ((==_iff 77 k).0 a, inl refl)
    | inr a ↦ elim (Bool-cases (78 == k)) [
      | inl b ↦
          let e' = rw (a, b) at e in
          let is : ref_78 ≡ r = cc in rw (← is) ((==_iff 78 k).0 b, inr (inl refl))
      | inr b ↦ let e' = rw (a, b) at e in absurd cc
    ]
  ];
}

two_names-IsLogged : IsLogged core_two_names
unfolding IsLogged lookup_record_name logged_name next_name
two_names-IsLogged k = elim (Bool-cases (77 == k)) [
  | inl a ↦ elim (Bool-cases (78 == k)) [ inl b ↦ rw (a, b) refl | inr b ↦ rw (a, b) refl ]
  | inr a ↦ elim (Bool-cases (78 == k)) [ inl b ↦ rw (a, b) refl | inr b ↦ rw (a, b) refl ]
]

two_names-Apart : Apart (flags_in core_two_names.name_hash) 0 core_two_names.log_name
unfolding Apart is_global flags_in
two_names-Apart = (inr (omega arith), tt)

names_to_log-NamesValid_example :
    (c' : Core Names) × (names_to_log true core_two_names
      ≡ some (c', names_of core_two_names false))
    × (c'.log_name ≡ names_of core_two_names false ++ names_of core_two_names true)
    × NamesValid c'
    × ((k : ℕ) → flags_in c'.name_hash k ≡ flags_in core_two_names.name_hash k)
names_to_log-NamesValid_example =
    names_to_log-NamesValid core_two_names two_names-NamesValid two_names-IsLogged (omega arith)
      (omega arith) two_names-Apart

only_78 : names_of core_two_names false ≡ name_78 ∷ []
unfolding names_of is_global
only_78 = refl
