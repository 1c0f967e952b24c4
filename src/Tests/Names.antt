-- ===== src/Tests/Names.antt =====
-- Excluding and registering names.
use darshan.Prelude.{◌≡◌, ◌↔◌, ◌==◌, if◌then◌else◌, true, some, refl, arith}
use darshan.Prelude.Bits.{mod_flag_isset, mod_flag_set}
use darshan.Prelude.Words.{add_size, int_of_size}
use darshan.Core.State.{Core}
use darshan.Core.Exclude.{name_is_excluded}
use darshan.Core.Exclude.Laws.{IsExcludedByRule, IsIncludedByRule, name_is_excluded_iff}
use darshan.Core.Names.{update_name_record_ref, lookup_record_name}
use darshan.Core.Names.Frame.{locked_core}
use darshan.Core.Names.Lookup.{kept_name, lookup_record_name-update}
use darshan.Core.Names.Inv.{NamesValid, bytes_used, update_name_record_ref-NamesValid}
use darshan.Tests.Setup.{Names, name_table, config_a, core_start, path_dx, path_x}

abbrev idle : Core Names → Core Names
idle c = c

name_is_excluded_iff_example :
    (name_is_excluded config_a (some path_dx) 1 ≡ true)
    ↔ (IsExcludedByRule config_a path_dx 1 × (¬ (IsIncludedByRule config_a path_dx 1)))
name_is_excluded_iff_example = name_is_excluded_iff config_a path_dx 1

named : (update_name_record_ref idle true core_start 77 (some path_x) 1).1 ≡ true
unfolding update_name_record_ref add_size int_of_size mod_flag_set mod_flag_isset
named = refl

lookup_record_name-update_example :
    let base = locked_core idle core_start 77 in
    lookup_record_name (update_name_record_ref idle true core_start 77 (some path_x) 1).0 77 ≡ (
      if 77 == 77
      then some (kept_name (lookup_record_name base 77) path_x)
      else lookup_record_name base 77)
lookup_record_name-update_example =
    lookup_record_name-update idle true core_start 77 (some path_x) 1 77 named

start-NamesValid : NamesValid core_start
unfolding bytes_used
start-NamesValid = record {
  used = refl;
  room = omega arith;
  small = omega arith;
  found = λ k r e. absurd cc;
}

update_name_record_ref-NamesValid_example :
    NamesValid (update_name_record_ref idle true core_start 77 (some path_x) 1).0
update_name_record_ref-NamesValid_example =
    update_name_record_ref-NamesValid idle true core_start 77 (some path_x) 1 start-NamesValid
      start-NamesValid (omega arith)
