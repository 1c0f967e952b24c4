-- ===== src/Tests/Register.antt =====
-- Registering modules and records.
use darshan.Prelude.{ℕ, ◌+◌, ◌≤◌, ◌≡◌, ◌≢◌, ◌⊎◌, true, false, none, some, refl}
use darshan.Prelude.Bits.{mod_flag_isset, mod_flag_set}
use darshan.Prelude.Words.{add_size, sub_size, int_of_size}
use darshan.Core.State.{Module, Core, module_at, is_dxt}
use darshan.Core.Exclude.{name_is_excluded, dir_matches, starts_with, regex_matches}
use darshan.Core.Names.{update_name_record_ref}
use darshan.Core.Register.{buffer, null, register_module, register_record}
use darshan.Core.Register.Inv.{IsValid, region_end}
use darshan.Core.Register.Modules.{AllValid, register_module-IsValid}
use darshan.Core.Register.Records.{Quiet, register_record-IsValid}
use darshan.Core.Register.Buffers.{taken, register_record_buffer, register_record_disjoint}
use darshan.Core.Register.Refused.{register_record_refused}
use darshan.Tests.Setup.{Names, name_table, core_two, core_two-IsValid, path_x}

abbrev idle : Core Names → Core Names
idle c = c

still : (c : Core Names) (i : ℕ) → IsValid c → Quiet idle i c
still c i v = record { valid = v; same = refl }

abbrev after_one : Core Names
after_one = (register_record idle true core_two 77 (some path_x) 1 1000).0

abbrev after_two : Core Names
after_two = (register_record idle true after_one 78 none 2 1000).0

one_is : register_record idle true core_two 77 (some path_x) 1 1000 ≡ (after_one, buffer 0)
unfolding register_record update_name_record_ref name_is_excluded sub_size add_size int_of_size
    mod_flag_isset mod_flag_set dir_matches starts_with regex_matches
one_is = refl

two_is : register_record idle true after_one 78 none 2 1000 ≡ (after_two, buffer 3000)
unfolding register_record update_name_record_ref name_is_excluded sub_size add_size int_of_size
    mod_flag_isset mod_flag_set dir_matches starts_with regex_matches
two_is = refl

after_one-IsValid : IsValid after_one
after_one-IsValid =
    register_record-IsValid idle true core_two 77 (some path_x) 1 1000 core_two-IsValid
      (still core_two 1 core_two-IsValid)

register_module-IsValid_example : AllValid (register_module true 0 (some core_two) 3 1000000 100).0
register_module-IsValid_example =
    register_module-IsValid true 0 (some core_two) 3 1000000 100 core_two-IsValid

register_record-IsValid_example :
    IsValid (register_record idle true core_two 77 (some path_x) 1 1000).0
register_record-IsValid_example =
    register_record-IsValid idle true core_two 77 (some path_x) 1 1000 core_two-IsValid
      (still core_two 1 core_two-IsValid)

register_record_disjoint_example : (0 + 1000 ≤ 3000) ⊎ (3000 + 1000 ≤ 0)
register_record_disjoint_example =
    register_record_disjoint idle idle true true core_two after_one after_two 77 78 (some path_x)
      none 1 2 1000 1000 0 3000 core_two-IsValid (still core_two 1 core_two-IsValid)
      (still after_one 2 after_one-IsValid) refl refl one_is two_is

register_record_buffer_example :
    (m : Module) × (module_at core_two 1 ≡ some m)
    × (m.rec_buf_p ≡ 0)
    × (0 + 1000 ≤ region_end m)
    × (0 + 1000 ≤ 4194304)
    × (module_at after_one 1 ≡ some (taken m 1000))
    × ((j : ℕ) (n : Module)
        → 1 ≢ j
        → module_at core_two j ≡ some n
        → is_dxt j ≡ false
        → (0 + 1000 ≤ n.rec_buf_start) ⊎ (region_end n ≤ 0))
register_record_buffer_example =
    register_record_buffer idle true core_two after_one 77 (some path_x) 1 1000 0 core_two-IsValid
      (still core_two 1 core_two-IsValid) refl one_is

-- A record of more bytes than POSIX has left.
abbrev refused_core : Core Names
refused_core = (register_record idle true core_two 77 (some path_x) 1 9000).0

refused_is : register_record idle true core_two 77 (some path_x) 1 9000 ≡ (refused_core, null)
unfolding register_record
refused_is = refl

register_record_refused_example :
    ((name_is_excluded core_two.config (some path_x) 1 ≡ true) × (refused_core ≡ core_two))
    ⊎ (mod_flag_isset refused_core.log_hdr.partial_flag 1 ≡ true)
register_record_refused_example =
    register_record_refused idle true core_two refused_core 77 (some path_x) 1 9000 refused_is
