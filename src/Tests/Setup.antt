-- ===== src/Tests/Setup.antt =====
-- A runtime before any module registers, and with two modules of their own memory and one for DXT.
use darshan.Prelude.{
  ℕ, zero, suc, ◌≡◌, true, Option, none, some, [], ◌∷◌, replicate, get_or, refl, arith,
}
use darshan.Prelude.Hash.{Uthash}
use darshan.Core.State.{Bytes, NameRef, Module, Config, Core}
use darshan.Core.Register.Inv.{IsValid}
use darshan.Core.Register.Modules.{register_module-IsValid}
use darshan.Core.Register.{register_module}
use darshan.Prelude.Bits.{mod_flag_isset}
use darshan.Prelude.Words.{add_size, sub_size, mul_size, int_of_size}
use darshan.Tests.Table.{Table, list_uthash}

abbrev pub Names : Type 0
Names = Table NameRef

instance abbrev pub name_table : Uthash NameRef Names
name_table = list_uthash NameRef

-- "/d", "/d/x", "/x"
abbrev pub dir_d : Bytes
dir_d = 47 ∷ 100 ∷ []

abbrev pub path_dx : Bytes
path_dx = 47 ∷ 100 ∷ 47 ∷ 120 ∷ []

abbrev pub path_x : Bytes
path_x = 47 ∷ 120 ∷ []

abbrev pub config_a : Config
config_a = record {
  mod_mem = 4194304;
  name_mem = 1048576;
  mem_alignment = 8;
  mod_disabled = 0;
  mod_max_records_override = replicate 18 0;
  exclude_dirs = dir_d ∷ [];
  user_exclude_dirs = none;
  include_dirs = [];
  rec_exclusion_list = [];
  rec_inclusion_list = [];
}

abbrev pub core_start : Core Names
core_start = record {
  log_hdr = record { partial_flag = 0; mod_ver = replicate 18 0 };
  log_name = [];
  mod_array = replicate 18 none;
  config = config_a;
  mod_mem_used = 0;
  name_hash = name_table.empty;
  name_mem_used = 0;
}

no_module : (n i : ℕ) → get_or {A = Option Module} (replicate n none) i none ≡ none
no_module zero i = refl
no_module (suc n) zero = refl
no_module (suc n) (suc i) = no_module n i

pub core_start-IsValid : IsValid core_start
core_start-IsValid = record {
  modules = refl;
  budget = omega arith;
  small = omega arith;
  fits = λ i m at dxt. absurd (let e = no_module 18 i in cc);
  apart = λ i j m n ne at_i at_j dxt_i dxt_j. absurd (let e = no_module 18 i in cc);
}

-- POSIX with three records of 1000 bytes, then STDIO with two.
abbrev pub posix_module : Module
posix_module = record { rec_buf_start = 0; rec_buf_p = 0; rec_mem_avail = 3000 }

abbrev pub stdio_module : Module
stdio_module = record { rec_buf_start = 3000; rec_buf_p = 3000; rec_mem_avail = 2000 }

abbrev pub core_one : Core Names
core_one = record core_start {
  log_hdr = record { partial_flag = 0; mod_ver = 0 ∷ 4 ∷ replicate 16 0 };
  mod_array = none ∷ some posix_module ∷ replicate 16 none;
  mod_mem_used = 3000;
}

abbrev pub core_two : Core Names
core_two = record core_start {
  log_hdr = record { partial_flag = 0; mod_ver = 0 ∷ 4 ∷ 3 ∷ replicate 15 0 };
  mod_array = none ∷ some posix_module ∷ some stdio_module ∷ replicate 15 none;
  mod_mem_used = 5000;
}

core_one-IsValid : IsValid core_one
unfolding register_module mod_flag_isset add_size sub_size mul_size int_of_size
core_one-IsValid = register_module-IsValid true 0 (some core_start) 1 1000 3 core_start-IsValid

pub core_two-IsValid : IsValid core_two
unfolding register_module mod_flag_isset add_size sub_size mul_size int_of_size
core_two-IsValid = register_module-IsValid true 0 (some core_one) 2 1000 2 core_one-IsValid

-- The POSIX part of DXT, with 2 MiB to spend.
abbrev pub dxt_module : Module
dxt_module = record { rec_buf_start = 0; rec_buf_p = 0; rec_mem_avail = 2097152 }

abbrev pub core_dxt : Core Names
core_dxt = record core_start {
  mod_array =
      none
      ∷ none
      ∷ none
      ∷ none
      ∷ none
      ∷ none
      ∷ none
      ∷ none
      ∷ none
      ∷ none
      ∷ some dxt_module
      ∷ replicate 7 none;
}
