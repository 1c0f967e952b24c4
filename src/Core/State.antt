-- ===== src/Core/State.antt =====
-- The data of darshan-runtime/lib/darshan.h, darshan-config.h and include/darshan-log-format.h that
-- darshan-core.c keeps. Pointers into the module memory `log_mod_p` are offsets from its start; a
-- pointer to a name record, which is never changed after it is written, is the record.
use Prim.Native.Nat.{ℕ}
use mathlib.Core.Bool.{Bool, ◌||◌}
use mathlib.Core.Option.{Option, none}
use mathlib.Core.List.{List, [], ◌∷◌}
use darshan.Prelude.{◌==◌, get_or}

-- A C string: its bytes, without the terminator.
abbrev pub Bytes : Type 0
Bytes = List ℕ

-- enum darshan_module_id
abbrev pub posix_mod : ℕ
posix_mod = 1

abbrev pub dxt_posix_mod : ℕ
dxt_posix_mod = 10

abbrev pub dxt_mpiio_mod : ℕ
dxt_mpiio_mod = 11

abbrev pub mdhim_mod : ℕ
mdhim_mod = 12

abbrev pub apmpi_mod : ℕ
apmpi_mod = 14

abbrev pub heatmap_mod : ℕ
heatmap_mod = 15

abbrev pub known_module_count : ℕ
known_module_count = 18

-- In a build without APXC and APMPI, whose versions are then 0.
abbrev pub module_versions : List ℕ
module_versions = 1 ∷ 4 ∷ 3 ∷ 3 ∷ 2 ∷ 3 ∷ 1 ∷ 2 ∷ 2 ∷ 2 ∷ 2 ∷ 3 ∷ 1 ∷ 0 ∷ 0 ∷ 1 ∷ 1 ∷ 1 ∷ []

abbrev pub is_dxt : ℕ → Bool
is_dxt mod_id = mod_id == dxt_posix_mod || mod_id == dxt_mpiio_mod

pub record NameRecord : Type 0 where
  pub id : ℕ
  pub name : Bytes

pub record NameRef : Type 0 where
  pub name_record : NameRecord
  pub mod_flags : ℕ
  pub global_mod_flags : ℕ

-- A compiled expression is what `regexec` answers with it, a parameter of the model.
pub record Regex : Type 0 where
  pub matches : Bytes → Bool
  pub mod_flags : ℕ

pub record FsInfo : Type 0 where
  pub fs_type : ℕ
  pub block_size : ℕ

pub record MntData : Type 0 where
  pub path : Bytes
  pub fs_info : FsInfo

pub record Module : Type 0 where
  pub rec_buf_start : ℕ
  pub rec_buf_p : ℕ
  pub rec_mem_avail : ℕ

pub record Config : Type 0 where
  pub mod_mem : ℕ
  pub name_mem : ℕ
  pub mem_alignment : ℕ
  pub mod_disabled : ℕ
  pub mod_max_records_override : List ℕ
  pub exclude_dirs : List Bytes
  pub user_exclude_dirs : Option (List Bytes)
  pub include_dirs : List Bytes
  pub rec_exclusion_list : List Regex
  pub rec_inclusion_list : List Regex

pub record Header : Type 0 where
  pub partial_flag : ℕ
  pub mod_ver : List ℕ

-- `log_name` is the buffer `log_name_p` as the records written into it, in order; `T` is the type of
-- the hash table of name references.
pub record Core (T : Type 0) : Type 0 where
  pub log_hdr : Header
  pub log_name : List NameRecord
  pub mod_array : List (Option Module)
  pub config : Config
  pub mod_mem_used : ℕ
  pub name_hash : T
  pub name_mem_used : ℕ

abbrev pub module_at : {T : Type 0} → Core T → ℕ → Option Module
module_at c i = get_or c.mod_array i none
