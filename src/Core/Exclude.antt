-- ===== src/Core/Exclude.antt =====
-- darshan_core_name_is_excluded of darshan-runtime/lib/darshan-core.c, and the mount table lookup,
-- which tests prefixes in the same way.
pub mod Laws
use darshan.Prelude.{
  ℕ, ◌==◌, if◌then◌else◌, Bool, true, false, not, ◌&&◌, ◌||◌, Option, none, some, List, [], ◌∷◌,
}
use darshan.Prelude.Bits.{mod_flag_isset}
use darshan.Core.State.{Bytes, Regex, Config, FsInfo, MntData, apmpi_mod, heatmap_mod, mdhim_mod}

-- `strncmp(dir, name, strlen(dir)) == 0`
unfoldable pub starts_with : Bytes → Bytes → Bool
starts_with [] name = true
starts_with (a ∷ dir) [] = false
starts_with (a ∷ dir) (b ∷ name) = if a == b then starts_with dir name else false

-- The loop over a NULL-terminated array of directories.
unfoldable pub dir_matches : List Bytes → Bytes → Bool
dir_matches [] name = false
dir_matches (dir ∷ dirs) name = if starts_with dir name then true else dir_matches dirs name

-- The LL_FOREACH loop over a list of expressions.
unfoldable pub regex_matches : List Regex → ℕ → Bytes → Bool
regex_matches [] mod_id name = false
regex_matches (r ∷ rs) mod_id name =
    if mod_flag_isset r.mod_flags mod_id && r.matches name
    then true
    else regex_matches rs mod_id name

unfoldable pub name_is_path : ℕ → Bool
name_is_path mod_id = not (mod_id == apmpi_mod || mod_id == heatmap_mod || mod_id == mdhim_mod)

-- The path rules: the user's exclusions stand in place of the default ones.
unfoldable pub path_excluded : Config → Bytes → Bool
path_excluded cfg name = elim cfg.user_exclude_dirs [
  | none ↦ dir_matches cfg.exclude_dirs name
  | some dirs ↦ dir_matches dirs name
]

unfoldable pub is_null : Option (List Bytes) → Bool
is_null none = true
is_null (some dirs) = false

-- `none` is a NULL name.
unfoldable pub name_is_excluded : Config → Option Bytes → ℕ → Bool
unfolding name_is_path path_excluded is_null
name_is_excluded cfg none mod_id = false
name_is_excluded cfg (some name) mod_id =
    let is_path = name_is_path mod_id in
    let by_path = if is_path then path_excluded cfg name else false in
    let excluded = if not by_path then regex_matches cfg.rec_exclusion_list mod_id name else true in
    let by_default =
      if is_path && excluded && is_null cfg.user_exclude_dirs
      then dir_matches cfg.include_dirs name
      else false in
    if excluded && not by_default
    then not (regex_matches cfg.rec_inclusion_list mod_id name)
    else false

-- darshan_fs_info_from_path: `none` is the pair of -1 that the function starts from.
unfoldable pub fs_info_from_path : List MntData → Bytes → Option FsInfo
fs_info_from_path [] path = none
fs_info_from_path (m ∷ ms) path =
    if starts_with m.path path then some m.fs_info else fs_info_from_path ms path
