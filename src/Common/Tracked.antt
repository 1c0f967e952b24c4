-- ===== src/Common/Tracked.antt =====
-- darshan_track_common_val_counters of darshan-runtime/lib/darshan-common.c: how often each value
-- was seen, for at most 32 values, and the table of the four most common that is filled from it. The
-- tree of `tfind` and `tsearch` is a list of values with their frequencies, each an `int`.
pub mod Entries
pub mod Counted
use darshan.Prelude.{
  ℕ, zero, suc, ◌+◌, ltb, ◌==◌, if◌then◌else◌, Bool, true, false, not, ◌&&◌, Option, none, some,
  List, [], ◌∷◌, length,
}
use darshan.Prelude.Words.{int_of_size}
use darshan.Common.Counters.{CommonVal, update_common_val}

-- DARSHAN_COMMON_VAL_MAX_RUNTIME_COUNT
abbrev pub max_runtime_count : ℕ
max_runtime_count = 32

unfoldable pub find_freq : ℕ → List (ℕ × ℕ) → Option ℕ
find_freq v [] = none
find_freq v ((u, freq) ∷ xs) = if u == v then some freq else find_freq v xs

unfoldable pub raise_freq : ℕ → List (ℕ × ℕ) → List (ℕ × ℕ)
raise_freq v [] = []
raise_freq v ((u, freq) ∷ xs) =
    if u == v then (u, int_of_size (freq + 1)) ∷ xs else (u, freq) ∷ raise_freq v xs

-- `alloc` is whether `malloc` succeeds; without room or memory the counter is NULL.
unfoldable pub track_common_val : Bool → ℕ → List (ℕ × ℕ) → List (ℕ × ℕ) × Option ℕ
track_common_val alloc v tracked = elim (find_freq v tracked) [
  | some freq ↦ (raise_freq v tracked, some (int_of_size (freq + 1)))
  | none ↦
      if ltb (length tracked) max_runtime_count && alloc
      then ((v, 1) ∷ tracked, some 1)
      else (tracked, none)
]

-- A tree of counters and the table in the record.
pub record CommonVals : Type 0 where
  pub tracked : List (ℕ × ℕ)
  pub table : List CommonVal

-- The counter of a value, if there is one, is entered in the table. `none` is a read past the table.
unfoldable pub enter : ℕ → CommonVals → List (ℕ × ℕ) × Option ℕ → Option CommonVals
enter v c (tracked, none) = some (record c { tracked = tracked })
enter v c (tracked, some count) = elim (update_common_val false c.table v count) [
  | none ↦ none
  | some table ↦ some (record { tracked = tracked; table = table })
]

-- What the modules do with a value.
unfoldable pub note_common_val : Bool → ℕ → CommonVals → Option CommonVals
note_common_val alloc v c = enter v c (track_common_val alloc v c.tracked)
