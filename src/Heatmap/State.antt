-- ===== src/Heatmap/State.antt =====
-- The data of darshan-runtime/lib/darshan-heatmap.c and include/darshan-heatmap-log-format.h. Times and
-- bin widths are whole numbers of some tick: the model computes exactly what the code computes in
-- doubles. Counts are `int64_t` in bytes and are not wrapped.
use Prim.Native.Nat.{ℕ}
use mathlib.Core.Bool.{Bool}
use mathlib.Core.List.{List}

abbrev pub max_heatmap_bins : ℕ
max_heatmap_bins = 200

-- The bins trail the record in memory, the read bins right after the write bins.
pub record Heatmap : Type 0 where
  pub id : ℕ
  pub rank : ℕ
  pub bin_width : ℕ
  pub nbins : ℕ
  pub write_bins : List ℕ
  pub read_bins : List ℕ

-- `H` is the type of the hash table of record references.
pub record Runtime (H : Type 0) : Type 0 where
  pub rec_id_hash : H
  pub rec_count : ℕ
  pub frozen : Bool

-- sizeof(struct darshan_heatmap_record) with 400 bins of 8 bytes
abbrev pub heatmap_size : ℕ
heatmap_size = 3248

abbrev pub max_heatmaps : ℕ
max_heatmaps = 8

-- A tenth of a second, in milliseconds.
abbrev pub initial_bin_width : ℕ
initial_bin_width = 100
