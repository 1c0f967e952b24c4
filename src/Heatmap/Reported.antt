-- ===== src/Heatmap/Reported.antt =====
-- What heatmap_output of darshan-runtime/lib/darshan-heatmap.c reports.
use darshan.Prelude.{ℕ, ◌*◌, ◌≤◌, ◌≡◌, if◌then◌else◌, List, [], ◌∷◌, length}
use darshan.Heatmap.State.{Heatmap, max_heatmap_bins}
use darshan.Heatmap.Output.{is_empty_heatmap}
use darshan.Heatmap.Collapse.{IsFull}

-- The records that count any bytes, in order.
pub used_records : List Heatmap → List Heatmap
used_records [] = []
used_records (hm ∷ recs) = if is_empty_heatmap hm then used_records recs else hm ∷ used_records recs

-- A record that reports the whole execution and no bin beyond it.
pub record Covers (end_time : ℕ) (hm : Heatmap) : Type 0 where
  pub covered : end_time ≤ hm.nbins * hm.bin_width
  pub bins : hm.nbins ≤ max_heatmap_bins
  pub writes : length hm.write_bins ≡ hm.nbins
  pub reads : length hm.read_bins ≡ hm.nbins

-- A record as it is registered: all its bins, of some width.
pub record IsWhole (hm : Heatmap) : Type 0 where
  pub full : IsFull hm
  pub wide : 1 ≤ hm.bin_width
  pub whole : hm.nbins ≡ max_heatmap_bins

abbrev pub All : (Heatmap → Type 0) → List Heatmap → Type 0
All P [] = Unit
All P (hm ∷ recs) = P hm × All P recs
