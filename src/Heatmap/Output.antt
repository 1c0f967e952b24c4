-- ===== src/Heatmap/Output.antt =====
-- The output of the heatmaps: heatmap_output of darshan-runtime/lib/darshan-heatmap.c. The records in
-- the buffer are a list, and so are the records of the output, each with as many bins as it reports.
use darshan.Prelude.{
  ℕ, zero, suc, ◌+◌, ◌-◌, ◌*◌, ◌/◌, ltb, if◌then◌else◌, Bool, true, not, ◌&&◌, ◌||◌, none, some,
  List, [], ◌∷◌, get_or, get_elem?, take, map, length,
}
use darshan.Heatmap.State.{Heatmap, Runtime, max_heatmap_bins}
use darshan.Heatmap.Update.{collapse_until}

-- Whether none of the first `n` bins counts any bytes.
unfoldable pub is_empty_to : ℕ → Heatmap → Bool
is_empty_to zero hm = true
is_empty_to (suc n) hm =
    is_empty_to n hm && not (ltb 0 (get_or hm.write_bins n 0) || ltb 0 (get_or hm.read_bins n 0))

unfoldable pub is_empty_heatmap : Heatmap → Bool
is_empty_heatmap hm = is_empty_to max_heatmap_bins hm

-- `memmove` of the records behind `i` onto it.
unfoldable pub remove_at : List Heatmap → ℕ → List Heatmap
remove_at [] i = []
remove_at (hm ∷ recs) zero = recs
remove_at (hm ∷ recs) (suc i) = hm ∷ remove_at recs i

-- The two loops that drop empty records, from the place `i` on, with fuel.
unfoldable pub drop_empty : ℕ → ℕ → List Heatmap → List Heatmap
drop_empty zero i recs = recs
drop_empty (suc fuel) i recs =
    let here = drop_empty fuel i (remove_at recs i) in
    let next = drop_empty fuel (i + 1) recs in
    elim (get_elem? recs i) [ none ↦ recs | some hm ↦ if is_empty_heatmap hm then here else next ]

-- One record: collapsed until it reaches the end of the execution, and cut there.
unfoldable pub finish_record : ℕ → Heatmap → Heatmap
finish_record end_time hm0 =
    let hm = collapse_until end_time end_time hm0 in
    let tmp_nbins = (end_time + hm.bin_width - 1) / hm.bin_width in
    if ltb tmp_nbins hm.nbins
    then record hm {
      nbins = tmp_nbins;
      write_bins = take tmp_nbins hm.write_bins;
      read_bins = take tmp_nbins hm.read_bins;
    }
    else hm

unfoldable pub output_size : List Heatmap → ℕ
output_size [] = 0
output_size (hm ∷ recs) = 48 + hm.nbins * 2 * 8 + output_size recs

-- `end_time` is the coordinated end of the execution, or the local time.
unfoldable pub heatmap_output :
    {H : Type 0} → Runtime H → ℕ → List Heatmap → Runtime H × List Heatmap × ℕ
unfolding drop_empty finish_record output_size
heatmap_output rt end_time recs =
    let kept = drop_empty (length recs) 0 recs in
    let out = map (finish_record end_time) kept in
    (record rt { frozen = true; rec_count = length kept }, out, output_size out)
