-- ===== src/Heatmap/Update.antt =====
-- Recording an access in a heatmap: collapse_heatmap and heatmap_update of
-- darshan-runtime/lib/darshan-heatmap.c.
use darshan.Prelude.{
  ℕ, zero, suc, ◌+◌, ◌-◌, ◌*◌, ◌/◌, ltb, ◌==◌, if◌then◌else◌, Bool, true, false, Option, none, some,
  List, get_or, set,
}
use darshan.Prelude.Hash.{Uthash}
use darshan.Heatmap.State.{Heatmap, Runtime, max_heatmap_bins}

-- One turn of the loop, at `i = 2 * j`: `bins[i] += bins[i+1]; bins[i/2] = bins[i];`
unfoldable pub fold_pair : List ℕ → ℕ → List ℕ
fold_pair bins j =
    let sum = get_or bins (2 * j) 0 + get_or bins (2 * j + 1) 0 in set (set bins (2 * j) sum) j sum

-- The first `n` turns.
unfoldable pub fold_pairs : ℕ → List ℕ → List ℕ
unfolding fold_pair
fold_pairs zero bins = bins
fold_pairs (suc n) bins = fold_pair (fold_pairs n bins) n

-- `memset` of `n` bins from `from` on.
unfoldable pub clear_bins : ℕ → ℕ → List ℕ → List ℕ
clear_bins from zero bins = bins
clear_bins from (suc n) bins = set (clear_bins from n bins) (from + n) 0

unfoldable pub collapse_bins : List ℕ → List ℕ
unfolding fold_pairs clear_bins
collapse_bins bins = clear_bins 100 100 (fold_pairs 100 bins)

unfoldable pub collapse_heatmap : Heatmap → Heatmap
unfolding collapse_bins
collapse_heatmap hm = record hm {
  write_bins = collapse_bins hm.write_bins;
  read_bins = collapse_bins hm.read_bins;
  bin_width = hm.bin_width * 2;
}

-- The loop that collapses until the end of the access is inside, with fuel.
unfoldable pub collapse_until : ℕ → ℕ → Heatmap → Heatmap
unfolding collapse_heatmap
collapse_until zero end_time hm = hm
collapse_until (suc fuel) end_time hm =
    let rest = collapse_until fuel end_time (collapse_heatmap hm) in
    if ltb (hm.bin_width * max_heatmap_bins) end_time then rest else hm

-- The time the access spent in a bin; `none` is a negative one, at which the code bails out.
unfoldable pub time_in_bin : ℕ → ℕ → ℕ → ℕ → Option ℕ
time_in_bin width bin start_time end_time =
    let bottom = bin * width in
    let top = bottom + width in
    let late = if ltb bottom start_time then start_time - bottom else 0 in
    let early = if ltb end_time top then top - end_time else 0 in
    if ltb width (late + early) then none else some (width - (late + early))

-- `round(size * (time / (end_time - start_time)))`, halves rounded up.
unfoldable pub share : ℕ → ℕ → ℕ → ℕ → ℕ
share size time start_time end_time =
    if ltb start_time end_time
    then (let span = end_time - start_time in (2 * (size * time) + span) / (2 * span))
    else size

-- The write bin after the last is the first read bin; what lies after the read bins is not of this
-- record. A read there writes into other memory, which ends what the model describes: theorems leave out
-- the accesses that end at the end of the last bin, or say that they overrun.
unfoldable pub add_bytes : Bool → Heatmap → ℕ → ℕ → Heatmap
add_bytes true hm bin n =
    if ltb bin max_heatmap_bins
    then record hm { write_bins = set hm.write_bins bin (get_or hm.write_bins bin 0 + n) }
    else (let i = bin - max_heatmap_bins in
        record hm { read_bins = set hm.read_bins i (get_or hm.read_bins i 0 + n) })
add_bytes false hm bin n = record hm {
  read_bins = set hm.read_bins bin (get_or hm.read_bins bin 0 + n);
}

-- `n` turns of the loop over the bins, from `bin` on.
unfoldable pub spread : ℕ → Bool → ℕ → ℕ → ℕ → ℕ → Heatmap → Heatmap
unfolding time_in_bin share add_bytes
spread zero is_write bin size start_time end_time hm = hm
spread (suc n) is_write bin size start_time end_time hm =
    elim (time_in_bin hm.bin_width bin start_time end_time) [
      | none ↦ hm
      | some time ↦
          spread n is_write (bin + 1) size start_time end_time
            (add_bytes is_write hm bin (share size time start_time end_time))
    ]

-- Fuel for as many collapses as there are ticks up to the end of the access is enough.
unfoldable pub update_record : Bool → ℕ → ℕ → ℕ → Heatmap → Heatmap
unfolding spread collapse_until
update_record is_write size start_time end_time hm0 =
    let hm = collapse_until end_time end_time hm0 in
    let first = start_time / hm.bin_width in
    spread (end_time / hm.bin_width + 1 - first) is_write first size start_time end_time hm

module _ {H : Type 0} ⦃h : Uthash Heatmap H⦄ where
  -- `none` is a runtime that is not initialised.
  unfoldable pub heatmap_update : Option (Runtime H) → ℕ → Bool → ℕ → ℕ → ℕ → Option (Runtime H)
  unfolding update_record
  heatmap_update none id is_write size start_time end_time = none
  heatmap_update (some rt) id is_write size start_time end_time =
      if size == 0
      then some rt
      else (if rt.frozen then some rt else elim (h.find rt.rec_id_hash id) [
        | none ↦ some rt
        | some hm ↦ some (record rt {
          rec_id_hash =
              h.store rt.rec_id_hash id (update_record is_write size start_time end_time hm);
        })
      ])
