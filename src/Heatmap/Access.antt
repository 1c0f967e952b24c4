-- ===== src/Heatmap/Access.antt =====
-- The whole of heatmap_update of darshan-runtime/lib/darshan-heatmap.c.
use darshan.Prelude.{ℕ, ◌+◌, ◌-◌, ◌*◌, ◌/◌, ◌≤◌, ◌≡◌, arith, refl, some, Bool, true, get_or, set}
use darshan.Heatmap.State.{Heatmap, max_heatmap_bins}
use darshan.Heatmap.Update.{time_in_bin, share, add_bytes, spread, update_record, collapse_until}
use darshan.Heatmap.Fit.{collapse_until-settled}
use darshan.Heatmap.Bins.{Spread, added}

-- The bins of `hm` that an access from `s` to `e` crosses get its bytes by time.
abbrev pub Counts : Bool → ℕ → ℕ → ℕ → Heatmap → Heatmap → Type 0
Counts is_write size s e hm hm' =
    Spread is_write hm
      (added hm.bin_width size s e (s / hm.bin_width) (e / hm.bin_width + 1 - s / hm.bin_width)) hm'

time_in_bin-boundary :
    (w : ℕ) → time_in_bin w 200 (w * max_heatmap_bins) (w * max_heatmap_bins) ≡ some 0
unfolding time_in_bin
time_in_bin-boundary w = ground arith

share-instant : (size time e : ℕ) → share size time e e ≡ size
unfolding share
share-instant size time e = ground arith

-- A write of no duration that starts and ends exactly on the upper boundary of the heatmap, whose
-- bins have some width, is counted in the first read bin, and in no write bin.
pub update_record-boundary :
    (size : ℕ) (hm : Heatmap)
    → 1 ≤ hm.bin_width
    → let end_time = hm.bin_width * max_heatmap_bins in
      update_record true size end_time end_time hm
      ≡ record hm { read_bins = set hm.read_bins 0 (get_or hm.read_bins 0 0 + size) }
unfolding update_record spread add_bytes
update_record-boundary size hm pos =
    let e = hm.bin_width * max_heatmap_bins in
    let settled : collapse_until e e hm ≡ hm = collapse_until-settled e e hm (omega arith) in
    let bin200 : e / hm.bin_width ≡ 200 = grind arith in
    rw (settled, bin200, spread, time_in_bin-boundary hm.bin_width, share-instant size 0 e) refl
