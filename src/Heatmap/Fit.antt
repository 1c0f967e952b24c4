-- ===== src/Heatmap/Fit.antt =====
-- The loop of heatmap_update that collapses the heatmap: it ends with the access inside.
use darshan.Prelude.{
  ℕ, zero, suc, ◌+◌, ◌*◌, ◌≤◌, ◌≡◌, arith, refl, ◌∙◌, ltb, false, Bool-cases, inl, inr,
}
use darshan.Heatmap.State.{Heatmap, max_heatmap_bins}
use darshan.Heatmap.Update.{collapse_heatmap, collapse_until}
use darshan.Heatmap.Collapse.{IsFull, SameBytes, collapse_heatmap-SameBytes}

-- A heatmap in which the access ends, with the same bytes as before.
pub record Fitted (hm : Heatmap) (end_time : ℕ) (hm' : Heatmap) : Type 0 where
  pub inside : end_time ≤ hm'.bin_width * max_heatmap_bins
  pub wide : 1 ≤ hm'.bin_width
  pub full : IsFull hm'
  pub same : SameBytes hm hm'

collapse_until-slack :
    (fuel end_time : ℕ) (hm : Heatmap)
    → 1 ≤ hm.bin_width
    → IsFull hm
    → end_time ≤ hm.bin_width * max_heatmap_bins + fuel
    → Fitted hm end_time (collapse_until fuel end_time hm)
unfolding collapse_until
collapse_until-slack zero end_time hm wide full h = record {
  inside = omega arith;
  wide = wide;
  full = full;
  same = record { writes = refl; reads = refl };
}
collapse_until-slack (suc fuel) end_time hm wide full h =
    let (width, w, r, full', same) = collapse_heatmap-SameBytes hm full in
    elim (Bool-cases (ltb (hm.bin_width * max_heatmap_bins) end_time)) [
      | inl outside ↦
          let rest =
            collapse_until-slack fuel end_time (collapse_heatmap hm) (omega (arith, width)) full'
              (omega (arith, width)) in
          simp (outside, collapse_until)
            (record {
              inside = rest.inside;
              wide = rest.wide;
              full = rest.full;
              same = record {
                writes = rest.same.writes ∙ same.writes;
                reads = rest.same.reads ∙ same.reads;
              };
            })
      | inr inside ↦
          simp (inside, collapse_until)
            (record {
              inside = ground arith;
              wide = wide;
              full = full;
              same = record { writes = refl; reads = refl };
            })
    ]

-- For a heatmap with all its bins, of some width, and as much fuel as the access's end has ticks,
-- the loop finishes: the end is inside the bins, and no byte counted before is lost.
pub collapse_until-Fitted :
    (end_time : ℕ) (hm : Heatmap)
    → 1 ≤ hm.bin_width
    → IsFull hm
    → Fitted hm end_time (collapse_until end_time end_time hm)
collapse_until-Fitted end_time hm wide full =
    collapse_until-slack end_time end_time hm wide full (omega arith)

-- A heatmap that the access ends in is left alone.
pub collapse_until-settled :
    (fuel end_time : ℕ) (hm : Heatmap)
    → end_time ≤ hm.bin_width * max_heatmap_bins
    → collapse_until fuel end_time hm ≡ hm
unfolding collapse_until
collapse_until-settled zero end_time hm h = refl
collapse_until-settled (suc fuel) end_time hm h =
    let inside : ltb (hm.bin_width * max_heatmap_bins) end_time ≡ false = ground arith in
    simp (inside, collapse_until) refl
