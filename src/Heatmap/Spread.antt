-- ===== src/Heatmap/Spread.antt =====
-- The loop of heatmap_update over the bins of an access.
use darshan.Prelude.{
  ℕ, zero, suc, ◌+◌, ◌-◌, ◌*◌, ◌/◌, ◌≤◌, ◌<◌, ◌≡◌, arith, ◌∙◌, some, min, max, ap,
}
use native.Mathlib.Nat.{le-div_iff_mul-le}
use darshan.Heatmap.Update.{time_in_bin}
use darshan.Heatmap.Sums.{sum_to}

abbrev pub overlap : ℕ → ℕ → ℕ → ℕ → ℕ
overlap w s e b = min e (b * w + w) - max s (b * w)

-- The time in a bin is the overlap of the access with the bin.
pub time_in_bin-overlap :
    (w b s e : ℕ)
    → s ≤ e
    → s ≤ (b * w) + w
    → b * w ≤ e
    → time_in_bin w b s e ≡ some (overlap w s e b)
unfolding time_in_bin
time_in_bin-overlap w b s e h in_low in_high = ground arith

pub mul-le_of_le-div : (w b e : ℕ) → 1 ≤ w → b ≤ e / w → b * w ≤ e
mul-le_of_le-div w b e pos h = grind arith

pub lt-next_bin : (w e : ℕ) → 1 ≤ w → e < e / w * w + w
lt-next_bin w e pos = grind arith

pub div_mono : (w s e : ℕ) → 1 ≤ w → s ≤ e → s / w ≤ e / w
div_mono w s e pos h =
    (le-div_iff_mul-le {k = w} {x = s / w} {y = e} pos).1
      (omega (arith, mul-le_of_le-div w (s / w) s pos (omega arith)))

pub step : (w a m : ℕ) → (a + suc m) * w ≡ (a + m) * w + w
step w a m = grind arith

pub spare : (w a m : ℕ) → (a + m) * w ≡ a * w + m * w
spare w a m = grind arith

module _ (w s e : ℕ) (pos : 1 ≤ w) (le : s ≤ e) where
  -- The bins before the last one are filled from the start on.
  overlap-partial :
      (m : ℕ)
      → s / w + m ≤ e / w
      → sum_to m (λ k. overlap w s e (s / w + k)) ≡ max s ((s / w + m) * w) - s
  unfolding sum_to
  overlap-partial zero h = omega (arith, mul-le_of_le-div w (s / w) s pos (omega arith))
  overlap-partial (suc m) h =
      let b = s / w + m in
      let before = overlap-partial m (omega arith) in
      let next : (s / w + suc m) * w ≡ b * w + w = step w (s / w) m in
      let inside : (s / w + suc m) * w ≤ e = mul-le_of_le-div w (s / w + suc m) e pos h in
      let later : s < b * w + w = omega (arith, lt-next_bin w s pos, spare w (s / w) m) in
      omega (arith, before, next, inside, later)

  -- The times that an access spends in the bins it crosses add up to its duration.
  pub overlap-total : sum_to (e / w + 1 - s / w) (λ k. overlap w s e (s / w + k)) ≡ e - s
  unfolding sum_to
  overlap-total =
      let m = e / w - s / w in
      let ordered : s / w ≤ e / w = div_mono w s e pos le in
      let count : e / w + 1 - s / w ≡ suc m = omega arith in
      let last : s / w + m ≡ e / w = omega arith in
      let at_last : (s / w + m) * w ≡ e / w * w = ap (λ b. b * w) last in
      ap (λ n. sum_to n (λ k. overlap w s e (s / w + k))) count
      ∙ omega (
        arith,
        overlap-partial m (omega arith),
        at_last,
        lt-next_bin w e pos,
        mul-le_of_le-div w (e / w) e pos (omega arith),
        lt-next_bin w s pos,
        spare w (s / w) m,
      )
