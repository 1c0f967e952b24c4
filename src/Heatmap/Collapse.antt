-- ===== src/Heatmap/Collapse.antt =====
-- collapse_heatmap of darshan-runtime/lib/darshan-heatmap.c: the loop that works in place adds the
-- bins in pairs.
use darshan.Prelude.{
  ℕ, zero, suc, ◌+◌, ◌*◌, ◌≤◌, ◌<◌, ◌≡◌, arith, refl, List, length, length-set, get_or, get_or-set,
  set, ◌∙◌,
}
use darshan.Heatmap.State.{Heatmap, max_heatmap_bins}
use darshan.Heatmap.Update.{fold_pair, fold_pairs, clear_bins, collapse_bins, collapse_heatmap}
use darshan.Heatmap.Sums.{sum_to, sum_to-halved}

abbrev pub bin : List ℕ → ℕ → ℕ
bin bins k = get_or bins k 0

length-fold_pairs : (n : ℕ) (bins : List ℕ) → length (fold_pairs n bins) ≡ length bins
unfolding fold_pairs fold_pair
length-fold_pairs zero bins = refl
length-fold_pairs (suc n) bins =
    let prev = fold_pairs n bins in
    let sum = get_or prev (2 * n) 0 + get_or prev (2 * n + 1) 0 in
    length-set (set prev (2 * n) sum) n sum ∙ length-set prev (2 * n) sum ∙ length-fold_pairs n bins

-- After `n` turns the first `n` bins are sums of pairs, and the pairs to come are untouched.
fold_pairs-bin :
    (n : ℕ) (bins : List ℕ)
    → n + n ≤ length bins
    → ((k : ℕ) → k < n → bin (fold_pairs n bins) k ≡ bin bins (2 * k) + bin bins (2 * k + 1))
      × ((k : ℕ) → n + n ≤ k → bin (fold_pairs n bins) k ≡ bin bins k)
unfolding fold_pairs fold_pair
fold_pairs-bin zero bins fits = (λ k h. absurd (omega arith), λ k h. refl)
fold_pairs-bin (suc n) bins fits =
    let prev = fold_pairs n bins in
    let (low, high) = fold_pairs-bin n bins (omega arith) in
    let sum = get_or prev (2 * n) 0 + get_or prev (2 * n + 1) 0 in
    let len = length-fold_pairs n bins in
    let mid = set prev (2 * n) sum in
    (
      λ k h. ground (
        arith,
        get_or-set mid n k sum 0,
        get_or-set prev (2 * n) k sum 0,
        low k,
        high (2 * n) (omega arith),
        high (2 * n + 1) (omega arith),
        len,
        length-set prev (2 * n) sum,
      ),
      λ k h. ground (arith, get_or-set mid n k sum 0, get_or-set prev (2 * n) k sum 0, high k),
    )

length-clear_bins : (m n : ℕ) (bins : List ℕ) → length (clear_bins m n bins) ≡ length bins
unfolding clear_bins
length-clear_bins m zero bins = refl
length-clear_bins m (suc n) bins =
    length-set (clear_bins m n bins) (m + n) 0 ∙ length-clear_bins m n bins

clear_bins-bin :
    (m n : ℕ) (bins : List ℕ) (k : ℕ)
    → ((k < m) → bin (clear_bins m n bins) k ≡ bin bins k)
      × (m ≤ k → k < m + n → bin (clear_bins m n bins) k ≡ 0)
unfolding clear_bins
clear_bins-bin m zero bins k = (λ h. refl, λ h h'. absurd (omega arith))
clear_bins-bin m (suc n) bins k =
    let (below, inside) = clear_bins-bin m n bins k in
    let at = get_or-set (clear_bins m n bins) (m + n) k 0 0 in
    (λ h. ground (arith, at, below h), λ h h'. ground (arith, at, inside h))

-- The bins after a collapse: the sums of pairs, then zeros.
collapse_bins-bin :
    (bins : List ℕ)
    → length bins ≡ 200
    → ((k : ℕ) → k < 100 → bin (collapse_bins bins) k ≡ bin bins (2 * k) + bin bins (2 * k + 1))
      × ((k : ℕ) → k < 100 → bin (collapse_bins bins) (100 + k) ≡ 0)
unfolding collapse_bins
collapse_bins-bin bins len =
    let (low, high) = fold_pairs-bin 100 bins (omega (arith, len)) in
    (
      λ k h. (clear_bins-bin 100 100 (fold_pairs 100 bins) k).0 h ∙ low k h,
      λ k h. (clear_bins-bin 100 100 (fold_pairs 100 bins) (100 + k)).1 (omega arith) (omega arith),
    )

length-collapse_bins : (bins : List ℕ) → length (collapse_bins bins) ≡ length bins
unfolding collapse_bins
length-collapse_bins bins =
    length-clear_bins 100 100 (fold_pairs 100 bins) ∙ length-fold_pairs 100 bins

-- The bytes of a histogram.
abbrev pub bin_total : List ℕ → ℕ
bin_total bins = sum_to max_heatmap_bins (bin bins)

collapse_bins-total :
    (bins : List ℕ) → length bins ≡ 200 → bin_total (collapse_bins bins) ≡ bin_total bins
collapse_bins-total bins len =
    let (low, high) = collapse_bins-bin bins len in
    sum_to-halved 100 (bin bins) (bin (collapse_bins bins)) low high

-- A heatmap has all its bins.
pub record IsFull (hm : Heatmap) : Type 0 where
  pub writes : length hm.write_bins ≡ max_heatmap_bins
  pub reads : length hm.read_bins ≡ max_heatmap_bins

-- What two heatmaps of the same accesses agree on.
pub record SameBytes (hm hm' : Heatmap) : Type 0 where
  pub writes : bin_total hm'.write_bins ≡ bin_total hm.write_bins
  pub reads : bin_total hm'.read_bins ≡ bin_total hm.read_bins

-- The bins of the collapsed histogram.
abbrev pub Paired : List ℕ → List ℕ → Type 0
Paired bins bins' =
    (k : ℕ)
    → k < 100
    → (bin bins' k ≡ bin bins (2 * k) + bin bins (2 * k + 1)) × (bin bins' (100 + k) ≡ 0)

-- Collapsing a heatmap that has all its bins doubles their width, adds the bins of each histogram
-- in pairs, empties the second half, and keeps the number of bins and the bytes counted.
pub collapse_heatmap-SameBytes :
    (hm : Heatmap)
    → IsFull hm
    → let hm' = collapse_heatmap hm in
      (hm'.bin_width ≡ hm.bin_width * 2)
      × Paired hm.write_bins hm'.write_bins
      × Paired hm.read_bins hm'.read_bins
      × IsFull hm'
      × SameBytes hm hm'
unfolding collapse_heatmap
collapse_heatmap-SameBytes hm full =
    let (wl, wh) = collapse_bins-bin hm.write_bins full.writes in
    let (rl, rh) = collapse_bins-bin hm.read_bins full.reads in
    (
      refl,
      λ k h. (wl k h, wh k h),
      λ k h. (rl k h, rh k h),
      record {
        writes = length-collapse_bins hm.write_bins ∙ full.writes;
        reads = length-collapse_bins hm.read_bins ∙ full.reads;
      },
      record {
        writes = collapse_bins-total hm.write_bins full.writes;
        reads = collapse_bins-total hm.read_bins full.reads;
      },
    )
