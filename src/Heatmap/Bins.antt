-- ===== src/Heatmap/Bins.antt =====
-- heatmap_update of darshan-runtime/lib/darshan-heatmap.c: where the bytes of an access go.
use darshan.Prelude.{
  ℕ, zero, suc, ◌+◌, ◌*◌, ◌/◌, ◌≤◌, ◌<◌, ◌≡◌, arith, refl, ◌∙◌, ltb, leb, ◌==◌, ◌&&◌, if◌then◌else◌,
  some, Bool, true, false, List, get_or-set, length-set,
}
use native.Mathlib.Nat.{div-lt_iff_lt-mul}
use darshan.Heatmap.State.{Heatmap, max_heatmap_bins}
use darshan.Heatmap.Update.{time_in_bin, share, add_bytes, spread}
use darshan.Heatmap.Collapse.{IsFull, bin}
use darshan.Heatmap.Spread.{overlap, time_in_bin-overlap, mul-le_of_le-div, lt-next_bin}

-- The histogram that an access counts in, and the other one.
abbrev pub counted : Bool → Heatmap → List ℕ
counted true hm = hm.write_bins
counted false hm = hm.read_bins

abbrev pub other : Bool → Heatmap → List ℕ
other true hm = hm.read_bins
other false hm = hm.write_bins

-- What an access adds to a bin: its share by time, in the `n` bins from `first` on.
abbrev pub added : ℕ → ℕ → ℕ → ℕ → ℕ → ℕ → ℕ → ℕ
added w size s e first n k =
    if leb first k && ltb k (first + n) then share size (overlap w s e k) s e else 0

-- A heatmap with the same bins but for what the access adds.
pub record Spread (is_write : Bool) (hm : Heatmap) (add : ℕ → ℕ) (hm' : Heatmap) : Type 0 where
  pub width : hm'.bin_width ≡ hm.bin_width
  pub full : IsFull hm'
  pub more : (k : ℕ) → bin (counted is_write hm') k ≡ bin (counted is_write hm) k + add k
  pub same : other is_write hm' ≡ other is_write hm

add_bytes-Spread :
    (is_write : Bool) (hm : Heatmap) (b n : ℕ)
    → IsFull hm
    → b < max_heatmap_bins
    → Spread is_write hm (λ k. if b == k then n else 0) (add_bytes is_write hm b n)
unfolding add_bytes
add_bytes-Spread true hm b n full inside =
    let low : ltb b 200 ≡ true = ground arith in
    rw (add_bytes, low)
      (record {
        width = refl;
        full = record { writes = length-set hm.write_bins b _ ∙ full.writes; reads = full.reads };
        more = λ k.
            ground (arith, get_or-set hm.write_bins b k (bin hm.write_bins b + n) 0, full.writes);
        same = refl;
      })
add_bytes-Spread false hm b n full inside = record {
  width = refl;
  full = record { writes = full.writes; reads = length-set hm.read_bins b _ ∙ full.reads };
  more = λ k. ground (arith, get_or-set hm.read_bins b k (bin hm.read_bins b + n) 0, full.reads);
  same = refl;
}

mul_mono : (a b w : ℕ) → a ≤ b → a * w ≤ b * w
mul_mono a b w h = grind arith

added-step :
    (w size s e b n k : ℕ)
    → added w size s e b (suc n) k
      ≡ (if b == k then share size (overlap w s e b) s e else 0) + added w size s e (b + 1) n k
added-step w size s e b n k = grind arith

module _ (is_write : Bool) (size s e w : ℕ) (pos : 1 ≤ w) (le : s ≤ e)
    (inside : e < w * max_heatmap_bins) where
  pub spread-Spread :
      (n b : ℕ) (hm : Heatmap)
      → hm.bin_width ≡ w
      → IsFull hm
      → s / w ≤ b
      → b + n ≤ e / w + 1
      → Spread is_write hm (added w size s e b n) (spread n is_write b size s e hm)
  unfolding spread
  spread-Spread zero b hm width full low high = record {
    width = refl;
    full = full;
    more = λ k. ground arith;
    same = refl;
  }
  spread-Spread (suc n) b hm width full low high =
      let inbin : b < max_heatmap_bins =
        omega
          (arith, (div-lt_iff_lt-mul {k = w} {x = e} {y = 200} pos).1 (omega (arith, inside))) in
      let time : time_in_bin hm.bin_width b s e ≡ some (overlap w s e b) = rw width (
        time_in_bin-overlap w b s e le
          (omega (arith, lt-next_bin w s pos, mul_mono (s / w) b w low))
          (mul-le_of_le-div w b e pos (omega arith))) in
      let bytes = share size (overlap w s e b) s e in
      let one = add_bytes-Spread is_write hm b bytes full inbin in
      let rest =
        spread-Spread n (b + 1) (add_bytes is_write hm b bytes) (one.width ∙ width) one.full
          (omega arith) (omega arith) in
      rw (time, spread)
        (record {
          width = rest.width ∙ one.width;
          full = rest.full;
          more = λ k. rest.more k ∙ omega (arith, one.more k, added-step w size s e b n k);
          same = rest.same ∙ one.same;
        })
