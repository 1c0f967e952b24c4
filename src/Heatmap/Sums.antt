-- ===== src/Heatmap/Sums.antt =====
-- Sums over the first bins of a histogram.
use darshan.Prelude.{ℕ, zero, suc, ◌+◌, ◌*◌, ◌<◌, ◌≡◌, arith, refl, ap, ◌∙◌}

unfoldable pub sum_to : ℕ → (ℕ → ℕ) → ℕ
sum_to zero f = 0
sum_to (suc n) f = sum_to n f + f n

sum_to-pairs : (n : ℕ) (f : ℕ → ℕ) → sum_to (n + n) f ≡ sum_to n (λ k. f (2 * k) + f (2 * k + 1))
unfolding sum_to
sum_to-pairs zero f = refl
sum_to-pairs (suc n) f =
    let two : suc n + suc n ≡ suc (suc (n + n)) = omega arith in
    let even : n + n ≡ 2 * n = omega arith in
    let odd : suc (n + n) ≡ 2 * n + 1 = omega arith in
    ap (λ m. sum_to m f) two ∙ omega (arith, sum_to-pairs n f, ap f even, ap f odd)

pub sum_to-ext : (n : ℕ) (f g : ℕ → ℕ) → ((k : ℕ) → k < n → f k ≡ g k) → sum_to n f ≡ sum_to n g
unfolding sum_to
sum_to-ext zero f g e = refl
sum_to-ext (suc n) f g e =
    omega (arith, sum_to-ext n f g (λ k h. e k (omega arith)), e n (omega arith))

sum_to-zeros :
    (m n : ℕ) (f : ℕ → ℕ) → ((k : ℕ) → k < n → f (m + k) ≡ 0) → sum_to (m + n) f ≡ sum_to m f
unfolding sum_to
sum_to-zeros m zero f e = let end : m + 0 ≡ m = omega arith in ap (λ k. sum_to k f) end
sum_to-zeros m (suc n) f e =
    let next : m + suc n ≡ suc (m + n) = omega arith in
    ap (λ k. sum_to k f) next
    ∙ omega (arith, sum_to-zeros m n f (λ k h. e k (omega arith)), e n (omega arith))

-- A histogram whose first half holds the sums of the pairs of another, and whose second half is
-- empty, has the same total.
pub sum_to-halved :
    (n : ℕ) (f g : ℕ → ℕ)
    → ((k : ℕ) → k < n → g k ≡ f (2 * k) + f (2 * k + 1))
    → ((k : ℕ) → k < n → g (n + k) ≡ 0)
    → sum_to (n + n) g ≡ sum_to (n + n) f
sum_to-halved n f g low high = omega (
  arith,
  sum_to-zeros n n g high,
  sum_to-ext n g (λ k. f (2 * k) + f (2 * k + 1)) low,
  sum_to-pairs n f,
)
