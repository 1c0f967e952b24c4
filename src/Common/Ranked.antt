-- ===== src/Common/Ranked.antt =====
-- DARSHAN_UPDATE_COMMON_VAL_COUNTERS of darshan-runtime/lib/darshan-common.h keeps its table in order
-- and within its bounds.
use darshan.Prelude.{
  ℕ, ◌+◌, ◌-◌, ◌≤◌, ◌≡◌, ◌≢◌, ◌==◌, ◌<◌, if◌then◌else◌, Bool, true, false, some, List, [], ◌∷◌,
  ◌++◌, length, length-append, arith, refl, Bool-cases, inl, inr,
}
use mathlib.Core.Path.{subst, sym}
use darshan.Prelude.Words.{int_of_size-eq}
use darshan.Common.Counters.{
  CommonVal, count_of, is_above, above, from_first, total_of, place_value, update_common_val,
}
use darshan.Common.Order.{
  Below, AllBelow, AllBelow-trans, Lacks, IsRanked, Copied, Lacks-rest, copy_others-IsRanked,
}

-- The recorded count of the value is at most the new one.
abbrev pub AtMost : ℕ → ℕ → List CommonVal → Type 0
AtMost v total [] = Unit
AtMost v total (e ∷ es) = (e.val ≡ v → e.count ≤ total) × AtMost v total es

module _ (v total : ℕ) where
  new_entry : CommonVal
  new_entry = record { val = v; count = total }

  length-split :
      (es : List CommonVal) → length (above v total es) + length (from_first v total es) ≡ length es
  unfolding above from_first
  length-split [] = refl
  length-split (e ∷ es) = elim (Bool-cases (is_above v total e)) [
    | inl up ↦ simp (up, above, from_first) (omega (arith, length-split es))
    | inr down ↦ simp (down, above, from_first) (omega arith)
  ]

  AllBelow-split :
      (d : CommonVal) (es : List CommonVal)
      → AllBelow d es
      → AllBelow d (above v total es) × AllBelow d (from_first v total es)
  unfolding above from_first
  AllBelow-split d [] b = (tt, tt)
  AllBelow-split d (e ∷ es) b = elim (Bool-cases (is_above v total e)) [
    | inl up ↦
        simp (up, above, from_first) (let (hi, lo) = AllBelow-split d es b.1 in ((b.0, hi), lo))
    | inr down ↦ simp (down, above, from_first) (tt, b)
  ]

  Lacks-split :
      (u : ℕ) (es : List CommonVal)
      → Lacks u es
      → Lacks u (above v total es) × Lacks u (from_first v total es)
  unfolding above from_first
  Lacks-split u [] b = (tt, tt)
  Lacks-split u (e ∷ es) b = elim (Bool-cases (is_above v total e)) [
    | inl up ↦ simp (up, above, from_first) (let (hi, lo) = Lacks-split u es b.1 in ((b.0, hi), lo))
    | inr down ↦ simp (down, above, from_first) (tt, b)
  ]

from_first-IsRanked :
    (v total : ℕ) (es : List CommonVal) → IsRanked es → IsRanked (from_first v total es)
unfolding from_first
from_first-IsRanked v total [] r = tt
from_first-IsRanked v total (e ∷ es) r = elim (Bool-cases (is_above v total e)) [
  | inl up ↦ simp (up, from_first) (from_first-IsRanked v total es r.2)
  | inr down ↦ simp (down, from_first) r
]

AllBelow-append :
    (d : CommonVal) (xs ys : List CommonVal) → AllBelow d xs → AllBelow d ys → AllBelow d (xs ++ ys)
AllBelow-append d [] ys p q = q
AllBelow-append d (x ∷ xs) ys p q = (p.0, AllBelow-append d xs ys p.1 q)

Lacks-append : (u : ℕ) (xs ys : List CommonVal) → Lacks u xs → Lacks u ys → Lacks u (xs ++ ys)
Lacks-append u [] ys p q = q
Lacks-append u (x ∷ xs) ys p q = (p.0, Lacks-append u xs ys p.1 q)

is_above-Below :
    (v total : ℕ) (e : CommonVal) → is_above v total e ≡ true → Below e (new_entry v total)
unfolding is_above new_entry
is_above-Below v total e up = grind arith

not_above-Below :
    (v total : ℕ) (e : CommonVal) → is_above v total e ≡ false → Below (new_entry v total) e
unfolding is_above new_entry
not_above-Below v total e down = grind arith

is_above-other :
    (v total : ℕ) (e : CommonVal)
    → is_above v total e ≡ true
    → (e.val ≡ v → e.count ≤ total)
    → v ≢ e.val
unfolding is_above
is_above-other v total e up most same = ground (arith, most (omega (arith, same)))

module _ (v total m : ℕ) (low : List CommonVal) where
  -- The new entry goes between those above it and those copied.
  first-IsRanked :
      (rest : List CommonVal)
      → IsRanked rest
      → AllBelow (new_entry v total) rest
      → Copied m v rest low
      → IsRanked (new_entry v total ∷ low)
  unfolding new_entry
  first-IsRanked rest r b c = (c.below (new_entry v total) b, inr c.lacks, c.ranked r)

  merged-IsRanked :
      (es : List CommonVal)
      → IsRanked es
      → AtMost v total es
      → Copied m v (from_first v total es) low
      → IsRanked (above v total es ++ new_entry v total ∷ low)
  unfolding above from_first new_entry
  merged-IsRanked [] r most c = first-IsRanked [] tt tt c
  merged-IsRanked (e ∷ es) (below, new, r) most c = elim (Bool-cases (is_above v total e)) [
    | inr down ↦
        let c' : Copied m v (e ∷ es) low = simp (down, from_first) at c in
        let b = not_above-Below v total e down in
        simp (down, above)
          (first-IsRanked (e ∷ es) (below, new, r)
            (b, AllBelow-trans (new_entry v total) e es b below) c')
    | inl up ↦
        let c' : Copied m v (from_first v total es) low = simp (up, from_first) at c in
        let (hi, lo) = AllBelow-split v total e es below in
        simp (up, above)
          (
            AllBelow-append e (above v total es) (new_entry v total ∷ low) hi
                (is_above-Below v total e up, c'.below e lo),
            (elim new [
              | inl z ↦ inl z
              | inr l ↦
                  let (hi', lo') = Lacks-split v total e.val es l in
                  inr (
                    Lacks-append e.val (above v total es) (new_entry v total ∷ low) hi'
                      (is_above-other v total e up most.0, c'.still e.val lo'))
            ]),
            merged-IsRanked es r most.1 c',
          )
  ]

Lacks-AtMost : (v total : ℕ) (es : List CommonVal) → Lacks v es → AtMost v total es
Lacks-AtMost v total [] l = tt
Lacks-AtMost v total (e ∷ es) l = (λ same. absurd (l.0 same), Lacks-AtMost v total es l.1)

count_of-AtMost :
    (v count : ℕ) (es : List CommonVal) → v ≢ 0 → IsRanked es → AtMost v (count + count_of v es) es
unfolding count_of
count_of-AtMost v count [] ne r = tt
count_of-AtMost v count (e ∷ es) ne (below, new, r) = elim (Bool-cases (e.val == v)) [
  | inl same ↦
      let first : count_of v (e ∷ es) ≡ e.count = simp (same, count_of) refl in
      (
        λ at. omega (arith, first),
        Lacks-AtMost v (count + count_of v (e ∷ es)) es (Lacks-rest v e es ne (ground arith) new),
      )
  | inr other ↦
      let later : count_of v (e ∷ es) ≡ count_of v es = simp (other, count_of) refl in
      (
        λ at. absurd (ground (arith, at)),
        subst (λ n. AtMost v (count + n) es) (sym later) (count_of-AtMost v count es ne r),
      )
]

total_of-AtMost :
    (add_flag : Bool) (es : List CommonVal) (v count : ℕ)
    → v ≢ 0
    → IsRanked es
    → (add_flag ≡ false → AtMost v count es)
    → count + (if add_flag then count_of v es else 0) < 2147483648
    → AtMost v (total_of add_flag es v count) es
unfolding total_of
total_of-AtMost true es v count ne r h int =
    rw (int_of_size-eq (count + count_of v es) int) (count_of-AtMost v count es ne r)
total_of-AtMost false es v count ne r h int =
    let none : count + 0 ≡ count = omega arith in rw (int_of_size-eq (count + 0) int, none) (h refl)

-- On a full table that is ranked, an update reads no entry past the fourth and leaves a full table
-- that is ranked. A count that is set, not added, must be at least what is recorded for the value,
-- and the new count must fit an `int`.
pub update_common_val-IsRanked :
    (add_flag : Bool) (es : List CommonVal) (v count : ℕ)
    → length es ≡ 4
    → IsRanked es
    → (add_flag ≡ false → AtMost v count es)
    → count + (if add_flag then count_of v es else 0) < 2147483648
    → (es' : List CommonVal) × (update_common_val add_flag es v count ≡ some es')
      × (length es' ≡ 4)
      × IsRanked es'
unfolding update_common_val place_value new_entry
update_common_val-IsRanked add_flag es v count len r h int = elim (Bool-cases (v == 0)) [
  | inl zero_value ↦ (es, rw (zero_value, update_common_val) refl, len, r)
  | inr value ↦
      let ne : v ≢ 0 = ground arith in
      let total = total_of add_flag es v count in
      let most = total_of-AtMost add_flag es v count ne r h int in
      let high = above v total es in
      let rest = from_first v total es in
      let split = length-split v total es in
      elim (Bool-cases (length high == 4)) [
        | inl full ↦ (es, rw (value, update_common_val, full, place_value) refl, len, r)
        | inr short ↦
            let short4 : length high ≢ 4 = ground arith in
            let (low, got, c) =
              copy_others-IsRanked (3 - length high) v rest ne (from_first-IsRanked v total es r)
                (ground (arith, split, len)) in
            (
              high ++ new_entry v total ∷ low,
              rw (value, update_common_val, short, place_value, got) refl,
              omega
                  (arith, length-append high (new_entry v total ∷ low), c.size, len, split, short4),
              merged-IsRanked v total (3 - length high) low es r most c,
            )
      ]
]
