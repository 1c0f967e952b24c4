-- ===== src/Tests/Common.antt =====
-- The shared counters.
use darshan.Prelude.{
  ℕ, ◌+◌, ◌-◌, ◌<◌, ◌≡◌, ◌==◌, if◌then◌else◌, true, some, List, [], ◌∷◌, replicate, get_or, length,
  max, refl, arith, inl, inr,
}
use darshan.Common.Counters.{
  Timer, timer_inc_no_overlap, bucket_inc, CommonVal, update_common_val, count_of,
}
use darshan.Common.Order.{IsRanked}
use darshan.Common.Ranked.{update_common_val-IsRanked}
use darshan.Common.Measures.{timer_inc-new_time, bucket_inc-counts, number_below, size_bounds}

-- Twice 4096, once 512, and two unused entries.
abbrev table_a : List CommonVal
table_a =
    record { val = 4096; count = 2 }
    ∷ record { val = 512; count = 1 }
    ∷ record { val = 0; count = 0 }
    ∷ record { val = 0; count = 0 }
    ∷ []

table_a-IsRanked : IsRanked table_a
table_a-IsRanked =
    let unused : IsRanked (record { val = 0; count = 0 } ∷ []) = (tt, inl refl, tt) in
    let both : IsRanked (record { val = 0; count = 0 } ∷ record { val = 0; count = 0 } ∷ []) =
      ((inr (refl, omega arith), tt), inl refl, unused) in
    let three : IsRanked (
        record { val = 512; count = 1 }
        ∷ record { val = 0; count = 0 }
        ∷ record { val = 0; count = 0 }
        ∷ []) =
      ((inl (omega arith), (inl (omega arith), tt)), inr (omega arith, (omega arith, tt)), both) in
    (
      (inl (omega arith), (inl (omega arith), (inl (omega arith), tt))),
      inr (omega arith, (omega arith, (omega arith, tt))),
      three,
    )

three_more : 3 + count_of 512 table_a < 2147483648
unfolding count_of
three_more = omega arith

update_common_val-IsRanked_example :
    (es' : List CommonVal) × (update_common_val true table_a 512 3 ≡ some es')
    × (length es' ≡ 4)
    × IsRanked es'
update_common_val-IsRanked_example =
    update_common_val-IsRanked true table_a 512 3 refl table_a-IsRanked (λ e. absurd cc) three_more

abbrev timer_a : Timer
timer_a = record { plus = 30; minus = 10; last = 30 }

timer_inc-new_time_example :
    let t' = timer_inc_no_overlap timer_a 25 40 in
    (t'.plus + 10 ≡ 30 + t'.minus + (40 - max 25 30)) × (t'.last ≡ 40)
timer_inc-new_time_example =
    timer_inc-new_time timer_a 25 40 (omega arith) (omega arith) (omega arith)

bucket_inc-counts_example :
    (length (bucket_inc (replicate 10 0) 4096) ≡ 10)
    × ((i : ℕ)
        → get_or (bucket_inc (replicate 10 0) 4096) i 0
          ≡ get_or (replicate 10 0) i 0 + (if number_below 4096 size_bounds == i then 1 else 0))
bucket_inc-counts_example = bucket_inc-counts (replicate 10 0) 4096 refl

beyond_two : number_below 4096 size_bounds ≡ 2
beyond_two = refl
