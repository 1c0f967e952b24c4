-- ===== src/Common/Measures.antt =====
-- The timer and the size histogram of darshan-runtime/lib/darshan-common.h.
use darshan.Prelude.{
  ℕ, ◌+◌, ◌-◌, ◌≤◌, ◌<◌, ◌≡◌, ◌≢◌, ◌==◌, if◌then◌else◌, ltb, List, [], ◌∷◌, ◌*◌, get_or, get_or-set,
  length, length-set, arith, max, ◌∙◌,
}
use darshan.Common.Counters.{Timer, timer_inc_no_overlap, bucket_of, bucket_inc}

-- An operation that starts at a time other than 0 and ends no earlier than it starts, nor earlier
-- than the last one, adds to the timer the time in which it did not overlap the last one, and its
-- end becomes the last.
pub timer_inc-new_time :
    (t : Timer) (tm1 tm2 : ℕ)
    → tm1 ≢ 0
    → tm1 ≤ tm2
    → t.last ≤ tm2
    → let t' = timer_inc_no_overlap t tm1 tm2 in
      (t'.plus + t.minus ≡ t.plus + t'.minus + (tm2 - max tm1 t.last)) × (t'.last ≡ tm2)
unfolding timer_inc_no_overlap
timer_inc-new_time t tm1 tm2 some_start le after = ground arith

-- A bucket of the ten; larger values go to no earlier bucket.
bucket_of-le : (v w : ℕ) → v ≤ w → (bucket_of v ≤ bucket_of w) × (bucket_of w < 10)
unfolding bucket_of
bucket_of-le v w h = ground arith

pub bucket_of-small : (v : ℕ) → bucket_of v < 10
bucket_of-small v = (bucket_of-le v v (omega arith)).1

-- The upper bounds of the buckets but the last: 100 bytes, 1, 10 and 100 KiB, 1, 4, 10 and 100 MiB, and
-- 1 GiB.
abbrev pub size_bounds : List ℕ
size_bounds =
    100
    ∷ 1024
    ∷ 10 * 1024
    ∷ 100 * 1024
    ∷ 1024 * 1024
    ∷ 4 * 1024 * 1024
    ∷ 10 * 1024 * 1024
    ∷ 100 * 1024 * 1024
    ∷ 1024 * 1024 * 1024
    ∷ []

-- How many bounds the value is beyond.
abbrev pub number_below : ℕ → List ℕ → ℕ
number_below v [] = 0
number_below v (b ∷ bs) = (if ltb b v then 1 else 0) + number_below v bs

bucket_of-bounds : (v : ℕ) → bucket_of v ≡ number_below v size_bounds
unfolding bucket_of
bucket_of-bounds v = ground arith

-- Counting a value in ten buckets adds one to the bucket whose number is that of the bounds, from 100
-- bytes to 1 GiB, that the value is beyond, and leaves the other buckets and their number.
pub bucket_inc-counts :
    (buckets : List ℕ) (v : ℕ)
    → length buckets ≡ 10
    → (length (bucket_inc buckets v) ≡ 10)
      × ((i : ℕ)
          → get_or (bucket_inc buckets v) i 0
            ≡ get_or buckets i 0 + (if number_below v size_bounds == i then 1 else 0))
unfolding bucket_inc
bucket_inc-counts buckets v len =
    let inside = bucket_of-small v in
    (
      length-set buckets (bucket_of v) _ ∙ len,
      λ i. rw (← (bucket_of-bounds v)) (
          ground (
            arith,
            get_or-set buckets (bucket_of v) i (get_or buckets (bucket_of v) 0 + 1) 0,
            len,
          )),
    )
