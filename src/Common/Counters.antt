-- ===== src/Common/Counters.antt =====
-- The macros of darshan-runtime/lib/darshan-common.h: the timer that skips overlaps, the histogram of
-- sizes, and the table of the four most common values. A value is one number (`__val_size` is 1), as
-- for access sizes and strides. Counts are `int64_t`; a total is an `int`, converted as such. Times
-- are whole numbers of some tick, on the integers where they are subtracted.
use darshan.Prelude.{
  ℕ, zero, suc, ◌+◌, ◌-◌, ltb, ◌==◌, if◌then◌else◌, Bool, ◌&&◌, ◌||◌, Option, none, some, List, [],
  ◌∷◌, ◌++◌, get_or, set, length,
}
use darshan.Prelude.Words.{int_of_size}

-- DARSHAN_TIMER_INC_NO_OVERLAP: a timer and the end of the last operation. The timer is two sums: what
-- was added to it and what was taken from it.
pub record Timer : Type 0 where
  pub plus : ℕ
  pub minus : ℕ
  pub last : ℕ

unfoldable pub timer_inc_no_overlap : Timer → ℕ → ℕ → Timer
timer_inc_no_overlap t tm1 tm2 = if tm1 == 0 || tm2 == 0 then t else record {
  plus = t.plus + tm2;
  minus = t.minus + (if ltb t.last tm1 then tm1 else t.last);
  last = if ltb t.last tm2 then tm2 else t.last;
}

-- The bucket of DARSHAN_BUCKET_INC.
unfoldable pub bucket_of : ℕ → ℕ
bucket_of value =
    if ltb value 101
    then 0
    else if ltb value 1025
    then 1
    else if ltb value 10241
    then 2
    else if ltb value 102401
    then 3
    else if ltb value 1048577
    then 4
    else if ltb value 4194305
    then 5
    else if ltb value 10485761
    then 6
    else if ltb value 104857601
    then 7
    else if ltb value 1073741825
    then 8
    else 9

unfoldable pub bucket_inc : List ℕ → ℕ → List ℕ
unfolding bucket_of
bucket_inc buckets value = set buckets (bucket_of value) (get_or buckets (bucket_of value) 0 + 1)

pub record CommonVal : Type 0 where
  pub val : ℕ
  pub count : ℕ

-- The count of the first entry with the value.
unfoldable pub count_of : ℕ → List CommonVal → ℕ
count_of v [] = 0
count_of v (e ∷ es) = if e.val == v then e.count else count_of v es

unfoldable pub is_above : ℕ → ℕ → CommonVal → Bool
is_above v total e = ltb total e.count || (e.count == total && ltb v e.val)

-- The entries before the first that does not rank above, and those from there on.
unfoldable pub above : ℕ → ℕ → List CommonVal → List CommonVal
unfolding is_above
above v total [] = []
above v total (e ∷ es) = let rest = above v total es in if is_above v total e then e ∷ rest else []

unfoldable pub from_first : ℕ → ℕ → List CommonVal → List CommonVal
unfolding is_above
from_first v total [] = []
from_first v total (e ∷ es) =
    let rest = from_first v total es in if is_above v total e then rest else e ∷ es

-- The next `n` entries that hold another value; `none` is a read past the fourth entry.
unfoldable pub copy_others : ℕ → ℕ → List CommonVal → Option (List CommonVal)
copy_others zero v es = some []
copy_others (suc n) v [] = none
copy_others (suc n) v (e ∷ es) =
    let skip = copy_others (suc n) v es in
    let keep = copy_others n v es in
    if e.val == v then skip else (elim keep [ none ↦ none | some rest ↦ some (e ∷ rest) ])

unfoldable pub total_of : Bool → List CommonVal → ℕ → ℕ → ℕ
unfolding count_of
total_of add_flag es v count = int_of_size (count + (if add_flag then count_of v es else 0))

-- After the entries that rank above; the table is written back at the end only.
unfoldable pub place_value :
    ℕ → ℕ → List CommonVal → List CommonVal → List CommonVal → Option (List CommonVal)
unfolding copy_others
place_value v total es high rest =
    if length high == 4 then some es else (elim (copy_others (3 - length high) v rest) [
      | none ↦ none
      | some low ↦ some (high ++ record { val = v; count = total } ∷ low)
    ])

-- DARSHAN_UPDATE_COMMON_VAL_COUNTERS on the table of four; `none` is a read out of bounds.
unfoldable pub update_common_val : Bool → List CommonVal → ℕ → ℕ → Option (List CommonVal)
unfolding total_of above from_first place_value
update_common_val add_flag es v count =
    let total = total_of add_flag es v count in
    if v == 0 then some es else place_value v total es (above v total es) (from_first v total es)
