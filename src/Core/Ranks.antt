-- ===== src/Core/Ranks.antt =====
-- Which ranks are instrumented: darshan_should_instrument_rank of darshan-runtime/lib/darshan-core.c
-- and DARSHAN_PARSE_NUMBER_FROM_STR of darshan-runtime/lib/darshan.h. What `strtof` makes of a string
-- is a parameter.
pub mod Rules
pub mod Defects
use darshan.Prelude.{
  ℕ, zero, suc, ◌≡◌, Bool, true, false, not, ◌&&◌, ◌||◌, Option, none, some, List, [], ◌∷◌, ◌++◌,
  ◌==◌, ltb, leb, if◌then◌else◌, length,
}
use mathlib.Core.Option
use darshan.Core.State.{Bytes}
use darshan.Core.Names.{is_empty}

-- An `int` read from a string.
pub data Number : Type 0 where
  at_least_zero : ℕ → Number
  below_zero : Number

unfoldable pub le_rank : Number → ℕ → Bool
le_rank (at_least_zero n) rank = leb n rank
le_rank below_zero rank = true

unfoldable pub rank_le : ℕ → Number → Bool
rank_le rank (at_least_zero n) = leb rank n
rank_le rank below_zero = false

-- What `strtof` gives: the number, cut to an `int`; whether it is zero; whether `errno` was set; and
-- how many bytes it read.
pub record Strtof : Type 0 where
  pub value : Number
  pub is_zero : Bool
  pub errno : Bool
  pub consumed : ℕ

unfoldable pub parse_number : (Bytes → Strtof) → Bytes → Option Number
parse_number strtof s =
    let r = strtof s in
    if r.is_zero && (r.errno || r.consumed == 0)
    then none
    else if r.consumed == length s
    then some r.value
    else none

-- ',', '*' and ':'
abbrev pub comma : ℕ
comma = 44

abbrev pub star : ℕ
star = 42

abbrev pub colon : ℕ
colon = 58

-- The tokens that `strtok` finds in a string: the parts between commas that are not empty.
unfoldable pub add_token : Bytes → List Bytes → List Bytes
add_token [] toks = toks
add_token (b ∷ bs) toks = (b ∷ bs) ∷ toks

unfoldable pub tokens_from : Bytes → Bytes → List Bytes
tokens_from [] tok = add_token tok []
tokens_from (b ∷ bs) tok =
    if b == comma then add_token tok (tokens_from bs []) else tokens_from bs (tok ++ b ∷ [])

unfoldable pub tokens : Bytes → List Bytes
tokens s = tokens_from s []

unfoldable pub is_star : Bytes → Bool
is_star (b ∷ []) = b == star
is_star s = false

-- The parts before and after the first colon.
unfoldable pub split_colon : Bytes → Option (Bytes × Bytes)
split_colon [] = none
split_colon (b ∷ bs) =
    if b == colon then some ([], bs) else Option.map (λ p. (b ∷ p.0, p.1)) (split_colon bs)

unfoldable pub starts_colon : Bytes → Bool
starts_colon [] = false
starts_colon (b ∷ bs) = b == colon

-- How a list of tokens is left: at a token that covers the rank, with the tokens that `strtok` has
-- left; at its end; where the copy of a token overruns `scratch`, or not within the fuel.
pub data Scan : Type 0 where
  covered : List Bytes → Scan
  not_covered overrun out_of_fuel : Scan

-- The decision: whether to instrument, or none where the process overruns or does not get there.
unfoldable pub decide : Scan → Option Bool
decide (covered rest) = some true
decide not_covered = some false
decide s = none

module _ (strtof : Bytes → Strtof) (my_rank nprocs : ℕ) where
  -- A bound of a range of exclusions: not given, or a number.
  unfoldable pub excluded_bound : Bytes → ℕ → Option Number
  excluded_bound s default =
      if not (is_empty s) && not (starts_colon s)
      then parse_number strtof s
      else some (at_least_zero default)

  -- A bound of a range of inclusions.
  unfoldable pub included_bound : Bytes → ℕ → Option Number
  included_bound s default =
      if not (starts_colon s) then parse_number strtof s else some (at_least_zero default)

  unfoldable pub in_range : Number → Number → Bool
  in_range start_rank end_rank = le_rank start_rank my_rank && rank_le my_rank end_rank

  unfoldable pub is_rank : Number → Bool
  is_rank (at_least_zero n) = n == my_rank
  is_rank below_zero = false

  -- A number that is not parsed takes the same token again; a bound that is not parsed skips it.
  unfoldable pub exclusions : ℕ → List Bytes → Scan
  exclusions zero toks = out_of_fuel
  exclusions (suc fuel) [] = not_covered
  exclusions (suc fuel) (tok ∷ rest) =
      let again = exclusions fuel (tok ∷ rest) in
      let next = exclusions fuel rest in
      if is_star tok
      then covered rest
      else if leb 32 (length tok)
      then overrun
      else elim (split_colon tok) [
        | none ↦ elim (parse_number strtof tok) [
          | none ↦ again
          | some rank ↦ if is_rank rank then covered rest else next
        ]
        | some (start, end) ↦ elim (excluded_bound start 0) [
          | none ↦ next
          | some start_rank ↦ elim (excluded_bound end nprocs) [
            | none ↦ next
            | some end_rank ↦ if in_range start_rank end_rank then covered rest else next
          ]
        ]
      ]

  -- Anything that is not parsed takes the same token again.
  unfoldable pub inclusions : ℕ → List Bytes → Scan
  inclusions zero toks = out_of_fuel
  inclusions (suc fuel) [] = not_covered
  inclusions (suc fuel) (tok ∷ rest) =
      let again = inclusions fuel (tok ∷ rest) in
      let next = inclusions fuel rest in
      if is_star tok
      then covered rest
      else if leb 32 (length tok)
      then overrun
      else elim (split_colon tok) [
        | none ↦ elim (parse_number strtof tok) [
          | none ↦ again
          | some rank ↦ if is_rank rank then covered rest else next
        ]
        | some (start, end) ↦ elim (included_bound start 0) [
          | none ↦ again
          | some start_rank ↦ elim (included_bound end nprocs) [
            | none ↦ again
            | some end_rank ↦ if in_range start_rank end_rank then covered rest else next
          ]
        ]
      ]

  -- `strtok(NULL, ...)` goes on with the string before, so without inclusions the exclusions that are
  -- left are taken for them.
  unfoldable pub should_instrument_rank : ℕ → Option Bytes → Option Bytes → Option Bool
  should_instrument_rank fuel rank_exclusions rank_inclusions = elim rank_exclusions [
    | none ↦ some true
    | some excluded ↦ elim (exclusions fuel (tokens excluded)) [
      | covered rest ↦ elim rank_inclusions [
        | some included ↦ decide (inclusions fuel (tokens included))
        | none ↦ decide (inclusions fuel rest)
      ]
      | not_covered ↦ some true
      | overrun ↦ none
      | out_of_fuel ↦ none
    ]
  ]
