-- ===== src/Tests/Ranks.antt =====
-- Lists of ranks.
use darshan.Prelude.{
  ℕ, ◌≡◌, ◌+◌, ◌-◌, ◌*◌, true, false, not, ◌||◌, ◌&&◌, none, some, [], ◌∷◌, ◌==◌, refl, arith, leb,
  if◌then◌else◌, suc,
}
use darshan.Core.State.{Bytes}
use darshan.Core.Names.{is_empty}
use darshan.Core.Ranks.{
  Strtof, at_least_zero, should_instrument_rank, tokens, tokens_from, add_token, inclusions,
  exclusions, out_of_fuel, is_star, split_colon, parse_number, excluded_bound, included_bound,
  starts_colon, in_range, le_rank, rank_le, is_rank, decide,
}
use darshan.Core.Ranks.Rules.{
  any_token, all_tokens, is_exclusion, is_inclusion, is_some, range_covers, rank_covers,
  after_first, excludes, includes, should_instrument_rank-leftover,
}
use darshan.Core.Ranks.Defects.{inclusions-no_start}

-- Numbers of decimal digits.
abbrev read_digits : ℕ → ℕ → Bytes → Strtof
read_digits value seen [] = record {
  value = at_least_zero value;
  is_zero = value == 0;
  errno = false;
  consumed = seen;
}
read_digits value seen (b ∷ bs) =
    if leb 48 b && leb b 57 then read_digits (value * 10 + (b - 48)) (suc seen) bs else record {
      value = at_least_zero value;
      is_zero = value == 0;
      errno = false;
      consumed = seen;
    }

abbrev digits : Bytes → Strtof
digits s = read_digits 0 0 s

-- "0:3,2" and "1"
abbrev low_ranks : Bytes
low_ranks = 48 ∷ 58 ∷ 51 ∷ 44 ∷ 50 ∷ []

abbrev rank_one : Bytes
rank_one = 49 ∷ []

should_instrument_rank-leftover_example :
    should_instrument_rank digits 2 8 3 (some low_ranks) none
    ≡ some (
        not (any_token (excludes digits 2 8) (tokens low_ranks))
        || any_token (includes digits 2 8) (after_first (excludes digits 2 8) (tokens low_ranks)))
unfolding all_tokens tokens tokens_from add_token is_exclusion is_star split_colon is_some
    parse_number is_inclusion after_first excludes range_covers excluded_bound is_empty starts_colon
    in_range le_rank rank_covers is_rank rank_le
should_instrument_rank-leftover_example =
    should_instrument_rank-leftover digits 2 8 3 low_ranks refl refl (omega arith) (omega arith)

-- A rank that is excluded twice is instrumented.
excluded_twice : should_instrument_rank digits 2 8 3 (some low_ranks) none ≡ some true
unfolding should_instrument_rank decide exclusions inclusions included_bound tokens tokens_from
    add_token is_star split_colon parse_number excluded_bound is_empty starts_colon in_range le_rank
    is_rank rank_le
excluded_twice = refl

inclusions-no_start_example : inclusions digits 2 8 1000 ((58 ∷ 52 ∷ []) ∷ []) ≡ out_of_fuel
inclusions-no_start_example = inclusions-no_start digits 2 8 1000 (52 ∷ []) [] refl refl refl
