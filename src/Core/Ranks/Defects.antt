-- ===== src/Core/Ranks/Defects.antt =====
-- Lists of ranks at which darshan_should_instrument_rank of darshan-runtime/lib/darshan-core.c does
-- not end.
use darshan.Prelude.{ℕ, zero, suc, ◌≡◌, refl, true, false, none, List, [], ◌∷◌, leb, length, arith}
use darshan.Core.State.{Bytes}
use darshan.Core.Ranks.{
  Strtof, colon, out_of_fuel, parse_number, is_star, split_colon, included_bound, exclusions,
  inclusions, starts_colon,
}

no_star : (end : Bytes) → is_star (colon ∷ end) ≡ false
unfolding is_star
no_star [] = refl
no_star (b ∷ bs) = refl

module _ (strtof : Bytes → Strtof) (my_rank nprocs : ℕ) where
  -- A range of inclusions that leaves out its start is never passed, although the documentation lets
  -- a range leave out a bound: whatever the number of rounds, the scan has not ended. The token has
  -- at most 31 bytes, and `strtof` reads nothing from an empty string.
  pub inclusions-no_start :
      (fuel : ℕ) (end : Bytes) (rest : List Bytes)
      → leb 32 (length (colon ∷ end)) ≡ false
      → (strtof []).is_zero ≡ true
      → (strtof []).consumed ≡ 0
      → inclusions strtof my_rank nprocs fuel ((colon ∷ end) ∷ rest) ≡ out_of_fuel
  unfolding inclusions split_colon
  inclusions-no_start zero end rest short zeroed nothing = refl
  inclusions-no_start (suc fuel) end rest short zeroed nothing =
      let bad : included_bound strtof my_rank nprocs [] 0 ≡ none =
        unfold included_bound starts_colon parse_number in ground (arith, zeroed, nothing) in
      rw (inclusions, no_star end, short, bad)
        (inclusions-no_start fuel end rest short zeroed nothing)

  -- An exclusion of a single rank that is not a number is never passed.
  pub exclusions-no_number :
      (fuel : ℕ) (tok : Bytes) (rest : List Bytes)
      → is_star tok ≡ false
      → split_colon tok ≡ none
      → leb 32 (length tok) ≡ false
      → parse_number strtof tok ≡ none
      → exclusions strtof my_rank nprocs fuel (tok ∷ rest) ≡ out_of_fuel
  unfolding exclusions
  exclusions-no_number zero tok rest other single short nothing = refl
  exclusions-no_number (suc fuel) tok rest other single short nothing =
      rw (exclusions, other, short, single, nothing)
        (exclusions-no_number fuel tok rest other single short nothing)
