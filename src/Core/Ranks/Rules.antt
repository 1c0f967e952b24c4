-- ===== src/Core/Ranks/Rules.antt =====
-- The decision of darshan_should_instrument_rank of darshan-runtime/lib/darshan-core.c against what
-- the lists of ranks say.
use darshan.Prelude.{
  ℕ, zero, suc, ◌<◌, ◌≡◌, refl, ap, ◌∙◌, Bool, true, false, not, ◌&&◌, ◌||◌, Option, none, some,
  List, [], ◌∷◌, leb, if◌then◌else◌, length, arith, inl, inr, Bool-cases,
}
use darshan.Core.State.{Bytes}
use darshan.Core.Ranks.{
  Strtof, Number, Scan, covered, not_covered, parse_number, tokens, is_star, split_colon,
  excluded_bound, included_bound, in_range, is_rank, exclusions, inclusions, decide,
  should_instrument_rank,
}

unfoldable pub any_token : (Bytes → Bool) → List Bytes → Bool
any_token p [] = false
any_token p (t ∷ ts) = p t || any_token p ts

unfoldable pub all_tokens : (Bytes → Bool) → List Bytes → Bool
all_tokens p [] = true
all_tokens p (t ∷ ts) = p t && all_tokens p ts

-- The tokens after the first that covers the rank.
unfoldable pub after_first : (Bytes → Bool) → List Bytes → List Bytes
after_first p [] = []
after_first p (t ∷ ts) = if p t then ts else after_first p ts

unfoldable scanned : (Bytes → Bool) → List Bytes → Scan
scanned p [] = not_covered
scanned p (t ∷ ts) = if p t then covered ts else scanned p ts

unfoldable pub is_some : {A : Type 0} → Option A → Bool
is_some none = false
is_some (some a) = true

module _ (strtof : Bytes → Strtof) (my_rank nprocs : ℕ) where
  unfoldable pub range_covers : Option Number → Option Number → Bool
  range_covers (some start) (some end) = in_range strtof my_rank nprocs start end
  range_covers start end = false

  unfoldable pub rank_covers : Option Number → Bool
  rank_covers (some rank) = is_rank strtof my_rank nprocs rank
  rank_covers none = false

  -- Whether a token covers the rank: `*`, the rank itself, or a range that it lies in. A bound of an
  -- exclusion that is left out is the first rank or the number of ranks.
  unfoldable pub excludes : Bytes → Bool
  excludes tok = is_star tok || elim (split_colon tok) [
    | none ↦ rank_covers (parse_number strtof tok)
    | some (start, end) ↦
        range_covers (excluded_bound strtof my_rank nprocs start 0)
          (excluded_bound strtof my_rank nprocs end nprocs)
  ]

  unfoldable pub includes : Bytes → Bool
  includes tok = is_star tok || elim (split_colon tok) [
    | none ↦ rank_covers (parse_number strtof tok)
    | some (start, end) ↦
        range_covers (included_bound strtof my_rank nprocs start 0)
          (included_bound strtof my_rank nprocs end nprocs)
  ]

  -- A token of at most 31 bytes that is a range or a number.
  unfoldable pub is_exclusion : Bytes → Bool
  is_exclusion tok =
      is_star tok
      || (not (leb 32 (length tok)) && elim (split_colon tok) [
        | none ↦ is_some (parse_number strtof tok)
        | some range ↦ true
      ])

  -- A token of at most 31 bytes that is a number, or a range of which both bounds are numbers.
  unfoldable pub is_inclusion : Bytes → Bool
  is_inclusion tok =
      is_star tok
      || (not (leb 32 (length tok)) && elim (split_colon tok) [
        | none ↦ is_some (parse_number strtof tok)
        | some (start, end) ↦
            is_some (included_bound strtof my_rank nprocs start 0)
            && is_some (included_bound strtof my_rank nprocs end nprocs)
      ])

  exclusions-step :
      (fuel : ℕ) (tok : Bytes) (rest : List Bytes)
      → is_exclusion tok ≡ true
      → exclusions strtof my_rank nprocs (suc fuel) (tok ∷ rest)
        ≡ (if excludes tok then covered rest else exclusions strtof my_rank nprocs fuel rest)
  unfolding exclusions is_exclusion excludes range_covers rank_covers is_some
  exclusions-step fuel tok rest ok = ground arith

  inclusions-step :
      (fuel : ℕ) (tok : Bytes) (rest : List Bytes)
      → is_inclusion tok ≡ true
      → inclusions strtof my_rank nprocs (suc fuel) (tok ∷ rest)
        ≡ (if includes tok then covered rest else inclusions strtof my_rank nprocs fuel rest)
  unfolding inclusions is_inclusion includes range_covers rank_covers is_some
  inclusions-step fuel tok rest ok = ground arith

  exclusions-scanned :
      (fuel : ℕ) (toks : List Bytes)
      → all_tokens is_exclusion toks ≡ true
      → length toks < fuel
      → exclusions strtof my_rank nprocs fuel toks ≡ scanned excludes toks
  unfolding all_tokens scanned exclusions
  exclusions-scanned zero toks ok enough = absurd (omega arith)
  exclusions-scanned (suc fuel) [] ok enough = refl
  exclusions-scanned (suc fuel) (t ∷ ts) ok enough =
      exclusions-step fuel t ts (ground arith)
      ∙ ap (λ s. if excludes t then covered ts else s)
          (exclusions-scanned fuel ts (ground arith) (omega arith))

  inclusions-scanned :
      (fuel : ℕ) (toks : List Bytes)
      → all_tokens is_inclusion toks ≡ true
      → length toks < fuel
      → inclusions strtof my_rank nprocs fuel toks ≡ scanned includes toks
  unfolding all_tokens scanned inclusions
  inclusions-scanned zero toks ok enough = absurd (omega arith)
  inclusions-scanned (suc fuel) [] ok enough = refl
  inclusions-scanned (suc fuel) (t ∷ ts) ok enough =
      inclusions-step fuel t ts (ground arith)
      ∙ ap (λ s. if includes t then covered ts else s)
          (inclusions-scanned fuel ts (ground arith) (omega arith))

-- Scanning a list of tokens tells whether one of them covers the rank.
decide-scanned :
    (p : Bytes → Bool) (toks : List Bytes) → decide (scanned p toks) ≡ some (any_token p toks)
unfolding decide scanned any_token
decide-scanned p [] = refl
decide-scanned p (t ∷ ts) = ground (arith, decide-scanned p ts)

scanned-cases :
    (p : Bytes → Bool) (toks : List Bytes)
    → scanned p toks ≡ (if any_token p toks then covered (after_first p toks) else not_covered)
unfolding scanned any_token after_first
scanned-cases p [] = refl
scanned-cases p (t ∷ ts) = ground (arith, scanned-cases p ts)

module _ (strtof : Bytes → Strtof) (my_rank nprocs : ℕ) where
  -- Without a list of inclusions, the exclusions after the first that covers the rank are taken for
  -- inclusions: the rank is instrumented if one of these, read as an inclusion, covers it. The tokens
  -- are of at most 31 bytes and numbers or ranges, those after the first with two numbers.
  pub should_instrument_rank-leftover :
      (fuel : ℕ) (excluded : Bytes)
      → let left = after_first (excludes strtof my_rank nprocs) (tokens excluded) in
        all_tokens (is_exclusion strtof my_rank nprocs) (tokens excluded) ≡ true
        → all_tokens (is_inclusion strtof my_rank nprocs) left ≡ true
        → length (tokens excluded) < fuel
        → length left < fuel
        → should_instrument_rank strtof my_rank nprocs fuel (some excluded) none
          ≡ some (
              not (any_token (excludes strtof my_rank nprocs) (tokens excluded))
              || any_token (includes strtof my_rank nprocs) left)
  unfolding should_instrument_rank
  should_instrument_rank-leftover fuel excluded good fine enough_e enough_i =
      let left = after_first (excludes strtof my_rank nprocs) (tokens excluded) in
      let e =
        exclusions-scanned strtof my_rank nprocs fuel (tokens excluded) good enough_e
        ∙ scanned-cases (excludes strtof my_rank nprocs) (tokens excluded) in
      let i =
        ap decide (inclusions-scanned strtof my_rank nprocs fuel left fine enough_i)
        ∙ decide-scanned (includes strtof my_rank nprocs) left in
      elim (Bool-cases (any_token (excludes strtof my_rank nprocs) (tokens excluded))) [
        | inl out ↦ rw (should_instrument_rank, e, out, i) refl
        | inr free ↦ rw (should_instrument_rank, e, free) refl
      ]
