-- ===== src/Common/Tracked/Entries.antt =====
-- The entries of the table of common values after DARSHAN_UPDATE_COMMON_VAL_COUNTERS of
-- darshan-runtime/lib/darshan-common.h: the new one, and old ones of other values.
use darshan.Prelude.{
  ℕ, zero, suc, ◌+◌, ◌-◌, ◌≤◌, ◌<◌, ◌≡◌, ◌≢◌, refl, ap, false, some, List, [], ◌∷◌, ◌++◌, arith,
  inl, inr, length, Bool-cases, Option-cases, ◌==◌,
}
use darshan.Prelude.Words.{int_of_size-eq}
use darshan.Common.Counters.{
  CommonVal, is_above, above, from_first, copy_others, total_of, place_value, update_common_val,
}
use darshan.Common.Ranked.{AtMost}

abbrev pub AllOf : (CommonVal → Type 0) → List CommonVal → Type 0
AllOf P [] = Unit
AllOf P (e ∷ es) = P e × AllOf P es

pub AllOf-map :
    {P Q : CommonVal → Type 0} (es : List CommonVal)
    → ((e : CommonVal) → P e → Q e)
    → AllOf P es
    → AllOf Q es
AllOf-map [] k p = tt
AllOf-map (e ∷ es) k p = (k e p.0, AllOf-map es k p.1)

module _ (P : CommonVal → Type 0) where
  AllOf-append : (xs ys : List CommonVal) → AllOf P xs → AllOf P ys → AllOf P (xs ++ ys)
  AllOf-append [] ys p q = q
  AllOf-append (x ∷ xs) ys p q = (p.0, AllOf-append xs ys p.1 q)

module _ (P Q : CommonVal → Type 0) (v total : ℕ) where
  above-AllOf :
      (es : List CommonVal)
      → AtMost v total es
      → AllOf P es
      → AllOf (λ e. P e × (e.val ≢ v)) (above v total es)
  unfolding above is_above
  above-AllOf [] most p = tt
  above-AllOf (e ∷ es) most p = elim (Bool-cases (is_above v total e)) [
    | inl up ↦
        simp (up, above)
          ((p.0, λ same. ground (arith, up, most.0 same, same)), above-AllOf es most.1 p.1)
    | inr down ↦ simp (down, above) tt
  ]

  from_first-AllOf : (es : List CommonVal) → AllOf P es → AllOf P (from_first v total es)
  unfolding from_first
  from_first-AllOf [] p = tt
  from_first-AllOf (e ∷ es) p = elim (Bool-cases (is_above v total e)) [
    | inl up ↦ simp (up, from_first) (from_first-AllOf es p.1)
    | inr down ↦ simp (down, from_first) p
  ]

  copy_others-AllOf :
      (n : ℕ) (es low : List CommonVal)
      → AllOf P es
      → copy_others n v es ≡ some low
      → AllOf (λ e. P e × (e.val ≢ v)) low
  unfolding copy_others
  copy_others-AllOf zero es low p got = let e : [] ≡ low = cc in rw (← e) tt
  copy_others-AllOf (suc n) [] low p got = absurd cc
  copy_others-AllOf (suc n) (e ∷ es) low p got = elim (Bool-cases (e.val == v)) [
    | inl same ↦
        let got' = simp (same, copy_others) at got in copy_others-AllOf (suc n) es low p.1 got'
    | inr other ↦ elim (Option-cases (copy_others n v es)) [
      | inl stuck ↦ let got' = simp (other, copy_others, stuck) at got in absurd cc
      | inr (rest, found) ↦
          let got' = simp (other, copy_others, found) at got in
          let here : e ∷ rest ≡ low = cc in
          rw (← here)
            ((p.0, λ same. ground (arith, other, same)), copy_others-AllOf n es rest p.1 found)
    ]
  ]

  length-above : (es : List CommonVal) → length (above v total es) ≤ length es
  unfolding above
  length-above [] = omega arith
  length-above (e ∷ es) = elim (Bool-cases (is_above v total e)) [
    | inl up ↦ simp (up, above) (omega (arith, length-above es))
    | inr down ↦ simp (down, above) (omega arith)
  ]

  above-all : (es : List CommonVal) → length (above v total es) ≡ length es → above v total es ≡ es
  unfolding above
  above-all [] e = refl
  above-all (x ∷ xs) e = elim (Bool-cases (is_above v total x)) [
    | inl up ↦
        let e' = simp (up, above) at e in
        simp (up, above) (ap (x ∷◌) (above-all xs (omega (arith, e'))))
    | inr down ↦ let e' = simp (down, above) at e in absurd (omega (arith, e'))
  ]

  -- An update of a full table with a count that is set.
  pub update-AllOf :
      (es es' : List CommonVal)
      → length es ≡ 4
      → v ≢ 0
      → total < 2147483648
      → AtMost v total es
      → AllOf P es
      → update_common_val false es v total ≡ some es'
      → ((e : CommonVal) → P e → e.val ≢ v → Q e)
      → Q (record { val = v; count = total })
      → AllOf Q es'
  unfolding update_common_val place_value total_of
  update-AllOf es es' four value int most p got k new =
      let plain : total_of false es v total ≡ total =
        unfold total_of in
        (let none : total + 0 ≡ total = omega arith in rw none (int_of_size-eq total int)) in
      let nonzero : v == 0 ≡ false = ground arith in
      let high = AllOf-map (above v total es) (λ e q. k e q.0 q.1) (above-AllOf es most p) in
      elim (Bool-cases (length (above v total es) == 4)) [
        | inl full ↦
            let got' = rw (update_common_val, nonzero, plain, place_value, full) at got in
            let same : es ≡ es' = cc in
            let whole = above-all es (ground (arith, four)) in rw (← same, ← whole) high
        | inr room ↦
            elim (Option-cases
              (copy_others (3 - length (above v total es)) v (from_first v total es))) [
                | inl stuck ↦
                    let got' =
                      rw (update_common_val, nonzero, plain, place_value, room, stuck) at got in
                    absurd cc
                | inr (low, found) ↦
                    let got' =
                      rw (update_common_val, nonzero, plain, place_value, room, found) at got in
                    let same : above v total es ++ record { val = v; count = total } ∷ low ≡ es' =
                      cc in
                    let rest = copy_others-AllOf _ _ low (from_first-AllOf es p) found in
                    rw (← same) (
                      AllOf-append Q (above v total es) _ high
                        (new, AllOf-map low (λ e q. k e q.0 q.1) rest))
              ]
      ]
