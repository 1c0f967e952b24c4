-- ===== src/Common/Tracked/Counted.antt =====
-- The table of common values shows exact counts: darshan_track_common_val_counters of
-- darshan-runtime/lib/darshan-common.c with the macro that fills the table.
use darshan.Prelude.{
  ℕ, suc, ◌+◌, ◌≤◌, ◌<◌, ◌≡◌, ◌≢◌, refl, ap, ◌∙◌, sym, true, false, none, some, List, [], ◌∷◌,
  arith, ◌⊎◌, inl, inr, length, Bool-cases, Option-cases, ◌==◌, ltb, if◌then◌else◌, ==_iff,
}
use darshan.Prelude.Words.{int_of_size, int_of_size-eq}
use darshan.Common.Counters.{CommonVal, update_common_val}
use darshan.Common.Order.{IsRanked}
use darshan.Common.Ranked.{AtMost, update_common_val-IsRanked}
use darshan.Common.Tracked.{
  find_freq, raise_freq, track_common_val, CommonVals, note_common_val, enter, max_runtime_count,
}
use darshan.Common.Tracked.Entries.{AllOf, AllOf-map, update-AllOf}

-- How often a value is among those seen.
unfoldable pub occurs : ℕ → List ℕ → ℕ
occurs v [] = 0
occurs v (u ∷ us) = (if u == v then 1 else 0) + occurs v us

occurs-le : (v : ℕ) (us : List ℕ) → occurs v us ≤ length us
unfolding occurs
occurs-le v [] = omega arith
occurs-le v (u ∷ us) = ground (arith, occurs-le v us)

-- An entry is unused, or shows the frequency of its value in the tree.
abbrev Shows : List (ℕ × ℕ) → CommonVal → Type 0
Shows tracked e =
    ((e.val ≡ 0) × (e.count ≡ 0)) ⊎ ((e.val ≢ 0) × (find_freq e.val tracked ≡ some e.count))

-- The values `seen`, as the tree and the table count them: every frequency in the tree is exact, a
-- value that is not in it was not seen or found the tree full, and the table is in order and shows
-- frequencies of the tree.
pub record IsCounted (seen : List ℕ) (c : CommonVals) : Type 0 where
  pub exact : (v freq : ℕ) → find_freq v c.tracked ≡ some freq → freq ≡ occurs v seen
  pub full :
      (v : ℕ)
      → find_freq v c.tracked ≡ none
      → (occurs v seen ≡ 0) ⊎ (max_runtime_count ≤ length c.tracked)
  pub shown : AllOf (Shows c.tracked) c.table
  pub ranked : IsRanked c.table
  pub four : length c.table ≡ 4

find_freq-raise :
    (v u : ℕ) (tracked : List (ℕ × ℕ)) (freq : ℕ)
    → find_freq v tracked ≡ some freq
    → find_freq u (raise_freq v tracked)
      ≡ (if v == u then some (int_of_size (freq + 1)) else find_freq u tracked)
unfolding find_freq raise_freq
find_freq-raise v u [] freq e = absurd cc
find_freq-raise v u ((w, f) ∷ xs) freq e = elim (Bool-cases (w == v)) [
  | inl here ↦
      let e' = simp (here, find_freq) at e in
      let f' : f ≡ freq = cc in
      let wv : w ≡ v = (==_iff w v).0 here in
      simp (here, raise_freq, find_freq) (rw (wv, f') (ground arith))
  | inr later ↦
      let e' = simp (later, find_freq) at e in
      let k = find_freq-raise v u xs freq e' in
      simp (later, raise_freq, find_freq) (ground (arith, k, later))
]

length-raise : (v : ℕ) (tracked : List (ℕ × ℕ)) → length (raise_freq v tracked) ≡ length tracked
unfolding raise_freq
length-raise v [] = refl
length-raise v ((w, f) ∷ xs) = ground (arith, length-raise v xs)

Shows-AtMost :
    (v count : ℕ) (tracked : List (ℕ × ℕ)) (es : List CommonVal)
    → ((freq : ℕ) → find_freq v tracked ≡ some freq → freq ≤ count)
    → AllOf (Shows tracked) es
    → AtMost v count es
Shows-AtMost v count tracked [] le p = tt
Shows-AtMost v count tracked (e ∷ es) le p = (
  λ same. elim p.0 [
    | inl (z, unused) ↦ omega (arith, unused)
    | inr (nz, found) ↦ le e.count (ap (λ u. find_freq u tracked) (sym same) ∙ found)
  ],
  Shows-AtMost v count tracked es le p.1,
)

-- A tree in which only the frequency of `v` changed.
record Raised (v count : ℕ) (tracked tracked' : List (ℕ × ℕ)) : Type 0 where
  here : find_freq v tracked' ≡ some count
  others : (u : ℕ) → u ≢ v → find_freq u tracked' ≡ find_freq u tracked
  up : (freq : ℕ) → find_freq v tracked ≡ some freq → freq ≤ count

Shows-other :
    (v count : ℕ) (tracked tracked' : List (ℕ × ℕ)) (e : CommonVal)
    → Raised v count tracked tracked'
    → Shows tracked e
    → e.val ≢ v
    → Shows tracked' e
Shows-other v count tracked tracked' e r (inl z) ne = inl z
Shows-other v count tracked tracked' e r (inr (nz, found)) ne = inr (nz, r.others e.val ne ∙ found)

-- The frequency of a value in the tree, entered in the table.
enter-Shows :
    (v count : ℕ) (tracked tracked' : List (ℕ × ℕ)) (es : List CommonVal)
    → Raised v count tracked tracked'
    → count < 2147483648
    → length es ≡ 4
    → IsRanked es
    → AllOf (Shows tracked) es
    → (es' : List CommonVal) × (update_common_val false es v count ≡ some es')
      × (length es' ≡ 4)
      × IsRanked es'
      × AllOf (Shows tracked') es'
unfolding update_common_val
enter-Shows v count tracked tracked' es r int four ranked p =
    let most = Shows-AtMost v count tracked es r.up p in
    let (es', got, four', ranked') =
      update_common_val-IsRanked false es v count four ranked (λ e. most) (omega (arith, int)) in
    elim (Bool-cases (v == 0)) [
      | inl zero_value ↦
          let z : v ≡ 0 = (==_iff v 0).0 zero_value in
          (
            es,
            rw (update_common_val, zero_value) refl,
            four,
            ranked,
            AllOf-map es
                (λ e q. elim q [
                  | inl unused ↦ inl unused
                  | inr (nz, found) ↦ inr (nz, r.others e.val (λ same. nz (same ∙ z)) ∙ found)
                ])
                p,
          )
      | inr value ↦
          let ne : v ≢ 0 = ground arith in
          (
            es',
            got,
            four',
            ranked',
            update-AllOf (Shows tracked) (Shows tracked') v count es es' four ne int most p got
                (λ e q other. Shows-other v count tracked tracked' e r q other) (inr (ne, r.here)),
          )
    ]

-- The counts of the tree once `v` was seen again.
Raised-exact :
    (v count : ℕ) (seen : List ℕ) (tracked tracked' : List (ℕ × ℕ))
    → ((u freq : ℕ) → find_freq u tracked ≡ some freq → freq ≡ occurs u seen)
    → Raised v count tracked tracked'
    → count ≡ suc (occurs v seen)
    → (u freq : ℕ) → find_freq u tracked' ≡ some freq
    → freq ≡ occurs u (v ∷ seen)
unfolding occurs
Raised-exact v count seen tracked tracked' exact r once u freq e = elim (Bool-cases (v == u)) [
  | inl same ↦
      let same' : v ≡ u = (==_iff v u).0 same in
      let e' : find_freq v tracked' ≡ some freq = ap (λ w. find_freq w tracked') same' ∙ e in
      let here = r.here in
      let f : freq ≡ count = cc in
      rw (occurs, same) (omega (arith, f, once, ap (λ w. occurs w seen) same'))
  | inr other ↦
      let ne : u ≢ v = λ q. ground (arith, other, q) in
      rw (occurs, other) (omega (arith, exact u freq (sym (r.others u ne) ∙ e)))
]

Raised-full :
    (v count : ℕ) (seen : List ℕ) (tracked tracked' : List (ℕ × ℕ))
    → ((u : ℕ)
        → find_freq u tracked ≡ none
        → (occurs u seen ≡ 0) ⊎ (max_runtime_count ≤ length tracked))
    → Raised v count tracked tracked'
    → length tracked ≤ length tracked'
    → (u : ℕ) → find_freq u tracked' ≡ none
    → (occurs u (v ∷ seen) ≡ 0) ⊎ (max_runtime_count ≤ length tracked')
unfolding occurs
Raised-full v count seen tracked tracked' full r grown u e = elim (Bool-cases (v == u)) [
  | inl same ↦
      let e' : find_freq v tracked' ≡ none =
        ap (λ w. find_freq w tracked') ((==_iff v u).0 same) ∙ e in
      let here = r.here in absurd cc
  | inr other ↦
      let ne : u ≢ v = λ q. ground (arith, other, q) in
      elim (full u (sym (r.others u ne) ∙ e)) [
        | inl zero_times ↦ inl (rw (occurs, other) (omega (arith, zero_times)))
        | inr many ↦ inr (omega (arith, many, grown))
      ]
]

enter-IsCounted :
    (v count : ℕ) (seen : List ℕ) (c : CommonVals) (tracked' : List (ℕ × ℕ))
    → IsCounted seen c
    → Raised v count c.tracked tracked'
    → count ≡ suc (occurs v seen)
    → count < 2147483648
    → length c.tracked ≤ length tracked'
    → (c' : CommonVals) × (elim (update_common_val false c.table v count) [
      | none ↦ none
      | some table ↦ some (record { tracked = tracked'; table = table })
    ]
        ≡ some c')
      × IsCounted (v ∷ seen) c'
unfolding occurs
enter-IsCounted v count seen c tracked' ok r once int grown =
    let (es', got, four', ranked', shown') =
      enter-Shows v count c.tracked tracked' c.table r int ok.four ok.ranked ok.shown in
    (
      record { tracked = tracked'; table = es' },
      rw got refl,
      record {
        exact = Raised-exact v count seen c.tracked tracked' ok.exact r once;
        full = Raised-full v count seen c.tracked tracked' ok.full r grown;
        shown = shown';
        ranked = ranked';
        four = four';
      },
    )

raise-Raised :
    (v freq : ℕ) (tracked : List (ℕ × ℕ))
    → find_freq v tracked ≡ some freq
    → freq + 1 < 2147483648
    → Raised v (int_of_size (freq + 1)) tracked (raise_freq v tracked)
raise-Raised v freq tracked e int = record {
  here = ground (arith, find_freq-raise v v tracked freq e);
  others = λ u ne. ground (arith, find_freq-raise v u tracked freq e, ne);
  up = λ f e'. let same : f ≡ freq = cc in omega (arith, same, int_of_size-eq (freq + 1) int);
}

new-Raised :
    (v : ℕ) (tracked : List (ℕ × ℕ))
    → find_freq v tracked ≡ none
    → Raised v 1 tracked ((v, 1) ∷ tracked)
unfolding find_freq
new-Raised v tracked e = record {
  here = ground arith;
  others = λ u ne. ground (arith, ne);
  up = λ f e'. absurd cc;
}

-- When a value is seen, after fewer than 2^31 - 1 others, and `malloc` succeeds, the table is updated without a read past its end, and
-- the counts stay exact: every entry of the table that is used shows how often its value was seen,
-- the table is in order, and a value is left out of the tree only if 32 others are in it.
pub note_common_val-IsCounted :
    (v : ℕ) (seen : List ℕ) (c : CommonVals)
    → IsCounted seen c
    → length seen + 1 < 2147483648
    → (c' : CommonVals) × (note_common_val true v c ≡ some c') × IsCounted (v ∷ seen) c'
unfolding note_common_val track_common_val enter occurs
note_common_val-IsCounted v seen c ok few = elim (Option-cases (find_freq v c.tracked)) [
  | inr (freq, found) ↦
      let int : freq + 1 < 2147483648 =
        omega (arith, ok.exact v freq found, occurs-le v seen, few) in
      let same = int_of_size-eq (freq + 1) int in
      let (c', got, ok') =
        enter-IsCounted v (int_of_size (freq + 1)) seen c (raise_freq v c.tracked) ok
          (raise-Raised v freq c.tracked found int) (omega (arith, ok.exact v freq found, same))
          (omega (arith, same, int)) (omega (arith, length-raise v c.tracked)) in
      let t : track_common_val true v c.tracked
          ≡ (raise_freq v c.tracked, some (int_of_size (freq + 1))) =
        rw (track_common_val, found) refl in
      (c', rw (note_common_val, t) got, ok')
  | inl absent ↦ elim (Bool-cases (ltb (length c.tracked) max_runtime_count)) [
    | inl room ↦
        let never : occurs v seen ≡ 0 = ground (arith, ok.full v absent, room) in
        let (c', got, ok') =
          enter-IsCounted v 1 seen c ((v, 1) ∷ c.tracked) ok (new-Raised v c.tracked absent)
            (omega (arith, never)) (omega arith) (omega arith) in
        let t : track_common_val true v c.tracked ≡ ((v, 1) ∷ c.tracked, some 1) =
          rw (track_common_val, absent, room) refl in
        (c', rw (note_common_val, t) got, ok')
    | inr no_room ↦
        let many : max_runtime_count ≤ length c.tracked = ground arith in
        let t : track_common_val true v c.tracked ≡ (c.tracked, none) =
          rw (track_common_val, absent, no_room) refl in
        (
          c,
          rw (note_common_val, t) refl,
          record {
            exact = λ u freq e. elim (Bool-cases (v == u)) [
              | inl same ↦
                  let e' = ap (λ w. find_freq w c.tracked) ((==_iff v u).0 same) in absurd cc
              | inr other ↦ rw (occurs, other) (omega (arith, ok.exact u freq e))
            ];
            full = λ u e. inr many;
            shown = ok.shown;
            ranked = ok.ranked;
            four = ok.four;
          },
        )
  ]
]
