-- ===== src/Common/Order.antt =====
-- The order in which the table of common values is kept.
use darshan.Prelude.{
  ℕ, zero, suc, ◌≤◌, ◌<◌, ◌≡◌, ◌≢◌, ◌⊎◌, ◌==◌, false, some, List, [], ◌∷◌, length, arith, refl,
  Bool-cases, inl, inr,
}
use darshan.Common.Counters.{CommonVal, copy_others}

-- `e` ranks at or below `d`: less often, or as often with at most its value.
abbrev pub Below : CommonVal → CommonVal → Type 0
Below d e = (e.count < d.count) ⊎ ((e.count ≡ d.count) × (e.val ≤ d.val))

abbrev pub AllBelow : CommonVal → List CommonVal → Type 0
AllBelow d [] = Unit
AllBelow d (e ∷ es) = Below d e × AllBelow d es

-- No entry holds the value.
abbrev pub Lacks : ℕ → List CommonVal → Type 0
Lacks v [] = Unit
Lacks v (e ∷ es) = (e.val ≢ v) × Lacks v es

-- Falling, and no value but the 0 of an unused entry twice.
abbrev pub IsRanked : List CommonVal → Type 0
IsRanked [] = Unit
IsRanked (e ∷ es) = AllBelow e es × ((e.val ≡ 0) ⊎ Lacks e.val es) × IsRanked es

pub AllBelow-trans :
    (d e : CommonVal) (es : List CommonVal) → Below d e → AllBelow e es → AllBelow d es
AllBelow-trans d e [] b bs = tt
AllBelow-trans d e (x ∷ es) b bs = (grind arith, AllBelow-trans d e es b bs.1)

-- The copied entries are some of those that are left, in their order.
pub record Copied (n v : ℕ) (es es' : List CommonVal) : Type 0 where
  pub size : length es' ≡ n
  pub lacks : Lacks v es'
  pub below : (d : CommonVal) → AllBelow d es → AllBelow d es'
  pub still : (u : ℕ) → Lacks u es → Lacks u es'
  pub ranked : IsRanked es → IsRanked es'

Copied-none : (v : ℕ) (es : List CommonVal) → Copied 0 v es []
Copied-none v es = record {
  size = refl;
  lacks = tt;
  below = λ d b. tt;
  still = λ u l. tt;
  ranked = λ r. tt;
}

Copied-keep :
    (n v : ℕ) (e : CommonVal) (es es' : List CommonVal)
    → e.val ≢ v
    → Copied n v es es'
    → Copied (suc n) v (e ∷ es) (e ∷ es')
Copied-keep n v e es es' ne c = record {
  size = omega (arith, c.size);
  lacks = (ne, c.lacks);
  below = λ d b. (b.0, c.below d b.1);
  still = λ u l. (l.0, c.still u l.1);
  ranked = λ (below, new, r).
      (c.below e below, elim new [ inl z ↦ inl z | inr l ↦ inr (c.still e.val l) ], c.ranked r);
}

Copied-skip :
    (n v : ℕ) (e : CommonVal) (es es' : List CommonVal)
    → Copied n v es es'
    → Copied n v (e ∷ es) es'
Copied-skip n v e es es' c = record {
  size = c.size;
  lacks = c.lacks;
  below = λ d b. c.below d b.1;
  still = λ u l. c.still u l.1;
  ranked = λ r. c.ranked r.2;
}

abbrev pub Copies : ℕ → ℕ → List CommonVal → Type 0
Copies n v es = (es' : List CommonVal) × (copy_others n v es ≡ some es') × Copied n v es es'

copy_others-keep :
    (n v : ℕ) (e : CommonVal) (es : List CommonVal)
    → e.val ≢ v
    → Copies n v es
    → Copies (suc n) v (e ∷ es)
unfolding copy_others
copy_others-keep n v e es ne (es', got, c) =
    let other : (e.val == v) ≡ false = ground arith in
    (e ∷ es', rw (copy_others, other, got) refl, Copied-keep n v e es es' ne c)

-- Where no entry holds the value, all entries can be copied; one more is needed where one may.
pub copy_others-Lacks : (n v : ℕ) (es : List CommonVal) → Lacks v es → n ≤ length es → Copies n v es
unfolding copy_others
copy_others-Lacks zero v es l h = ([], refl, Copied-none v es)
copy_others-Lacks (suc n) v [] l h = absurd (omega arith)
copy_others-Lacks (suc n) v (e ∷ es) l h =
    copy_others-keep n v e es l.0 (copy_others-Lacks n v es l.1 (omega arith))

pub Lacks-rest :
    (v : ℕ) (e : CommonVal) (es : List CommonVal)
    → v ≢ 0
    → e.val ≡ v
    → (e.val ≡ 0) ⊎ Lacks e.val es
    → Lacks v es
Lacks-rest v e es ne same (inl z) = absurd (ne (cc))
Lacks-rest v e es ne same (inr l) = rw same at l

pub copy_others-IsRanked :
    (n v : ℕ) (es : List CommonVal) → v ≢ 0 → IsRanked es → n < length es → Copies n v es
unfolding copy_others
copy_others-IsRanked zero v es ne r h = ([], refl, Copied-none v es)
copy_others-IsRanked (suc n) v [] ne r h = absurd (omega arith)
copy_others-IsRanked (suc n) v (e ∷ es) ne (below, new, r) h = elim (Bool-cases (e.val == v)) [
  | inr other ↦
      copy_others-keep n v e es (ground arith) (copy_others-IsRanked n v es ne r (omega arith))
  | inl same ↦
      let lacks : Lacks v es = Lacks-rest v e es ne (ground arith) new in
      let (es', got, c) = copy_others-Lacks (suc n) v es lacks (omega arith) in
      (es', rw (copy_others, same, got) refl, Copied-skip (suc n) v e es es' c)
]
