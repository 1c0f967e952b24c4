-- ===== src/Tests/Shared.antt =====
-- Shared records.
use darshan.Prelude.{
  true, ℕ, zero, suc, ◌+◌, ◌*◌, ◌/◌, ◌%◌, ◌≤◌, ◌≡◌, min, ◌&&◌, some, List, [], ◌∷◌, refl, arith,
  inl, inr, Bool-cases,
}
use darshan.Prelude.Bits.{mod_flag_isset, isset-zero}
use darshan.Core.State.{NameRef}
use darshan.Core.Shared.{get_shared_records}
use darshan.Core.Shared.Collective.{IsBand, every_isset}
use darshan.Core.Shared.Agreed.{shared_ids, IsMarked, get_shared_records-IsMarked}
use darshan.Tests.Setup.{Names, name_table, path_x}

-- The digits of both words, on enough fuel for the first.
and_words : ℕ → ℕ → ℕ → ℕ
and_words zero a b = 0
and_words (suc fuel) a b = and_words fuel (a / 2) (b / 2) * 2 + min (a % 2) (b % 2)

isset-and_words :
    (fuel a b j : ℕ)
    → a ≤ fuel
    → mod_flag_isset (and_words fuel a b) j ≡ (mod_flag_isset a j && mod_flag_isset b j)
unfolding mod_flag_isset and_words
isset-and_words zero a b j le = let z : a ≡ 0 = omega (arith, le) in rw (z, isset-zero j) refl
isset-and_words (suc fuel) a b zero le = ground arith
isset-and_words (suc fuel) a b (suc j) le =
    let e : and_words (suc fuel) a b / 2 ≡ and_words fuel (a / 2) (b / 2) = ground arith in
    rw e (isset-and_words fuel (a / 2) (b / 2) j (omega (arith, le)))

unfoldable pub band_words : List ℕ → ℕ
unfolding and_words
band_words [] = 0
band_words (x ∷ []) = x
band_words (x ∷ y ∷ ys) = and_words x x (band_words (y ∷ ys))

pub band_words-IsBand : IsBand band_words
unfolding band_words every_isset
band_words-IsBand x [] j = elim (Bool-cases (mod_flag_isset x j)) [
  | inl e ↦ rw e refl
  | inr e ↦ rw e refl
]
band_words-IsBand x (y ∷ ys) j =
    rw (isset-and_words x x (band_words (y ∷ ys)) j (omega arith), band_words-IsBand y ys j) refl

abbrev pub ref_x : ℕ → ℕ → NameRef
ref_x id flags = record {
  name_record = record { id = id; name = path_x };
  mod_flags = flags;
  global_mod_flags = 0;
}

-- Both processes opened 77, only the first 78.
abbrev pub names_first : Names
names_first = name_table.add (name_table.add name_table.empty 77 (ref_x 77 6)) 78 (ref_x 78 2)

abbrev names_second : Names
names_second = name_table.add name_table.empty 77 (ref_x 77 3)

get_shared_records-IsMarked_example :
    (t' : Names) × (get_shared_records true band_words names_first (names_second ∷ []) names_second
      ≡ some (t', shared_ids band_words names_first (names_second ∷ [])))
    × IsMarked names_first
        (names_second ∷ [])
        (shared_ids band_words names_first (names_second ∷ []))
        names_second
        t'
get_shared_records-IsMarked_example =
    get_shared_records-IsMarked band_words band_words-IsBand names_first (names_second ∷ [])
      names_second (inr (inl refl))

only_77 : shared_ids band_words names_first (names_second ∷ []) ≡ 77 ∷ []
unfolding shared_ids band_words
only_77 = refl
