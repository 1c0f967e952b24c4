-- ===== src/Core/Exclude/Laws.antt =====
-- What darshan_core_name_is_excluded decides, as a statement about the configured rules.
use darshan.Prelude.{
  ℕ, ◌≡◌, ◌↔◌, ◌⊎◌, ◌==◌, Bool, true, false, not, ◌&&◌, ◌||◌, Option, none, some, List, [], ◌∷◌,
  ◌++◌, arith, inl, inr, Bool-cases, ==_iff, refl,
}
use mathlib.Core.Bool.{false≢true}
use darshan.Prelude.Bits.{mod_flag_isset}
use darshan.Core.State.{Bytes, Regex, Config}
use darshan.Core.Exclude.{
  starts_with, dir_matches, regex_matches, name_is_path, name_is_excluded, is_null,
}

-- The predicate holds of an element of the list.
abbrev pub Any {ℓ} : {A : Type ℓ} → (A → Type 0) → List A → Type 0
Any P [] = ⊥
Any P (x ∷ xs) = P x ⊎ Any P xs

-- The directory is a prefix of the name.
abbrev pub IsPrefixOf : Bytes → Bytes → Type 0
IsPrefixOf dir name = (rest : Bytes) × (dir ++ rest ≡ name)

-- The expression is meant for the module and matches the name.
abbrev pub Hits : ℕ → Bytes → Regex → Type 0
Hits mod_id name r = (mod_flag_isset r.mod_flags mod_id ≡ true) × (r.matches name ≡ true)

starts_with_iff : (dir name : Bytes) → (starts_with dir name ≡ true) ↔ IsPrefixOf dir name
unfolding starts_with
starts_with_iff [] name = (λ _. (name, refl), λ _. refl)
starts_with_iff (a ∷ dir) [] = (λ e. cc, λ (rest, e). cc)
starts_with_iff (a ∷ dir) (b ∷ name) =
    let (to, from) = starts_with_iff dir name in
    elim (Bool-cases (a == b)) [
      | inl same ↦
          let e = (==_iff a b).0 same in
          rw same (λ t. let (rest, p) = to t in (rest, cc), λ (rest, p). from (rest, cc))
      | inr other ↦ rw other (λ e. cc, λ (rest, e). ground arith)
    ]

dir_matches_iff :
    (dirs : List Bytes) (name : Bytes)
    → (dir_matches dirs name ≡ true) ↔ Any (λ dir. IsPrefixOf dir name) dirs
unfolding dir_matches
dir_matches_iff [] name = (λ e. cc, λ e. absurd e)
dir_matches_iff (dir ∷ dirs) name =
    let (to, from) = dir_matches_iff dirs name in
    let (to', from') = starts_with_iff dir name in
    elim (Bool-cases (starts_with dir name)) [
      | inl here ↦ rw here (λ _. inl (to' here), λ _. refl)
      | inr out ↦
          rw out (λ e. inr (to e), elim [ inl p ↦ (let t = from' p in cc) | inr p ↦ from p ])
    ]

regex_matches_iff :
    (rs : List Regex) (mod_id : ℕ) (name : Bytes)
    → (regex_matches rs mod_id name ≡ true) ↔ Any (Hits mod_id name) rs
unfolding regex_matches
regex_matches_iff [] mod_id name = (λ e. cc, λ e. absurd e)
regex_matches_iff (r ∷ rs) mod_id name =
    let (to, from) = regex_matches_iff rs mod_id name in
    elim (Bool-cases (mod_flag_isset r.mod_flags mod_id && r.matches name)) [
      | inl here ↦ rw here (λ _. inl (ground arith), λ _. refl)
      | inr out ↦ rw out (λ e. inr (to e), elim [ inl p ↦ ground arith | inr p ↦ from p ])
    ]

-- The directories whose files are excluded: the user's, if given, in place of the default ones.
abbrev pub excluded_dirs : Config → List Bytes
excluded_dirs cfg = elim cfg.user_exclude_dirs [ none ↦ cfg.exclude_dirs | some dirs ↦ dirs ]

-- A rule excludes the name: one for directories, of a module whose names are paths, or an expression.
abbrev pub IsExcludedByRule : Config → Bytes → ℕ → Type 0
IsExcludedByRule cfg name mod_id =
    ((name_is_path mod_id ≡ true) × Any (λ dir. IsPrefixOf dir name) (excluded_dirs cfg))
    ⊎ Any (Hits mod_id name) cfg.rec_exclusion_list

-- A rule supersedes the exclusion: the default inclusions, where the user gave no directories, or an
-- expression.
abbrev pub IsIncludedByRule : Config → Bytes → ℕ → Type 0
IsIncludedByRule cfg name mod_id =
    ((name_is_path mod_id ≡ true)
      × (cfg.user_exclude_dirs ≡ none)
      × Any (λ dir. IsPrefixOf dir name) cfg.include_dirs)
    ⊎ Any (Hits mod_id name) cfg.rec_inclusion_list

-- Both kinds of rules as tests.
by_exclusion : Config → Bytes → ℕ → Bool
by_exclusion cfg name mod_id =
    (name_is_path mod_id && dir_matches (excluded_dirs cfg) name)
    || regex_matches cfg.rec_exclusion_list mod_id name

by_inclusion : Config → Bytes → ℕ → Bool
by_inclusion cfg name mod_id =
    (name_is_path mod_id && is_null cfg.user_exclude_dirs && dir_matches cfg.include_dirs name)
    || regex_matches cfg.rec_inclusion_list mod_id name

or_iff : (a b : Bool) → (a || b ≡ true) ↔ ((a ≡ true) ⊎ (b ≡ true))
or_iff true b = (λ _. inl refl, λ _. refl)
or_iff false b = (λ e. inr e, elim [ inl e ↦ (let e' : false ≡ true = e in cc) | inr e ↦ e ])

and_iff : (a b : Bool) → (a && b ≡ true) ↔ ((a ≡ true) × (b ≡ true))
and_iff true b = (λ e. (refl, e), λ (p, q). q)
and_iff false b = (λ e. cc, λ (p, q). cc)

is_null_iff : (dirs : Option (List Bytes)) → (is_null dirs ≡ true) ↔ (dirs ≡ none)
unfolding is_null
is_null_iff none = (λ _. refl, λ _. refl)
is_null_iff (some ds) = (λ e. cc, λ e. cc)

by_exclusion_iff :
    (cfg : Config) (name : Bytes) (mod_id : ℕ)
    → (by_exclusion cfg name mod_id ≡ true) ↔ IsExcludedByRule cfg name mod_id
unfolding by_exclusion
by_exclusion_iff cfg name mod_id =
    let path = name_is_path mod_id in
    let dirs = dir_matches_iff (excluded_dirs cfg) name in
    let hits = regex_matches_iff cfg.rec_exclusion_list mod_id name in
    let both = and_iff path (dir_matches (excluded_dirs cfg) name) in
    let either =
      or_iff (path && dir_matches (excluded_dirs cfg) name)
        (regex_matches cfg.rec_exclusion_list mod_id name) in
    (
      λ t. elim (either.0 t) [
        | inl p ↦ inl ((both.0 p).0, dirs.0 (both.0 p).1)
        | inr p ↦ inr (hits.0 p)
      ],
      elim [
        | inl p ↦ either.1 (inl (both.1 (p.0, dirs.1 p.1)))
        | inr p ↦ either.1 (inr (hits.1 p))
      ],
    )

by_inclusion_iff :
    (cfg : Config) (name : Bytes) (mod_id : ℕ)
    → (by_inclusion cfg name mod_id ≡ true) ↔ IsIncludedByRule cfg name mod_id
unfolding by_inclusion is_null
by_inclusion_iff cfg name mod_id =
    let path = name_is_path mod_id in
    let dirs = dir_matches_iff cfg.include_dirs name in
    let hits = regex_matches_iff cfg.rec_inclusion_list mod_id name in
    let unset = is_null_iff cfg.user_exclude_dirs in
    let both = and_iff path (is_null cfg.user_exclude_dirs) in
    let all = and_iff (path && is_null cfg.user_exclude_dirs) (dir_matches cfg.include_dirs name) in
    let either =
      or_iff (path && is_null cfg.user_exclude_dirs && dir_matches cfg.include_dirs name)
        (regex_matches cfg.rec_inclusion_list mod_id name) in
    (
      λ t. elim (either.0 t) [
        | inl p ↦ let (q, d) = all.0 p in let (a, n) = both.0 q in inl (a, unset.0 n, dirs.0 d)
        | inr p ↦ inr (hits.0 p)
      ],
      elim [
        | inl p ↦ either.1 (inl (all.1 (both.1 (p.0, unset.1 p.1), dirs.1 p.2)))
        | inr p ↦ either.1 (inr (hits.1 p))
      ],
    )

name_is_excluded-eq :
    (cfg : Config) (name : Bytes) (mod_id : ℕ)
    → name_is_excluded cfg (some name) mod_id
      ≡ (by_exclusion cfg name mod_id && not (by_inclusion cfg name mod_id))
unfolding name_is_excluded by_exclusion by_inclusion
name_is_excluded-eq cfg name mod_id = ground arith

only_false : (b : Bool) → ¬ (b ≡ true) → b ≡ false
only_false true n = absurd (n refl)
only_false false n = refl

-- A name is excluded exactly when some rule excludes it and no rule that supersedes it includes it. The
-- user's directories stand in place of the default exclusions, and with them the default inclusions do
-- not supersede.
pub name_is_excluded_iff :
    (cfg : Config) (name : Bytes) (mod_id : ℕ)
    → (name_is_excluded cfg (some name) mod_id ≡ true)
      ↔ (IsExcludedByRule cfg name mod_id × (¬ (IsIncludedByRule cfg name mod_id)))
name_is_excluded_iff cfg name mod_id =
    let e = by_exclusion_iff cfg name mod_id in
    let i = by_inclusion_iff cfg name mod_id in
    rw name_is_excluded-eq (
      λ t. (
        e.0 (ground arith),
        λ p. let p' = i.1 p in let never : false ≡ true = ground arith in absurd (false≢true never),
      ),
      λ (p, q). ground (arith, e.1 p, only_false (by_inclusion cfg name mod_id) (λ t. q (i.0 t))),
    )
