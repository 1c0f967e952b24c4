-- ===== src/Core/Shared/Agreed.antt =====
-- What darshan_get_shared_records of darshan-runtime/lib/darshan-core.c tells the processes of a job.
use darshan.Prelude.{
  ℕ, zero, suc, ◌/◌, ◌%◌, ◌≤◌, ◌≡◌, ◌≢◌, ◌⊎◌, ◌↔◌, inl, inr, refl, sym, ◌∙◌, Bool, ◌==◌, true,
  false, not, ◌&&◌, some, List, [], ◌∷◌, arith, Bool-cases, Option-cases, ==_iff,
}
use darshan.Prelude.Hash.{Uthash}
use darshan.Prelude.Bits.{mod_flag_isset, isset-zero}
use darshan.Core.State.{NameRef}
use darshan.Core.Shared.{record_ids, flags_of, get_shared_records}
use darshan.Core.Shared.Collective.{
  every_isset, IsBand, contains, select, with_global, column, allreduce-all_mod_flags,
  mark_records-select,
}

abbrev pub Among : {T : Type 0} → T → List T → Type 0
Among t [] = ⊥
Among t (u ∷ us) = (u ≡ t) ⊎ Among t us

isset-half : (n fuel : ℕ) → n ≤ fuel → n ≢ 0 → (j : ℕ) × (mod_flag_isset n j ≡ true)
unfolding mod_flag_isset
isset-half n zero le ne = absurd (ne (omega (arith, le)))
isset-half n (suc fuel) le ne = elim (Bool-cases (n % 2 == 1)) [
  | inl odd ↦ (0, odd)
  | inr even ↦
      let e : n % 2 ≢ 1 = grind arith in
      let (j, set) = isset-half (n / 2) fuel (omega (arith, le)) (λ z. ne (omega (arith, e, z))) in
      (suc j, set)
]

-- A word that is not 0 has a bit.
isset-some : (n : ℕ) → n ≢ 0 → (j : ℕ) × (mod_flag_isset n j ≡ true)
isset-some n ne = isset-half n n (omega arith) ne

isset-nonzero : (n j : ℕ) → mod_flag_isset n j ≡ true → n ≢ 0
isset-nonzero n j set z = grind (arith, isset-zero j)

and_not-split : (b : Bool) (n : ℕ) → (b && not (n == 0)) ≡ true → (b ≡ true) × (n ≢ 0)
and_not-split true n e = (refl, grind arith)
and_not-split false n e = grind arith

and_not-join : (b : Bool) (n : ℕ) → b ≡ true → n ≢ 0 → (b && not (n == 0)) ≡ true
and_not-join b n e ne = grind arith

contains-select :
    (flags : ℕ → ℕ) (ids : List ℕ) (k : ℕ)
    → contains k (select flags ids) ≡ (contains k ids && not (flags k == 0))
unfolding contains select
contains-select flags [] k = refl
contains-select flags (id ∷ ids) k = elim (Bool-cases (id == k)) [
  | inl same ↦ elim (Bool-cases (flags id == 0)) [
    | inl z ↦
        let z' : (flags k == 0) ≡ true = rw (sym ((==_iff id k).0 same)) z in
        rw (same, z, contains-select flags ids k, z') (ground arith)
    | inr nz ↦
        let nz' : (flags k == 0) ≡ false = rw (sym ((==_iff id k).0 same)) nz in
        rw (same, nz, nz', contains, same) refl
  ]
  | inr other ↦ elim (Bool-cases (flags id == 0)) [
    | inl z ↦ rw (other, z, contains-select flags ids k) refl
    | inr nz ↦ rw (other, nz, contains, other, contains-select flags ids k) refl
  ]
]

module _ {T : Type 0} ⦃h : Uthash NameRef T⦄ where
  -- A module touched the record `k` on every one of the processes.
  abbrev pub Touched : List T → ℕ → ℕ → Type 0
  Touched ts k j = (u : T) → Among u ts → mod_flag_isset (flags_of u k) j ≡ true

  every_isset-Touched :
      (ts : List T) (k j : ℕ) → (every_isset (column ts k) j ≡ true) ↔ Touched ts k j
  unfolding every_isset column
  every_isset-Touched [] k j = (λ e u a. absurd a, λ f. refl)
  every_isset-Touched (t ∷ ts) k j = (
    λ e u a. elim a [
      | inl same ↦ rw (← same) (ground arith)
      | inr later ↦ (every_isset-Touched ts k j).0 (ground arith) u later
    ],
    λ f. rw (f t (inl refl), (every_isset-Touched ts k j).1 (λ u a. f u (inr a))) refl,
  )

  flags_of-found :
      (t : T) (k j : ℕ)
      → mod_flag_isset (flags_of t k) j ≡ true
      → (r : NameRef) × (h.find t k ≡ some r)
  unfolding flags_of
  flags_of-found t k j set = elim (Option-cases (h.find t k)) [
    | inr found ↦ found
    | inl absent ↦ absurd (grind (arith, isset-zero j, absent, set))
  ]

  -- The list of shared records, which is the same on every process, with the root's records in their
  -- order.
  unfoldable pub shared_ids : (List ℕ → ℕ) → T → List T → List ℕ
  unfolding select column record_ids
  shared_ids band root others =
      select (λ k. band (column (root ∷ others) k)) (record_ids (h.iter root))

  -- `shared` lists the records of the root that some module touched on every process; the table `t'`
  -- is `t` with the global flags of these records set to the modules that did.
  pub record IsMarked (root : T) (rest : List T) (shared : List ℕ) (t t' : T) : Type 0 where
    pub listed :
        (k : ℕ)
        → (contains k shared ≡ true)
          ↔ ((contains k (record_ids (h.iter root)) ≡ true) × (j : ℕ) × Touched (root ∷ rest) k j)
    pub others : (k : ℕ) → contains k shared ≡ false → h.find t' k ≡ h.find t k
    pub held :
        (k : ℕ)
        → contains k shared ≡ true
        → (r : NameRef) × (g : ℕ) × (h.find t k ≡ some r)
          × (h.find t' k ≡ some (record r { global_mod_flags = g }))
          × ((j : ℕ) → (mod_flag_isset g j ≡ true) ↔ Touched (root ∷ rest) k j)

  module _ (band : List ℕ → ℕ) (is_band : IsBand band) (root : T) (rest : List T) where
    abbrev all_flags : ℕ → ℕ
    all_flags k = band (column (root ∷ rest) k)

    all_flags-Touched :
        (k j : ℕ) → (mod_flag_isset (all_flags k) j ≡ true) ↔ Touched (root ∷ rest) k j
    unfolding column
    all_flags-Touched k j =
        rw (is_band (flags_of root k) (column rest k) j) (every_isset-Touched (root ∷ rest) k j)

    all_flags-found :
        (t : T)
        → Among t (root ∷ rest)
        → (k : ℕ) → all_flags k ≢ 0
        → (r : NameRef) × (h.find t k ≡ some r)
    all_flags-found t a k ne =
        let (j, set) = isset-some (all_flags k) ne in
        flags_of-found t k j ((all_flags-Touched k j).0 set t a)

    -- A record of the root is listed if some module touched it on every process.
    shared_ids-Touched :
        (k : ℕ)
        → (contains k (shared_ids band root rest) ≡ true)
          ↔ ((contains k (record_ids (h.iter root)) ≡ true) × (j : ℕ) × Touched (root ∷ rest) k j)
    unfolding shared_ids
    shared_ids-Touched k =
        let ids = record_ids (h.iter root) in
        (
          λ e.
              let e' = rw (contains-select all_flags ids k) at e in
              let (listed, ne) = and_not-split (contains k ids) (all_flags k) e' in
              let (j, set) = isset-some (all_flags k) ne in
              (listed, j, (all_flags-Touched k j).0 set),
          λ (listed, j, touched). rw (contains-select all_flags ids k) (
              and_not-join (contains k ids) (all_flags k) listed
                (isset-nonzero (all_flags k) j ((all_flags-Touched k j).1 touched))),
        )

    -- In a job where MPI_BAND keeps the bits that all values have and the allocations succeed, the call returns on every process,
    -- its assertion holds, and all processes get the same list: the records of the root, in its order,
    -- of which some module is flagged in the tables of all processes. Each process finds for a listed
    -- record, which it holds, the global flags of exactly the modules flagged on all processes, and
    -- every other entry of its table as it was.
    pub get_shared_records-IsMarked :
        (t : T)
        → Among t (root ∷ rest)
        → (t' : T) × (get_shared_records true band root rest t
            ≡ some (t', shared_ids band root rest))
          × IsMarked root rest (shared_ids band root rest) t t'
    unfolding get_shared_records shared_ids with_global
    get_shared_records-IsMarked t a =
        let ids = record_ids (h.iter root) in
        let (t', runs, finds) = mark_records-select t all_flags ids (all_flags-found t a) in
        (
          t',
          rw (allreduce-all_mod_flags band (root ∷ rest) ids) runs,
          record {
            listed = shared_ids-Touched;
            others = λ k out.
                let out' = rw (contains-select all_flags ids k) at out in finds k ∙ rw out' refl;
            held = λ k listed.
                let listed' = rw (contains-select all_flags ids k) at listed in
                let (e, ne) = and_not-split (contains k ids) (all_flags k) listed' in
                let (r, here) = all_flags-found t a k ne in
                (
                  r,
                  all_flags k,
                  here,
                  finds k ∙ rw (listed', here, with_global) refl,
                  all_flags-Touched k,
                );
          },
        )
