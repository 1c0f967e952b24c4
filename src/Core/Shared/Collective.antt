-- ===== src/Core/Shared/Collective.antt =====
-- Which records darshan_get_shared_records of darshan-runtime/lib/darshan-core.c finds to be shared.
use darshan.Prelude.{
  ℕ, ◌≡◌, ◌≢◌, inl, inr, refl, ap, sym, ◌∙◌, Bool, ◌==◌, if◌then◌else◌, true, false, not, ◌&&◌,
  ◌||◌, Option, some, List, [], ◌∷◌, length, map, arith, Bool-cases, ==_iff,
}
use mathlib.Core.Option
use mathlib.Core.Option.{get_or}
use darshan.Prelude.Hash.{Uthash}
use darshan.Prelude.Bits.{mod_flag_isset}
use darshan.Core.State.{NameRef}
use darshan.Core.Shared.{
  heads, tails, allreduce, flags_of, own_mod_flags, all_mod_flags, mark_record, mark_records,
}

-- MPI_BAND: a bit of the result is set if it is set in every value.
unfoldable pub every_isset : List ℕ → ℕ → Bool
every_isset [] j = true
every_isset (x ∷ xs) j = mod_flag_isset x j && every_isset xs j

abbrev pub IsBand : (List ℕ → ℕ) → Type 0
IsBand band =
    (x : ℕ) (xs : List ℕ) (j : ℕ) → mod_flag_isset (band (x ∷ xs)) j ≡ every_isset (x ∷ xs) j

unfoldable pub contains : ℕ → List ℕ → Bool
contains k [] = false
contains k (x ∷ xs) = (x == k) || contains k xs

unfoldable pub select : (ℕ → ℕ) → List ℕ → List ℕ
select flags [] = []
select flags (id ∷ ids) =
    let rest = select flags ids in if not (flags id == 0) then id ∷ rest else rest

unfoldable pub with_global : ℕ → NameRef → NameRef
with_global g ref = record ref { global_mod_flags = g }

module _ {T : Type 0} ⦃h : Uthash NameRef T⦄ where
  -- The flags of one record on every process.
  unfoldable pub column : List T → ℕ → List ℕ
  unfolding flags_of
  column [] id = []
  column (t ∷ ts) id = flags_of t id ∷ column ts id

  heads_rows :
      (ts : List T) (id : ℕ) (ids : List ℕ) → heads (all_mod_flags ts (id ∷ ids)) ≡ column ts id
  unfolding heads all_mod_flags column own_mod_flags
  heads_rows [] id ids = refl
  heads_rows (t ∷ ts) id ids = ap (λ xs. flags_of t id ∷ xs) (heads_rows ts id ids)

  tails_rows :
      (ts : List T) (id : ℕ) (ids : List ℕ)
      → tails (all_mod_flags ts (id ∷ ids)) ≡ all_mod_flags ts ids
  unfolding tails all_mod_flags own_mod_flags
  tails_rows [] id ids = refl
  tails_rows (t ∷ ts) id ids = ap (λ xs. own_mod_flags t ids ∷ xs) (tails_rows ts id ids)

  -- The reduction works on one record at a time.
  pub allreduce-all_mod_flags :
      (band : List ℕ → ℕ) (ts : List T) (ids : List ℕ)
      → allreduce band (length ids) (all_mod_flags ts ids) ≡ map (λ id. band (column ts id)) ids
  unfolding allreduce
  allreduce-all_mod_flags band ts [] = refl
  allreduce-all_mod_flags band ts (id ∷ ids) =
      rw (heads_rows ts id ids, tails_rows ts id ids, allreduce-all_mod_flags band ts ids) refl

  -- Every record that has flags is in the table.
  abbrev Covers : T → (ℕ → ℕ) → Type 0
  Covers t flags = (k : ℕ) → flags k ≢ 0 → (r : NameRef) × (h.find t k ≡ some r)

  -- What the last loop leaves of a record.
  abbrev pub marked : T → (ℕ → ℕ) → List ℕ → ℕ → Option NameRef
  marked t flags ids k =
      if contains k ids && not (flags k == 0)
      then Option.map (with_global (flags k)) (h.find t k)
      else h.find t k

  store-Covers :
      (t : T) (flags : ℕ → ℕ) (id : ℕ) (u v : NameRef)
      → Covers t flags
      → h.find t id ≡ some u
      → Covers (h.store t id v) flags
  store-Covers t flags id u v c here k ne = elim (Bool-cases (id == k)) [
    | inl same ↦ (v, rw (h.find-store t id u v k here, same) refl)
    | inr other ↦ let (r, e) = c k ne in (r, rw (h.find-store t id u v k here, other) e)
  ]

  marked_skip :
      (t : T) (flags : ℕ → ℕ) (id : ℕ) (ids : List ℕ) (k : ℕ)
      → (flags id == 0) ≡ true
      → marked t flags ids k ≡ marked t flags (id ∷ ids) k
  unfolding contains
  marked_skip t flags id ids k z = elim (Bool-cases (id == k)) [
    | inl same ↦
        let z' : (flags k == 0) ≡ true = rw (sym ((==_iff id k).0 same)) z in
        elim (Bool-cases (contains k ids)) [
          | inl a ↦ rw (same, z', a) refl
          | inr a ↦ rw (same, z', a) refl
        ]
    | inr other ↦ rw other refl
  ]

  marked_store :
      (t : T) (flags : ℕ → ℕ) (id : ℕ) (ids : List ℕ) (k : ℕ) (u : NameRef)
      → (flags id == 0) ≡ false
      → h.find t id ≡ some u
      → marked (h.store t id (with_global (flags id) u)) flags ids k ≡ marked t flags (id ∷ ids) k
  unfolding contains with_global
  marked_store t flags id ids k u nz here = elim (Bool-cases (id == k)) [
    | inl same ↦
        let e = (==_iff id k).0 same in
        let nz' : (flags k == 0) ≡ false = rw (sym e) nz in
        let here' : h.find t k ≡ some u = rw (sym e) here in
        let stored : h.find (h.store t id (with_global (flags id) u)) k
            ≡ some (with_global (flags k) u) =
          rw (h.find-store t id u (with_global (flags id) u) k here, same, e) refl in
        elim (Bool-cases (contains k ids)) [
          | inl a ↦ rw (stored, here', same, nz', a) refl
          | inr a ↦ rw (stored, here', same, nz', a) refl
        ]
    | inr other ↦ rw (h.find-store t id u (with_global (flags id) u) k here, other) refl
  ]

  pub mark_records-select :
      (t : T) (flags : ℕ → ℕ) (ids : List ℕ)
      → Covers t flags
      → (t' : T) × (mark_records t ids (map flags ids) ≡ some (t', select flags ids))
        × ((k : ℕ) → h.find t' k ≡ marked t flags ids k)
  unfolding mark_records mark_record select contains with_global
  mark_records-select t flags [] c = (t, refl, λ k. refl)
  mark_records-select t flags (id ∷ ids) c = elim (Bool-cases (flags id == 0)) [
    | inl z ↦
        let (t', runs, finds) = mark_records-select t flags ids c in
        (t', rw (z, runs) refl, λ k. finds k ∙ marked_skip t flags id ids k z)
    | inr nz ↦
        let (u, here) = c id (grind arith) in
        let t1 = h.store t id (with_global (flags id) u) in
        let (t', runs, finds) =
          mark_records-select t1 flags ids
            (store-Covers t flags id u (with_global (flags id) u) c here) in
        (t', rw (nz, here, runs) refl, λ k. finds k ∙ marked_store t flags id ids k u nz here)
  ]
