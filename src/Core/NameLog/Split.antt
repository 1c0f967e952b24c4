-- ===== src/Core/NameLog/Split.antt =====
-- The loops of darshan_log_write_name_record_hash of darshan-runtime/lib/darshan-core.c: how they divide
-- the names, and what they leave of the table.
use darshan.Prelude.{
  ℕ, ◌+◌, ◌≤◌, leb, ◌⊎◌, arith, ◌≡◌, inl, inr, refl, ap, sym, ◌∙◌, Bool, ◌==◌, if◌then◌else◌, true,
  false, not, Option, none, some, List, [], ◌∷◌, Bool-cases, Option-cases, ==_iff, ==_refl,
}
use mathlib.Core.Option
use darshan.Prelude.Hash.{Uthash}
use darshan.Core.State.{NameRecord, NameRef}
use darshan.Core.Names.Inv.{bytes_used}
use darshan.Core.NameLog.{rec_len, move_ref, split_name, split_names, append_names}

-- The flags of a reference, of one module and of all processes.
unfoldable pub flags_of_ref : NameRef → ℕ × ℕ
flags_of_ref ref = (ref.mod_flags, ref.global_mod_flags)

unfoldable pub is_global : Option (ℕ × ℕ) → Bool
is_global none = false
is_global (some (own, global)) = not (global == 0)

-- The records that `flags` tells to be shared or not, in their order.
unfoldable pub select_names : (ℕ → Option (ℕ × ℕ)) → Bool → List NameRecord → List NameRecord
select_names flags wanted [] = []
select_names flags true (r ∷ rs) = elim (is_global (flags r.id)) [
  | true ↦ r ∷ select_names flags true rs
  | false ↦ select_names flags true rs
]
select_names flags false (r ∷ rs) = elim (is_global (flags r.id)) [
  | true ↦ select_names flags false rs
  | false ↦ r ∷ select_names flags false rs
]

-- When records are moved forward by the bytes of the shared records before them, none is longer than
-- that, so that no `memcpy` overlaps; `gap` is the bytes of those before the list.
unfoldable pub Apart : (ℕ → Option (ℕ × ℕ)) → ℕ → List NameRecord → Type 0
Apart flags gap [] = Unit
Apart flags gap (r ∷ rs) = elim (is_global (flags r.id)) [
  | true ↦ Apart flags (gap + rec_len r) rs
  | false ↦ ((gap ≡ 0) ⊎ (rec_len r ≤ gap)) × Apart flags gap rs
]

-- Every record has a reference and is placed.
abbrev pub AllKnown : (ℕ → Option (ℕ × ℕ)) → (NameRecord → Type 0) → List NameRecord → Type 0
AllKnown flags Placed [] = Unit
AllKnown flags Placed (r ∷ rs) =
    ((f : ℕ × ℕ) × (flags r.id ≡ some f)) × Placed r × AllKnown flags Placed rs

-- The shared records are known, as all are.
pub AllKnown-select :
    (flags : ℕ → Option (ℕ × ℕ)) (Placed : NameRecord → Type 0) (rs : List NameRecord)
    → AllKnown flags Placed rs
    → AllKnown flags Placed (select_names flags true rs)
unfolding select_names
AllKnown-select flags Placed [] known = tt
AllKnown-select flags Placed (r ∷ rs) (e, p, known) = elim (Bool-cases (is_global (flags r.id))) [
  | inl glob ↦ rw (AllKnown, select_names, glob) (e, p, AllKnown-select flags Placed rs known)
  | inr own ↦ rw (AllKnown, select_names, own) (AllKnown-select flags Placed rs known)
]

module _ {T : Type 0} ⦃h : Uthash NameRef T⦄ (flags : ℕ → Option (ℕ × ℕ))
    (Placed : NameRecord → Type 0) where
  -- The table holds these flags, and its references point to placed records of their identifiers.
  pub record Holds (t : T) : Type 0 where
    pub same : (k : ℕ) → Option.map flags_of_ref (h.find t k) ≡ flags k
    pub points :
        (k : ℕ) (r : NameRef) → h.find t k ≡ some r → (r.name_record.id ≡ k) × Placed r.name_record

  find-move_ref :
      (t : T) (r : NameRecord) (ref : NameRef) (k : ℕ)
      → h.find (move_ref t r ref) k
        ≡ (if r.id == k then some (record ref { name_record = r }) else h.find t k)
  unfolding move_ref
  find-move_ref t r ref k =
      let gone : h.find (h.delete t r.id) r.id ≡ none =
        rw (h.find-delete t r.id r.id, ==_refl r.id) refl in
      elim (Bool-cases (r.id == k)) [
        | inl e ↦
            rw (h.find-add (h.delete t r.id) r.id (record ref { name_record = r }) k gone, e) refl
        | inr e ↦
            rw
              (
                h.find-add (h.delete t r.id) r.id (record ref { name_record = r }) k gone,
                e,
                h.find-delete t r.id k,
                e,
              )
              refl
      ]

  move_ref-Holds :
      (t : T) (r : NameRecord) (ref : NameRef)
      → Holds t
      → h.find t r.id ≡ some ref
      → Placed r
      → Holds (move_ref t r ref)
  unfolding flags_of_ref
  move_ref-Holds t r ref v here p = record {
    same = λ k. elim (Bool-cases (r.id == k)) [
      | inl e ↦
          let before : some (flags_of_ref ref) ≡ flags r.id = rw here at (v.same r.id) in
          rw (find-move_ref t r ref k, e) (before ∙ ap flags ((==_iff r.id k).0 e))
      | inr e ↦ rw (find-move_ref t r ref k, e) (v.same k)
    ];
    points = λ k u found. elim (Bool-cases (r.id == k)) [
      | inl e ↦
          let found' = rw (find-move_ref t r ref k, e) at found in
          let is_r : ◌≡◌ {A = NameRecord} r u.name_record = cc in
          rw (← is_r) ((==_iff r.id k).0 e, p)
      | inr e ↦ let found' = rw (find-move_ref t r ref k, e) at found in v.points k u found'
    ];
  }

  found_flags :
      (t : T) (r : NameRecord) (f : ℕ × ℕ)
      → Holds t
      → flags r.id ≡ some f
      → (ref : NameRef) × (h.find t r.id ≡ some ref) × (flags r.id ≡ some (flags_of_ref ref))
  found_flags t r f v e = elim (Option-cases (h.find t r.id)) [
    | inl absent ↦
        let q = rw absent at (v.same r.id) in
        absurd (let q' : ◌≡◌ {A = Option (ℕ × ℕ)} none (some f) = q ∙ e in cc)
    | inr (ref, here) ↦ let q = rw here at (v.same r.id) in (ref, here, sym q)
  ]

  pub append_names-Holds :
      (t : T) (rs : List NameRecord)
      → Holds t
      → AllKnown flags Placed rs
      → (t' : T) × (append_names t rs ≡ some t') × Holds t'
  unfolding append_names
  append_names-Holds t [] v known = (t, refl, v)
  append_names-Holds t (r ∷ rs) v ((f, e), p, known) =
      let (ref, here, is) = found_flags t r f v e in
      let (t', runs, v') =
        append_names-Holds (move_ref t r ref) rs (move_ref-Holds t r ref v here p) known in
      (t', rw (append_names, here) runs, v')

  split_name-Holds :
      (room : ℕ) (t : T) (gap : ℕ) (r : NameRecord) (f : ℕ × ℕ)
      → Holds t
      → flags r.id ≡ some f
      → Placed r
      → (is_global (flags r.id) ≡ true → gap + rec_len r ≤ room)
      → (is_global (flags r.id) ≡ false → (gap ≡ 0) ⊎ (rec_len r ≤ gap))
      → (t' : T) × (split_name room t gap r
          ≡ some (
            t',
            (if is_global (flags r.id) then gap + rec_len r else gap),
            is_global (flags r.id),
          ))
        × Holds t'
  unfolding split_name is_global flags_of_ref
  split_name-Holds room t gap r f v e p fits apart =
      let (ref, here, is) = found_flags t r f v e in
      let fits' = rw is at fits in
      let apart' = rw is at apart in
      elim (Bool-cases (not (ref.global_mod_flags == 0))) [
        | inl glob ↦
            let roomy : leb (gap + rec_len r) room ≡ true = ground (arith, fits' glob) in
            (
              move_ref t r ref,
              rw (split_name, here, is, glob, roomy) refl,
              move_ref-Holds t r ref v here p,
            )
        | inr own ↦ elim (Bool-cases (gap == 0)) [
          | inl z ↦ (t, rw (split_name, here, is, own, z) refl, v)
          | inr nz ↦
              let away : leb (rec_len r) gap ≡ true = ground (arith, apart' own, nz) in
              (
                move_ref t r ref,
                rw (split_name, here, is, own, nz, away) refl,
                move_ref-Holds t r ref v here p,
              )
        ]
      ]

  pub split_names-Holds :
      (room : ℕ) (t : T) (gap : ℕ) (rs : List NameRecord)
      → Holds t
      → AllKnown flags Placed rs
      → gap + bytes_used (select_names flags true rs) ≤ room
      → Apart flags gap rs
      → (t' : T) × (split_names room t gap rs
          ≡ some (t', select_names flags false rs, select_names flags true rs))
        × Holds t'
  unfolding split_names select_names bytes_used Apart
  split_names-Holds room t gap [] v known fits apart = (t, refl, v)
  split_names-Holds room t gap (r ∷ rs) v ((f, e), p, known) fits apart =
      elim (Bool-cases (is_global (flags r.id))) [
        | inl glob ↦
            let fits' = rw (select_names, glob, bytes_used) at fits in
            let apart' = rw (Apart, glob) at apart in
            let (t1, step, v1) =
              split_name-Holds room t gap r f v e p (λ g. omega (arith, fits'))
                (λ o. absurd (ground (arith, o, glob))) in
            let step' = rw glob at step in
            let (t', runs, v') =
              split_names-Holds room t1 (gap + rec_len r) rs v1 known (omega (arith, fits'))
                apart' in
            (t', rw (split_names, step', runs, select_names, glob) refl, v')
        | inr own ↦
            let fits' = rw (select_names, own) at fits in
            let apart' = rw (Apart, own) at apart in
            let (t1, step, v1) =
              split_name-Holds room t gap r f v e p (λ g. absurd (ground (arith, g, own)))
                (λ o. apart'.0) in
            let step' = rw own at step in
            let (t', runs, v') = split_names-Holds room t1 gap rs v1 known fits' apart'.1 in
            (t', rw (split_names, step', runs, select_names, own) refl, v')
      ]
