-- ===== src/Util/Names/RoundTrip.antt =====
-- What darshan_log_get_filtered_namehash of darshan-util/darshan-logutils.c finds in the name
-- records that darshan-core.c wrote.
use darshan.Prelude.{
  ℕ, ◌*◌, ◌<◌, ◌≡◌, refl, ap, ◌∙◌, sym, Bool, true, false, not, ◌&&◌, Option, none, some, List, [],
  ◌∷◌, arith, inl, inr, length, Bool-cases, Option-cases, ◌==◌, ==_iff, if◌then◌else◌,
}
use mathlib.Core.Option
use darshan.Prelude.Hash.{Uthash}
use darshan.Core.State.{Bytes, NameRecord, NameRef, Core}
use darshan.Core.Names.{is_empty, lookup_record_name}
use darshan.Core.Names.Lookup.{kept_name, kept_name-old}
use darshan.Core.Names.Kept.{next_name, logged_name, IsLogged}
use darshan.Util.Names.{
  Read, names, add_record, is_wanted, def_comp_buf_sz, get_filtered_namehash, get_namehash,
}
use darshan.Util.Names.Parse.{log_bytes, AllNames, add_all}
use darshan.Util.Names.Chunks.{RegionReader, read_chunks-all}

-- The name that the table read from a log has for an identifier.
unfoldable pub name_in : {T : Type 0} → ⦃h : Uthash NameRecord T⦄ → T → ℕ → Option Bytes
name_in ⦃h = h⦄ t k = Option.map (λ r. r.name) (h.find t k)

-- No record of the identifier has a name.
abbrev pub AllUnnamed : ℕ → List NameRecord → Type 0
AllUnnamed id [] = Unit
AllUnnamed id (r ∷ rs) = (r.id ≡ id → is_empty r.name ≡ true) × AllUnnamed id rs

-- No record without a name comes before one of the same identifier that has a name.
abbrev pub Steady : List NameRecord → Type 0
Steady [] = Unit
Steady (r ∷ rs) = (is_empty r.name ≡ true → AllUnnamed r.id rs) × Steady rs

-- No record of the table is one that the records would give a name.
abbrev Settled : {T : Type 0} → ⦃h : Uthash NameRecord T⦄ → T → List NameRecord → Type 0
Settled ⦃h⦄ t rs =
    (k : ℕ) (ref : NameRecord) → h.find t k ≡ some ref → is_empty ref.name ≡ true → AllUnnamed k rs

offered :
    (known : Option Bytes) (r : NameRecord) (k : ℕ) (now here : Option Bytes)
    → here ≡ (if r.id == k then known else here)
    → kept_name known r.name ≡ r.name
    → now ≡ (if r.id == k then some r.name else here)
    → now ≡ next_name k here r
unfolding next_name
offered known r k now here same takes e = elim (Bool-cases (r.id == k)) [
  | inl eq ↦ let same' = rw eq at same in rw (e, next_name, eq, same', takes) refl
  | inr other ↦ rw (e, next_name, other) refl
]

refused :
    (known : Bytes) (r : NameRecord) (k : ℕ) (now : Option Bytes)
    → now ≡ (if r.id == k then some known else now)
    → kept_name (some known) r.name ≡ known
    → now ≡ next_name k now r
unfolding next_name
refused known r k now same keeps = elim (Bool-cases (r.id == k)) [
  | inl eq ↦ let same' = rw eq at same in rw (next_name, eq, same', keeps) refl
  | inr other ↦ rw (next_name, other) refl
]

module _ {T : Type 0} ⦃h : Uthash NameRecord T⦄ (whitelist : Option (List ℕ)) where
  -- The four ways of offering a record to the table.
  add-found :
      (t : T) (r : NameRecord) (k : ℕ)
      → h.find t r.id ≡ none
      → name_in (h.add t r.id r) k ≡ (if r.id == k then some r.name else name_in t k)
  unfolding name_in
  add-found t r k absent = rw (h.find-add t r.id r k absent) (ground arith)

  here : (t : T) (id k : ℕ) → name_in t k ≡ (if id == k then name_in t id else name_in t k)
  here t id k = elim (Bool-cases (id == k)) [
    | inl eq ↦ rw eq (ap (name_in t) (sym ((==_iff id k).0 eq)))
    | inr other ↦ rw other refl
  ]

  -- The record that is there is kept.
  not_better :
      (t : T) (r ref : NameRecord) (rs : List NameRecord)
      → Settled t (r ∷ rs)
      → h.find t r.id ≡ some ref
      → (is_empty ref.name && not (is_empty r.name)) ≡ false
  not_better t r ref rs settled found = elim (Bool-cases (is_empty ref.name)) [
    | inl unnamed ↦ let same = (settled r.id ref found unnamed).0 refl in rw (unnamed, same) refl
    | inr has_name ↦ rw has_name refl
  ]

  add_record-Settled :
      (t : T) (r : NameRecord) (rs : List NameRecord)
      → Settled t (r ∷ rs)
      → Steady (r ∷ rs)
      → Settled (add_record whitelist t r) rs
  unfolding add_record
  add_record-Settled t r rs settled steady k ref here unnamed =
      elim (Option-cases (h.find t r.id)) [
        | inr (old, found) ↦
            let same = not_better t r old rs settled found in
            let here' = rw (add_record, found, same) at here in (settled k ref here' unnamed).1
        | inl absent ↦ elim (Bool-cases (is_wanted whitelist r.id)) [
          | inr unwanted ↦
              let here' = rw (add_record, absent, unwanted) at here in
              (settled k ref here' unnamed).1
          | inl wanted ↦
              let here' = rw (add_record, absent, wanted, h.find-add t r.id r k absent) at here in
              elim (Bool-cases (r.id == k)) [
                | inr other ↦ let here'' = rw other at here' in (settled k ref here'' unnamed).1
                | inl eq ↦
                    let here'' = rw eq at here' in
                    let is_r : r ≡ ref = cc in
                    let unnamed' : is_empty r.name ≡ true = rw is_r unnamed in
                    rw (← ((==_iff r.id k).0 eq)) (steady.0 unnamed')
              ]
        ]
      ]

  add_record-wanted :
      (t : T) (r : NameRecord) (rs : List NameRecord) (k : ℕ)
      → Settled t (r ∷ rs)
      → is_wanted whitelist k ≡ true
      → name_in (add_record whitelist t r) k ≡ next_name k (name_in t k) r
  unfolding add_record next_name
  add_record-wanted t r rs k settled ok = elim (Option-cases (h.find t r.id)) [
    | inl absent ↦
        let known : name_in t r.id ≡ none = unfold name_in in rw absent in
        elim (Bool-cases (is_wanted whitelist r.id)) [
          | inl wanted ↦
              rw (add_record, absent, wanted)
                (offered (name_in t r.id) r k _ _ (here t r.id k) (rw known refl)
                  (add-found t r k absent))
          | inr unwanted ↦
              let other : r.id == k ≡ false = ground (arith, ok, unwanted) in
              rw (add_record, absent, unwanted, next_name, other) refl
        ]
    | inr (ref, found) ↦
        let known : name_in t r.id ≡ some ref.name = unfold name_in in rw found in
        let same = not_better t r ref rs settled found in
        rw (add_record, found, same)
          (refused ref.name r k _
            (here t r.id k ∙ ap (λ n. if r.id == k then n else name_in t k) known)
            (kept_name-old ref.name r.name same))
  ]

  add_record-unwanted :
      (t : T) (r : NameRecord) (rs : List NameRecord) (k : ℕ)
      → Settled t (r ∷ rs)
      → is_wanted whitelist k ≡ false
      → name_in t k ≡ none
      → name_in (add_record whitelist t r) k ≡ none
  unfolding add_record
  add_record-unwanted t r rs k settled bar none_yet = elim (Option-cases (h.find t r.id)) [
    | inl absent ↦ elim (Bool-cases (is_wanted whitelist r.id)) [
      | inl wanted ↦
          let other : r.id == k ≡ false = ground (arith, bar, wanted) in
          rw (add_record, absent, wanted) (rw (add-found t r k absent, other) none_yet)
      | inr unwanted ↦ rw (add_record, absent, unwanted) none_yet
    ]
    | inr (ref, found) ↦
        let same = not_better t r ref rs settled found in rw (add_record, found, same) none_yet
  ]

  add_all-wanted :
      (t : T) (rs : List NameRecord) (k : ℕ)
      → Settled t rs
      → Steady rs
      → is_wanted whitelist k ≡ true
      → name_in (add_all whitelist t rs) k ≡ logged_name k (name_in t k) rs
  unfolding add_all logged_name
  add_all-wanted t [] k settled steady ok = refl
  add_all-wanted t (r ∷ rs) k settled steady ok =
      add_all-wanted (add_record whitelist t r) rs k (add_record-Settled t r rs settled steady)
        steady.1 ok
      ∙ ap (λ n. logged_name k n rs) (add_record-wanted t r rs k settled ok)

  add_all-unwanted :
      (t : T) (rs : List NameRecord) (k : ℕ)
      → Settled t rs
      → Steady rs
      → is_wanted whitelist k ≡ false
      → name_in t k ≡ none
      → name_in (add_all whitelist t rs) k ≡ none
  unfolding add_all
  add_all-unwanted t [] k settled steady bar absent = absent
  add_all-unwanted t (r ∷ rs) k settled steady bar absent =
      add_all-unwanted (add_record whitelist t r) rs k (add_record-Settled t r rs settled steady)
        steady.1 bar (add_record-unwanted t r rs k settled bar absent)

-- A region of names of a log and what is needed to read it: its bytes are those of the records `rs`,
-- each of which fits the buffer; no record without a name comes before one of the same identifier that
-- has a name; and no length in the log means no records.
pub record NameRegion {S : Type 0} {dzread : Read S} (reader : RegionReader S dzread) (swap : Bool)
    (map_len : ℕ) (s : S) (rs : List NameRecord) : Type 0 where
  pub readable : reader.IsReadable s
  pub bytes : reader.remaining s ≡ log_bytes swap rs
  pub fine : AllNames (def_comp_buf_sz * 2) rs
  pub steady : Steady rs
  pub nothing : map_len ≡ 0 → rs ≡ []

module _ (T : Type 0) ⦃h : Uthash NameRecord T⦄ where
  add_all-names :
      (whitelist : Option (List ℕ)) (rs : List NameRecord)
      → Steady rs
      → (k : ℕ)
      → name_in (add_all whitelist h.empty rs) k
        ≡ (if is_wanted whitelist k then logged_name k none rs else none)
  unfolding name_in
  add_all-names whitelist rs steady k =
      let start : name_in h.empty k ≡ none = rw (h.find-empty k) refl in
      let settled : Settled h.empty rs =
        λ j ref here. let here' = rw (h.find-empty j) at here in absurd cc in
      elim (Bool-cases (is_wanted whitelist k)) [
        | inl wanted ↦ rw wanted (
            add_all-wanted whitelist h.empty rs k settled steady wanted
            ∙ ap (λ n. logged_name k n rs) start)
        | inr unwanted ↦
            rw unwanted (add_all-unwanted whitelist h.empty rs k settled steady unwanted start)
      ]

module _ {T S : Type 0} ⦃h : Uthash NameRecord T⦄ {dzread : Read S}
    (reader : RegionReader S dzread) where
  get_filtered_namehash-add_all :
      (swap : Bool) (whitelist : Option (List ℕ)) (map_len : ℕ) (s : S) (rs : List NameRecord)
      (fuel : ℕ)
      → NameRegion reader swap map_len s rs
      → length (reader.remaining s) < fuel
      → get_filtered_namehash dzread fuel map_len swap h.empty whitelist s
        ≡ names (add_all whitelist h.empty rs)
  unfolding get_filtered_namehash add_all
  get_filtered_namehash-add_all swap whitelist map_len s rs fuel region enough =
      elim (Bool-cases (map_len == 0)) [
        | inl nil ↦ rw (get_filtered_namehash, nil, region.nothing ((==_iff map_len 0).0 nil)) refl
        | inr some_bytes ↦
            rw (get_filtered_namehash, some_bytes)
              (read_chunks-all reader swap whitelist (def_comp_buf_sz * 2) fuel s [] rs h.empty
                region.readable (omega arith) region.fine region.bytes (omega arith) enough)
      ]

  -- The name buffer of the runtime, read back from a region that holds its bytes: the table that
  -- darshan_log_get_namehash makes answers for every identifier as darshan_core_lookup_record_name
  -- did, when the buffer told every name of the runtime's table.
  pub get_namehash-lookup :
      {N : Type 0}
      → ⦃g : Uthash NameRef N⦄ → (c : Core N) (swap : Bool) (map_len : ℕ) (s : S) (fuel : ℕ)
      → IsLogged c
      → NameRegion reader swap map_len s c.log_name
      → length (reader.remaining s) < fuel
      → (t : T) × (get_namehash dzread fuel map_len swap h.empty s ≡ names t)
        × ((k : ℕ) → name_in t k ≡ lookup_record_name c k)
  unfolding get_namehash IsLogged is_wanted
  get_namehash-lookup c swap map_len s fuel logged region enough = (
    add_all none h.empty c.log_name,
    get_filtered_namehash-add_all swap none map_len s c.log_name fuel region enough,
    λ k. add_all-names T none c.log_name region.steady k ∙ sym (logged k),
  )
