-- ===== src/Core/NameLog/Written.antt =====
-- What darshan_log_write_name_record_hash of darshan-runtime/lib/darshan-core.c appends to the log, and
-- the names that it leaves to the modules.
use darshan.Prelude.{
  ℕ, ◌<◌, ◌≤◌, ltb, ◌+◌, ◌≡◌, ◌⊎◌, inl, inr, refl, ◌∙◌, Bool, true, false, Option, none, some, List,
  [], ◌∷◌, ◌++◌, arith, Bool-cases, Option-cases, ◌==◌, ==_refl,
}
use mathlib.Core.Option
use darshan.Prelude.Hash.{Uthash}
use darshan.Core.State.{NameRecord, NameRef, Core}
use darshan.Core.Names.{lookup_record_name}
use darshan.Core.Names.Inv.{NamesValid, Within, bytes_used}
use darshan.Core.Names.Kept.{IsLogged, logged_name, next_name}
use darshan.Core.NameLog.{names_to_log}
use darshan.Core.NameLog.Split.{
  flags_of_ref, is_global, select_names, Holds, AllKnown, AllKnown-select, Apart,
  append_names-Holds, split_names-Holds,
}

bytes_used-join : (xs ys : List NameRecord) → bytes_used (xs ++ ys) ≡ bytes_used xs + bytes_used ys
unfolding bytes_used
bytes_used-join [] ys = omega arith
bytes_used-join (x ∷ xs) ys = omega (arith, bytes_used-join xs ys)

Within-left : (r : NameRecord) (xs ys : List NameRecord) → Within r xs → Within r (xs ++ ys)
Within-left r [] ys w = absurd w
Within-left r (x ∷ xs) ys (inl e) = inl e
Within-left r (x ∷ xs) ys (inr w) = inr (Within-left r xs ys w)

Within-right : (r : NameRecord) (xs ys : List NameRecord) → Within r ys → Within r (xs ++ ys)
Within-right r [] ys w = w
Within-right r (x ∷ xs) ys w = inr (Within-right r xs ys w)

module _ (flags : ℕ → Option (ℕ × ℕ)) where
  bytes_used-select :
      (rs : List NameRecord)
      → bytes_used (select_names flags false rs) + bytes_used (select_names flags true rs)
        ≡ bytes_used rs
  unfolding bytes_used select_names
  bytes_used-select [] = refl
  bytes_used-select (r ∷ rs) = elim (Bool-cases (is_global (flags r.id))) [
    | inl glob ↦ rw (select_names, glob) (omega (arith, bytes_used-select rs))
    | inr own ↦ rw (select_names, own) (omega (arith, bytes_used-select rs))
  ]

  -- A record goes to one of the two lists.
  pub Within-select :
      (r : NameRecord) (rs : List NameRecord)
      → Within r rs
      → Within r (select_names flags false rs) ⊎ Within r (select_names flags true rs)
  unfolding select_names
  Within-select r [] w = absurd w
  Within-select r (x ∷ xs) (inl e) = elim (Bool-cases (is_global (flags x.id))) [
    | inl glob ↦ inr (rw (Within, select_names, glob) (inl e))
    | inr own ↦ inl (rw (Within, select_names, own) (inl e))
  ]
  Within-select r (x ∷ xs) (inr w) = elim (Bool-cases (is_global (flags x.id))) [
    | inl glob ↦
        rw (Within, select_names, glob)
          (elim (Within-select r xs w) [ inl a ↦ inl a | inr b ↦ inr (inr b) ])
    | inr own ↦
        rw (Within, select_names, own)
          (elim (Within-select r xs w) [ inl a ↦ inl (inr a) | inr b ↦ inr b ])
  ]

-- A record of the log gives its identifier a name.
logged_name-some :
    (k : ℕ) (name : List ℕ) (rs : List NameRecord)
    → (found : List ℕ) × (logged_name k (some name) rs ≡ some found)
unfolding logged_name next_name
logged_name-some k name [] = (name, refl)
logged_name-some k name (r ∷ rs) = elim (Bool-cases (r.id == k)) [
  | inl e ↦ rw e (logged_name-some k _ rs)
  | inr e ↦ rw e (logged_name-some k name rs)
]

logged_name-Within :
    (r : NameRecord) (known : Option (List ℕ)) (rs : List NameRecord)
    → Within r rs
    → (found : List ℕ) × (logged_name r.id known rs ≡ some found)
unfolding logged_name next_name
logged_name-Within r known [] w = absurd w
logged_name-Within r known (x ∷ xs) (inl e) = rw (e, ==_refl r.id) (logged_name-some r.id _ xs)
logged_name-Within r known (x ∷ xs) (inr w) = logged_name-Within r (next_name r.id known x) xs w

module _ {T : Type 0} ⦃h : Uthash NameRef T⦄ where
  -- The flags that the table has for a record.
  unfoldable pub flags_in : T → ℕ → Option (ℕ × ℕ)
  unfolding flags_of_ref
  flags_in t k = Option.map flags_of_ref (h.find t k)

  known_flags :
      (c : Core T) (r : NameRecord)
      → IsLogged c
      → Within r c.log_name
      → (f : ℕ × ℕ) × (flags_in c.name_hash r.id ≡ some f)
  unfolding IsLogged lookup_record_name flags_in
  known_flags c r v w =
      let (name, e) = logged_name-Within r none c.log_name w in
      elim (Option-cases (h.find c.name_hash r.id)) [
        | inl absent ↦
            let v' = rw absent at (v r.id) in
            let no_name : ◌≡◌ {A = Option (List ℕ)} none (some name) = v' ∙ e in absurd cc
        | inr (ref, here) ↦ rw here (flags_of_ref ref, refl)
      ]

  known-all :
      (c : Core T) (rs : List NameRecord)
      → IsLogged c
      → ((r : NameRecord) → Within r rs → Within r c.log_name)
      → AllKnown (flags_in c.name_hash) (λ r. Within r c.log_name) rs
  known-all c [] v sub = tt
  known-all c (r ∷ rs) v sub = (
    known_flags c r v (sub r (inl refl)),
    sub r (inl refl),
    known-all c rs v (λ x w. sub x (inr w)),
  )

  -- The records that only some processes hold, and the shared ones, of the names of a process.
  unfoldable pub names_of : Core T → Bool → List NameRecord
  unfolding select_names flags_in
  names_of c shared = select_names (flags_in c.name_hash) shared c.log_name

  select-NamesValid :
      (c : Core T) (t : T)
      → NamesValid c
      → Holds (flags_in c.name_hash) (λ r. Within r c.log_name) t
      → NamesValid (record c { name_hash = t; log_name = names_of c false ++ names_of c true })
  unfolding names_of
  select-NamesValid c t v held =
      let flags = flags_in c.name_hash in
      let mine = select_names flags false c.log_name in
      let others = select_names flags true c.log_name in
      record {
        used =
            omega (arith, v.used, bytes_used-join mine others, bytes_used-select flags c.log_name);
        room = v.room;
        small = v.small;
        found = λ k r e.
            let (same, within) = held.points k r e in
            (
              same,
              elim (Within-select flags r.name_record c.log_name within) [
                | inl a ↦ Within-left r.name_record mine others a
                | inr b ↦ Within-right r.name_record mine others b
              ],
            );
      }

  -- On a process other than the root, whose name buffer is valid and tells the names of its table, where
  -- the memory for names fits an `int` and `comp_buf`, and no record that is moved is longer than the
  -- shared records before it together: the call returns and its assertions hold: it appends to the log exactly the name records whose
  -- reference has no global flags, in their order, and leaves in the buffer these and then the others,
  -- in their order. The buffer is valid again, so every reference points to a record of its identifier
  -- in it, and every record keeps its flags.
  pub names_to_log-NamesValid :
      (c : Core T)
      → NamesValid c
      → IsLogged c
      → c.config.name_mem < 2147483648
      → c.config.name_mem ≤ c.config.mod_mem
      → Apart (flags_in c.name_hash) 0 c.log_name
      → (c' : Core T) × (names_to_log true c ≡ some (c', names_of c false))
        × (c'.log_name ≡ names_of c false ++ names_of c true)
        × NamesValid c'
        × ((k : ℕ) → flags_in c'.name_hash k ≡ flags_in c.name_hash k)
  unfolding names_to_log names_of
  names_to_log-NamesValid c v logged int roomy apart =
      let flags = flags_in c.name_hash in
      let known = known-all c c.log_name logged (λ r w. w) in
      let start : Holds flags (λ r. Within r c.log_name) c.name_hash = record {
        same = λ k. unfold flags_in in refl;
        points = v.found;
      } in
      let all_bytes = bytes_used-select flags c.log_name in
      let counted : ltb c.name_mem_used 2147483648 ≡ true = ground (arith, v.room, int) in
      let (t, splits, held) =
        split_names-Holds flags (λ r. Within r c.log_name) c.config.mod_mem c.name_hash 0 c.log_name
          start known (omega (arith, all_bytes, v.used, v.room, roomy)) apart in
      let (t', appends, held') =
        append_names-Holds flags (λ r. Within r c.log_name) t (select_names flags true c.log_name)
          held (AllKnown-select flags (λ r. Within r c.log_name) c.log_name known) in
      (
        record c { name_hash = t'; log_name = names_of c false ++ names_of c true },
        rw (counted, splits, appends) refl,
        refl,
        select-NamesValid c t' v held',
        λ k. unfold flags_in in held'.same k,
      )
