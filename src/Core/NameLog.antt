-- ===== src/Core/NameLog.antt =====
-- darshan_log_write_name_record_hash of darshan-runtime/lib/darshan-core.c: the name records that a
-- process appends to the log. The buffer of names is a list of records, and a pointer into it is the
-- record it points to. Where an assertion fails or C leaves the behaviour undefined there is no result.
pub mod Split
pub mod Written
pub mod Complete
use darshan.Prelude.{
  ℕ, ◌+◌, ◌==◌, ltb, leb, length, if◌then◌else◌, Bool, true, false, not, ◌>>=◌, Option, none, some,
  List, [], ◌∷◌, ◌++◌,
}
use darshan.Prelude.Hash.{Uthash}
use darshan.Core.State.{NameRecord, NameRef, Core}

-- The bytes of a record, which the code holds in an `int`.
abbrev pub rec_len : NameRecord → ℕ
rec_len r = 8 + length r.name + 1

module _ {T : Type 0} ⦃h : Uthash NameRef T⦄ where
  -- The copy of a record to another place, to which its reference is made to point.
  unfoldable pub move_ref : T → NameRecord → NameRef → T
  move_ref t r ref = h.add (h.delete t r.id) r.id (record ref { name_record = r })

  -- A round of the first loop. `room` is the size of `comp_buf`, to which the shared records go, and
  -- `gap` the bytes of those that are there, by which `my_buf` is behind `name_rec`. The result gives
  -- the gap of the next round, and whether the record is shared. `none` is the failure of `assert(ref)`
  -- or what C leaves undefined: a copy behind the end of `comp_buf`, or a `memcpy` to an area that
  -- overlaps its source.
  unfoldable pub split_name : ℕ → T → ℕ → NameRecord → Option (T × ℕ × Bool)
  unfolding move_ref
  split_name room t gap r = elim (h.find t r.id) [
    | none ↦ none
    | some ref ↦
        if not (ref.global_mod_flags == 0)
        then (if leb (gap + rec_len r) room
            then some (move_ref t r ref, gap + rec_len r, true)
            else none)
        else (if gap == 0
            then some (t, gap, false)
            else (if leb (rec_len r) gap then some (move_ref t r ref, gap, false) else none))
  ]

  -- The first loop: the records that stay and the shared records.
  unfoldable pub split_names :
      ℕ → T → ℕ → List NameRecord → Option (T × List NameRecord × List NameRecord)
  unfolding split_name
  split_names room t gap [] = some (t, [], [])
  split_names room t gap (r ∷ rs) = do
    (t', gap', shared) ← split_name room t gap r
    (t'', mine, others) ← split_names room t' gap' rs
    some (elim shared [ true ↦ (t'', mine, r ∷ others) | false ↦ (t'', r ∷ mine, others) ])

  -- The second loop: the shared records go behind the others.
  unfoldable pub append_names : T → List NameRecord → Option T
  unfolding move_ref
  append_names t [] = some t
  append_names t (r ∷ rs) = elim (h.find t r.id) [
    | none ↦ none
    | some ref ↦ append_names (move_ref t r ref) rs
  ]

  -- The runtime, and the records that are appended to the log. `other_rank` is whether MPI is used and
  -- the rank is not 0. `name_rec_buf_len` is an `int`; more bytes of names than it holds are `none` too.
  unfoldable pub names_to_log : Bool → Core T → Option (Core T × List NameRecord)
  unfolding split_names append_names
  names_to_log other_rank c =
      if ltb c.name_mem_used 2147483648
      then (elim other_rank [
        | false ↦ some (c, c.log_name)
        | true ↦ do
          (t, mine, others) ← split_names c.config.mod_mem c.name_hash 0 c.log_name
          t' ← append_names t others
          some (record c { name_hash = t'; log_name = mine ++ others }, mine)
      ])
      else none
