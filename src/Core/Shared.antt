-- ===== src/Core/Shared.antt =====
-- darshan_get_shared_records of darshan-runtime/lib/darshan-core.c: which records every process of the
-- job opened. MPI is not modelled: a broadcast hands the root's values to every process, and
-- `band` is the operation MPI_BAND on the values of all processes.
pub mod Collective
pub mod Agreed
use darshan.Prelude.{
  ℕ, zero, suc, ◌==◌, if◌then◌else◌, Bool, ◌>>=◌, true, false, not, Option, none, some, List, [],
  ◌∷◌, ◌++◌, length,
}
use mathlib.Core.Option
use mathlib.Core.Option.{get_or}
use darshan.Prelude.Hash.{Uthash}
use darshan.Core.State.{NameRef}

-- `id_array` of the root.
unfoldable pub record_ids : List (ℕ × NameRef) → List ℕ
record_ids [] = []
record_ids ((k, ref) ∷ refs) = ref.name_record.id ∷ record_ids refs

unfoldable pub heads : List (List ℕ) → List ℕ
heads [] = []
heads ([] ∷ rows) = 0 ∷ heads rows
heads ((x ∷ xs) ∷ rows) = x ∷ heads rows

unfoldable pub tails : List (List ℕ) → List (List ℕ)
tails [] = []
tails ([] ∷ rows) = [] ∷ tails rows
tails ((x ∷ xs) ∷ rows) = xs ∷ tails rows

-- PMPI_Allreduce of arrays of `count` words, a row for each process.
unfoldable pub allreduce : (List ℕ → ℕ) → ℕ → List (List ℕ) → List ℕ
unfolding heads tails
allreduce op zero rows = []
allreduce op (suc count) rows = op (heads rows) ∷ allreduce op count (tails rows)

module _ {T : Type 0} ⦃h : Uthash NameRef T⦄ where
  -- One entry of `mod_flags`, which starts as 0.
  unfoldable pub flags_of : T → ℕ → ℕ
  flags_of t id = get_or (Option.map (λ r. r.mod_flags) (h.find t id)) 0

  unfoldable pub own_mod_flags : T → List ℕ → List ℕ
  unfolding flags_of
  own_mod_flags t [] = []
  own_mod_flags t (id ∷ ids) = flags_of t id ∷ own_mod_flags t ids

  -- What each process gives to the reduction.
  unfoldable pub all_mod_flags : List T → List ℕ → List (List ℕ)
  unfolding own_mod_flags
  all_mod_flags [] ids = []
  all_mod_flags (t ∷ ts) ids = own_mod_flags t ids ∷ all_mod_flags ts ids

  -- A round of the last loop: the table, and the records it lists as shared. `none` is the failure
  -- of `assert(ref)`.
  unfoldable pub mark_record : T → ℕ → ℕ → Option (T × List ℕ)
  mark_record t id global =
      if not (global == 0)
      then (elim (h.find t id) [
        | none ↦ none
        | some ref ↦ some (h.store t id (record ref { global_mod_flags = global }), id ∷ [])
      ])
      else some (t, [])

  unfoldable pub mark_records : T → List ℕ → List ℕ → Option (T × List ℕ)
  unfolding mark_record
  mark_records t [] globals = some (t, [])
  mark_records t (id ∷ ids) [] = some (t, [])
  mark_records t (id ∷ ids) (global ∷ globals) = do
    (t', listed) ← mark_record t id global
    (t'', rest) ← mark_records t' ids globals
    some (t'', listed ++ rest)

  -- The call on the process of the table `t`, in a job whose root has the table `root`. `alloc` is
  -- whether the allocations succeed, which the code asserts. The result is the table and the list of
  -- shared records.
  unfoldable pub get_shared_records : Bool → (List ℕ → ℕ) → T → List T → T → Option (T × List ℕ)
  unfolding record_ids allreduce all_mod_flags mark_records
  get_shared_records false band root others t = none
  get_shared_records true band root others t =
      let ids = record_ids (h.iter root) in
      mark_records t ids (allreduce band (length ids) (all_mod_flags (root ∷ others) ids))
