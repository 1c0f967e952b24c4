-- ===== src/Tests/Append.antt =====
-- Appending to the log.
use darshan.Prelude.{
  ℕ, ◌≡◌, ◌+◌, ◌⊎◌, Bool, true, false, Option, none, some, List, [], ◌∷◌, map, length, refl, arith,
}
use darshan.Core.State.{Bytes}
use darshan.Core.Append.{
  write_at, comp_buf, my_offs, write_at_all, log_append_all, send_offs, scan, less_sizes,
}
use darshan.Core.Append.Contiguous.{joined, offs_from, is_deflated, Reports, log_append_all-joined}

-- Three ranks, of which the second cannot compress its buffer.
abbrev rest_of_job : List (Option Bytes)
rest_of_job = none ∷ some (7 ∷ 8 ∷ []) ∷ []

-- A write that always succeeds.
abbrev write_all : List ℕ → ℕ → Bytes → List ℕ × Bool
write_all file off bytes = (write_at file off bytes, true)

log_append_all-joined_example :
    let parts = map comp_buf (some (5 ∷ []) ∷ rest_of_job) in
    let (file', returned, end) = log_append_all write_all (some (5 ∷ []) ∷ rest_of_job) [] 360 in
    (my_offs 360 parts ≡ offs_from 360 parts)
    × (end ≡ 360 + length (joined parts))
    × (((file' ≡ write_at [] 360 (joined parts))
          × (returned ≡ map is_deflated (some (5 ∷ []) ∷ rest_of_job)))
        ⊎ ((i : ℕ) × Reports i (write_at_all write_all [] (offs_from 360 parts) parts).1 returned))
log_append_all-joined_example =
    log_append_all-joined write_all [] 360 (some (5 ∷ [])) rest_of_job (λ file off b e. refl)
      (omega arith)

second_fails :
    (log_append_all write_all (some (5 ∷ []) ∷ rest_of_job) [] 360).1 ≡ true ∷ false ∷ true ∷ []
unfolding log_append_all my_offs less_sizes scan send_offs
second_fails = refl
