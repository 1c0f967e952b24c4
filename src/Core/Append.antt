-- ===== src/Core/Append.antt =====
-- Appending a buffer to the log: darshan_log_append of darshan-runtime/lib/darshan-core.c, for one
-- process and for the ranks of a job together. What compression makes of a rank's buffer is an
-- argument, none where it fails; what a write does is one too.
pub mod Contiguous
use darshan.Prelude.{
  ℕ, zero, suc, ◌+◌, ◌-◌, ◌==◌, if◌then◌else◌, Bool, true, false, not, Option, none, some, List, [],
  ◌∷◌, ◌++◌, map, length, take, drop, replicate,
}
use darshan.Core.State.{Bytes}

-- A write at an offset of a file; a gap before it reads as zeros. Writing no bytes changes nothing.
unfoldable pub write_at : List ℕ → ℕ → Bytes → List ℕ
write_at file off [] = file
write_at file off (b ∷ bs) =
    take off file
    ++ (replicate (off - length file) 0 ++ ((b ∷ bs) ++ drop (off + length (b ∷ bs)) file))

-- `comp_buf` up to `comp_buf_sz`, which an error sets to 0.
unfoldable pub comp_buf : Option Bytes → Bytes
comp_buf none = []
comp_buf (some bytes) = bytes

-- Without MPI: the file, the return value as whether it is 0, and `*inout_off`. `written` is what
-- `pwrite` returns, none for an error.
unfoldable pub log_append :
    (List ℕ → ℕ → Bytes → Option ℕ) → Option Bytes → List ℕ → ℕ → List ℕ × Bool × ℕ
log_append pwrite deflated file off =
    let bytes = comp_buf deflated in
    elim (pwrite file off bytes) [
      | none ↦ (file, false, off)
      | some n ↦
          if n == length bytes
          then (write_at file off bytes, true, off + length bytes)
          else (write_at file off (take n bytes), false, off)
    ]

-- With MPI: what each rank puts into the scan, rank 0 with the offset of the start.
unfoldable pub send_offs : ℕ → List Bytes → List ℕ
send_offs off [] = []
send_offs off (b ∷ bs) = (length b + off) ∷ map length bs

-- PMPI_Scan with MPI_SUM, which includes the rank's own value.
unfoldable pub scan : ℕ → List ℕ → List ℕ
scan acc [] = []
scan acc (x ∷ xs) = (acc + x) ∷ scan (acc + x) xs

-- `my_off -= comp_buf_sz`
unfoldable pub less_sizes : List ℕ → List Bytes → List ℕ
less_sizes (x ∷ xs) (b ∷ bs) = (x - length b) ∷ less_sizes xs bs
less_sizes xs bs = []

unfoldable pub my_offs : ℕ → List Bytes → List ℕ
my_offs off bs = less_sizes (scan 0 (send_offs off bs)) bs

-- PMPI_File_write_at_all, as one write of each rank: the file, and whether each rank gets MPI_SUCCESS.
unfoldable pub write_at_all :
    (List ℕ → ℕ → Bytes → List ℕ × Bool) → List ℕ → List ℕ → List Bytes → List ℕ × List Bool
write_at_all write file (off ∷ offs) (b ∷ bs) =
    let (file', ok) = write file off b in
    let (file'', oks) = write_at_all write file' offs bs in (file'', ok ∷ oks)
write_at_all write file offs bs = (file, [])

-- `ret` of each rank, as whether it is 0: the compression's error is kept whatever the write gives.
unfoldable pub rets : List (Option Bytes) → List Bool → List Bool
rets (none ∷ deflated) (ok ∷ oks) = false ∷ rets deflated oks
rets (some b ∷ deflated) (ok ∷ oks) = ok ∷ rets deflated oks
rets deflated oks = []

-- The offset behind the last rank's part, which rank 0 is sent.
unfoldable pub end_off : ℕ → List ℕ → List Bytes → ℕ
end_off off (o ∷ []) (b ∷ []) = o + length b
end_off off (o ∷ os) (b ∷ bs) = end_off off os bs
end_off off os bs = off

-- The file, the return value of each rank, and the end that rank 0 has.
unfoldable pub log_append_all :
    (List ℕ → ℕ → Bytes → List ℕ × Bool) → List (Option Bytes) → List ℕ → ℕ → List ℕ × List Bool × ℕ
unfolding write_at_all rets
log_append_all write deflated file off =
    let bs = map comp_buf deflated in
    let offs = my_offs off bs in
    let (file', oks) = write_at_all write file offs bs in
    (file', rets deflated oks, end_off off offs bs)
