-- ===== src/Core/Append/Contiguous.antt =====
-- The parts that the ranks append to the log by darshan_log_append of
-- darshan-runtime/lib/darshan-core.c.
use darshan.Prelude.{
  ℕ, ◌+◌, ◌-◌, ◌≤◌, ◌≡◌, ◌⊎◌, inl, inr, Bool, false, Bool-cases, suc, get_or, refl, ap, ◌∙◌, sym,
  true, Option, none, some, List, [], ◌∷◌, ◌++◌, map, arith, length, replicate, length-append,
  length-replicate, take-length_le, drop-length_le,
}
use mathlib.Core.List.{append_assoc, append-nil}
use darshan.Core.State.{Bytes}
use darshan.Core.Append.{
  write_at, comp_buf, send_offs, scan, less_sizes, my_offs, write_at_all, end_off, rets,
  log_append_all,
}

-- The parts one after the other.
unfoldable pub joined : List Bytes → Bytes
joined [] = []
joined (b ∷ bs) = b ++ joined bs

-- A file up to an offset, a gap reading as zeros.
unfoldable pub padded : List ℕ → ℕ → List ℕ
padded file off = file ++ replicate (off - length file) 0

-- Each part begins where the one before ends.
unfoldable pub offs_from : ℕ → List Bytes → List ℕ
offs_from off [] = []
offs_from off (b ∷ bs) = off ∷ offs_from (off + length b) bs

length-padded : (file : List ℕ) (off : ℕ) → length file ≤ off → length (padded file off) ≡ off
unfolding padded
length-padded file off h =
    length-append file (replicate (off - length file) 0)
    ∙ omega (arith, length-replicate {A = ℕ} (off - length file) 0)

write_at-end :
    (file : List ℕ) (off b : ℕ) (bs : Bytes)
    → length file ≤ off
    → write_at file off (b ∷ bs) ≡ padded file off ++ b ∷ bs
unfolding write_at padded
write_at-end file off b bs h =
    let whole = take-length_le off file h in
    let nothing = drop-length_le (off + length (b ∷ bs)) file (omega arith) in
    rw (whole, nothing, append-nil (b ∷ bs))
      (sym (append_assoc file (replicate (off - length file) 0) (b ∷ bs)))

padded-same : (file : List ℕ) → padded file (length file) ≡ file
unfolding padded
padded-same file =
    let none_left : length file - length file ≡ 0 = omega arith in rw none_left (append-nil file)

write_at-append :
    (file : List ℕ) (off : ℕ) (bs : Bytes) → off ≡ length file → write_at file off bs ≡ file ++ bs
unfolding write_at
write_at-append file off [] e = sym (append-nil file)
write_at-append file off (b ∷ bs) e =
    ap (λ n. write_at file n (b ∷ bs)) e
    ∙ write_at-end file (length file) b bs (omega arith)
    ∙ ap (λ xs. xs ++ b ∷ bs) (padded-same file)

-- Two writes, one after the other, behind the end of the file are one.
write_at-twice :
    (file : List ℕ) (off : ℕ) (b c : Bytes)
    → length file ≤ off
    → write_at (write_at file off b) (off + length b) c ≡ write_at file off (b ++ c)
unfolding write_at
write_at-twice file off [] c h = let same : off + 0 ≡ off = omega arith in rw same refl
write_at-twice file off (x ∷ xs) c h =
    let first = write_at-end file off x xs h in
    let next : off + length (x ∷ xs) ≡ length (padded file off ++ x ∷ xs) =
      omega (arith, length-append (padded file off) (x ∷ xs), length-padded file off h) in
    ap (λ g. write_at g (off + length (x ∷ xs)) c) first
    ∙ write_at-append (padded file off ++ x ∷ xs) (off + length (x ∷ xs)) c next
    ∙ append_assoc (padded file off) (x ∷ xs) c
    ∙ sym (write_at-end file off x (xs ++ c) h)

length-write_at :
    (file : List ℕ) (off : ℕ) (b : Bytes)
    → length file ≤ off
    → length (write_at file off b) ≤ off + length b
unfolding write_at
length-write_at file off [] h = omega arith
length-write_at file off (x ∷ xs) h = omega (
  arith,
  ap length (write_at-end file off x xs h),
  length-append (padded file off) (x ∷ xs),
  length-padded file off h,
)

less_sizes-scan :
    (acc : ℕ) (bs : List Bytes) → less_sizes (scan acc (map length bs)) bs ≡ offs_from acc bs
unfolding less_sizes scan offs_from
less_sizes-scan acc [] = refl
less_sizes-scan acc (b ∷ bs) =
    let own : acc + length b - length b ≡ acc = omega arith in
    rw own (ap (acc ∷◌) (less_sizes-scan (acc + length b) bs))

my_offs-offs_from : (off : ℕ) (bs : List Bytes) → my_offs off bs ≡ offs_from off bs
unfolding my_offs send_offs less_sizes scan offs_from
my_offs-offs_from off [] = refl
my_offs-offs_from off (b ∷ bs) =
    let own : 0 + (length b + off) - length b ≡ off = omega arith in
    let next : 0 + (length b + off) ≡ off + length b = omega arith in
    rw (own, next) (ap (off ∷◌) (less_sizes-scan (off + length b) bs))

-- A write that succeeds has written its bytes at its offset.
abbrev pub IsWrite : (List ℕ → ℕ → Bytes → List ℕ × Bool) → Type 0
IsWrite write =
    (file : List ℕ) (off : ℕ) (b : Bytes)
    → (write file off b).1 ≡ true
    → (write file off b).0 ≡ write_at file off b

-- The rank `i` has an error of its write and returns it.
abbrev pub Reports : ℕ → List Bool → List Bool → Type 0
Reports i oks returned = (get_or oks i true ≡ false) × (get_or returned i true ≡ false)

unfoldable pub is_deflated : Option Bytes → Bool
is_deflated none = false
is_deflated (some bytes) = true

rets-first :
    (d : Option Bytes) (ds : List (Option Bytes)) (ok : Bool) (oks : List Bool)
    → ok ≡ false
    → get_or (rets (d ∷ ds) (ok ∷ oks)) 0 true ≡ false
unfolding rets
rets-first none ds ok oks e = refl
rets-first (some b) ds ok oks e = e

rets-later :
    (d : Option Bytes) (ds : List (Option Bytes)) (ok : Bool) (oks : List Bool) (i : ℕ)
    → get_or (rets (d ∷ ds) (ok ∷ oks)) (suc i) true ≡ get_or (rets ds oks) i true
unfolding rets
rets-later none ds ok oks i = refl
rets-later (some b) ds ok oks i = refl

rets-true :
    (d : Option Bytes) (ds : List (Option Bytes)) (ok : Bool) (oks : List Bool)
    → ok ≡ true
    → rets (d ∷ ds) (ok ∷ oks) ≡ is_deflated d ∷ rets ds oks
unfolding rets is_deflated
rets-true none ds ok oks e = refl
rets-true (some b) ds ok oks e = ap (λ x. x ∷ rets ds oks) e

module _ (write : List ℕ → ℕ → Bytes → List ℕ × Bool) (is_write : IsWrite write) where
  write_at_all-joined :
      (file : List ℕ) (off : ℕ) (ds : List (Option Bytes))
      → length file ≤ off
      → let parts = map comp_buf ds in
        let (file', oks) = write_at_all write file (offs_from off parts) parts in
        ((file' ≡ write_at file off (joined parts)) × (rets ds oks ≡ map is_deflated ds))
        ⊎ ((i : ℕ) × Reports i oks (rets ds oks))
  unfolding write_at_all offs_from joined rets is_deflated
  write_at_all-joined file off [] h = inl (unfold write_at in refl, refl)
  write_at_all-joined file off (d ∷ ds) h =
      let b = comp_buf d in
      let file' = (write file off b).0 in
      elim (Bool-cases (write file off b).1) [
        | inr failed ↦ inr (0, (failed, rets-first d ds _ _ failed))
        | inl ok ↦
            let wrote = is_write file off b ok in
            let le = length-write_at file off b h in
            elim (write_at_all-joined file' (off + length b) ds (rw wrote le)) [
              | inr (i, reports) ↦ inr (suc i, (reports.0, rets-later d ds _ _ i ∙ reports.1))
              | inl (all, same) ↦ inl (
                all
                    ∙ ap (λ f. write_at f (off + length b) (joined (map comp_buf ds))) wrote
                    ∙ write_at-twice file off b (joined (map comp_buf ds)) h,
                rets-true d ds _ _ ok ∙ ap (is_deflated d ∷◌) same,
              )
            ]
      ]

end_off-joined :
    (off acc : ℕ) (b : Bytes) (bs : List Bytes)
    → end_off off (offs_from acc (b ∷ bs)) (b ∷ bs) ≡ acc + length (joined (b ∷ bs))
unfolding end_off offs_from joined
end_off-joined off acc b [] = omega (arith, length-append b [])
end_off-joined off acc b (c ∷ bs) =
    let rest = end_off-joined off (acc + length b) c bs in
    omega (arith, rest, length-append b (joined (c ∷ bs)))

-- Of a job of one rank or more, from an offset at or behind the end of the file, where a write that
-- succeeds has written its bytes: rank 0 learns the offset behind the last part, and each rank begins
-- where the one before ends. Either the writes of all ranks together are one write, at the offset, of
-- their parts in the order of the ranks, with nothing between them, and each rank returns 0 if its
-- compression did not fail; or the write of some rank failed, and that rank returns -1. A rank whose
-- compression failed adds no bytes.
pub log_append_all-joined :
    (write : List ℕ → ℕ → Bytes → List ℕ × Bool) (file : List ℕ) (off : ℕ) (d : Option Bytes)
    (ds : List (Option Bytes))
    → IsWrite write
    → length file ≤ off
    → let parts = map comp_buf (d ∷ ds) in
      let (file', returned, end) = log_append_all write (d ∷ ds) file off in
      (my_offs off parts ≡ offs_from off parts)
      × (end ≡ off + length (joined parts))
      × (((file' ≡ write_at file off (joined parts)) × (returned ≡ map is_deflated (d ∷ ds)))
          ⊎ ((i : ℕ) × Reports i (write_at_all write file (offs_from off parts) parts).1 returned))
unfolding log_append_all
log_append_all-joined write file off d ds is_write behind =
    let parts = map comp_buf (d ∷ ds) in
    let offs = my_offs-offs_from off parts in
    let all = write_at_all-joined write is_write file off (d ∷ ds) behind in
    (offs, rw offs (end_off-joined off off (comp_buf d) (map comp_buf ds)), rw offs all)
