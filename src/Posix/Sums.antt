-- ===== src/Posix/Sums.antt =====
-- The counters of a file in darshan-runtime/lib/darshan-posix.c against the accesses that were made.
use darshan.Prelude.{
  ℕ, zero, suc, ◌+◌, ◌%◌, ◌≤◌, ◌<◌, ◌≡◌, refl, ◌∙◌, ltb, ◌==◌, if◌then◌else◌, ◌-◌, Bool-cases, inl,
  inr, Bool, true, false, not, ◌&&◌, Option, none, some, List, [], ◌∷◌, map, arith, length, get_or,
  set, length-set,
}
use darshan.Common.Counters.{bucket_of, bucket_inc}
use darshan.Common.Measures.{bucket_of-small}
use darshan.Common.Tracked.{CommonVals}
use darshan.Common.Tracked.Counted.{IsCounted, note_common_val-IsCounted}
use darshan.Posix.State.{IoType, io_none, io_read, io_write, Side, FileRef, Access}
use darshan.Posix.Record.{
  stride_of, count_side, switched, io_type, count_both, side_of, with_side, record_access,
}

-- What happens to a file: an access, or an open or a close after which the module has forgotten where
-- the last accesses ended.
pub data Event : Type 0 where
  access : Access → Event
  forgot : Event

unfoldable pub accesses : List Event → List Access
accesses [] = []
accesses (access a ∷ es) = a ∷ accesses es
accesses (forgot ∷ es) = accesses es

-- What the accesses, the last first, come to: the number and the bytes of the reads or of the writes,
-- those at an offset that is not a multiple of the alignment, and the changes between the two kinds.
unfoldable pub is_kind : Bool → Access → Bool
is_kind true a = a.is_read
is_kind false a = not a.is_read

unfoldable pub number : Bool → List Access → ℕ
number b [] = 0
number b (a ∷ hs) = (if is_kind b a then 1 else 0) + number b hs

unfoldable pub moved : Bool → List Access → ℕ
moved b [] = 0
moved b (a ∷ hs) = (if is_kind b a then a.size else 0) + moved b hs

unfoldable pub unaligned : ℕ → List Access → ℕ
unaligned alignment [] = 0
unaligned alignment (a ∷ hs) =
    (if ltb 0 alignment && not (a.offset % alignment == 0) then 1 else 0) + unaligned alignment hs

unfoldable pub last_type : List Access → IoType
last_type [] = io_none
last_type (a ∷ hs) = if a.is_read then io_read else io_write

-- Whether one of the two is a read and the other a write.
unfoldable pub differ : Bool → Bool → ℕ
differ true true = 0
differ true false = 1
differ false true = 1
differ false false = 0

-- The neighbours that differ.
unfoldable pub switches : List Access → ℕ
unfolding differ
switches [] = 0
switches (a ∷ []) = 0
switches (a ∷ b ∷ hs) = differ a.is_read b.is_read + switches (b ∷ hs)

-- The byte behind the last access of a kind since the positions were forgotten.
unfoldable pub last_end : Bool → List Event → Option ℕ
unfolding is_kind
last_end b [] = none
last_end b (forgot ∷ es) = none
last_end b (access a ∷ es) =
    let before = last_end b es in if is_kind b a then some (a.offset + a.size) else before

-- The bytes that an access at the offset leaves out behind the last one. An access that ended behind
-- byte 0 is taken for none.
unfoldable pub gap : Option ℕ → ℕ → ℕ
gap none offset = 0
gap (some end) offset = if end == 1 then 0 else offset - end

-- The gaps of all accesses, each to the last of its kind.
unfoldable pub gaps : List Event → List ℕ
unfolding gap last_end
gaps [] = []
gaps (forgot ∷ es) = gaps es
gaps (access a ∷ es) = gap (last_end a.is_read es) a.offset ∷ gaps es

-- No access of the kind ends behind the byte.
unfoldable pub EndsWithin : Bool → ℕ → List Access → Type 0
EndsWithin b top [] = Unit
EndsWithin b top (a ∷ hs) = (is_kind b a ≡ true → a.offset + a.size ≤ top + 1) × EndsWithin b top hs

unfoldable pub sum : List ℕ → ℕ
sum [] = 0
sum (x ∷ xs) = x + sum xs

-- The counters of the reads or of the writes: exact numbers of accesses and bytes, all accesses in
-- the histogram, consecutive ones among the sequential ones, and no byte behind the last.
pub record SideSums (b : Bool) (hs : List Access) (s : Side) : Type 0 where
  pub ops : s.ops ≡ number b hs
  pub bytes : s.bytes ≡ moved b hs
  pub buckets : length s.sizes ≡ 10
  pub sizes : sum s.sizes ≡ s.ops
  pub consec : s.consec ≤ s.seq
  pub seq : s.seq ≤ s.ops
  pub ends : EndsWithin b s.max_byte hs

unfoldable pub get_or_else : Option ℕ → ℕ → ℕ
get_or_else none n = n
get_or_else (some m) n = m

-- The record after the events `es`, the last first.
pub record FileSums (es : List Event) (r : FileRef) : Type 0 where
  pub reads : SideSums true (accesses es) r.reads
  pub writes : SideSums false (accesses es) r.writes
  pub file_not_aligned : r.file_not_aligned ≡ unaligned r.file_alignment (accesses es)
  pub mem_not_aligned : r.mem_not_aligned ≤ length (accesses es)
  pub last_io_type : r.last_io_type ≡ last_type (accesses es)
  pub rw_switches : r.rw_switches ≡ switches (accesses es)
  pub next_read : r.reads.next_byte ≡ get_or_else (last_end true es) 1
  pub next_write : r.writes.next_byte ≡ get_or_else (last_end false es) 1
  pub access_sizes : IsCounted (map (λ a. a.size) (accesses es)) r.access
  pub stride : IsCounted (gaps es) r.stride

stride_of-gap :
    (s : Side) (end : Option ℕ) (offset : ℕ)
    → s.next_byte ≡ get_or_else end 1
    → stride_of s offset ≡ gap end offset
unfolding stride_of gap get_or_else
stride_of-gap s none offset e = ground (arith, e)
stride_of-gap s (some m) offset e = ground (arith, e)

switched-differ :
    (a : Access) (hs : List Access)
    → (if switched a.is_read (last_type hs) then 1 else 0) + switches hs ≡ switches (a ∷ hs)
unfolding switched last_type switches differ
switched-differ a [] = refl
switched-differ a (b ∷ hs) = elim (Bool-cases a.is_read) [
  | inl x ↦ elim (Bool-cases b.is_read) [ inl y ↦ rw (x, y) refl | inr y ↦ rw (x, y) refl ]
  | inr x ↦ elim (Bool-cases b.is_read) [ inl y ↦ rw (x, y) refl | inr y ↦ rw (x, y) refl ]
]

length-gaps : (es : List Event) → length (gaps es) ≡ length (accesses es)
unfolding gaps accesses
length-gaps [] = refl
length-gaps (forgot ∷ es) = length-gaps es
length-gaps (access a ∷ es) = omega (arith, length-gaps es)

length-sizes : (hs : List Access) → length (map (λ a. a.size) hs) ≡ length hs
length-sizes [] = refl
length-sizes (a ∷ hs) = omega (arith, length-sizes hs)

sum-set : (xs : List ℕ) (i v : ℕ) → i < length xs → sum (set xs i v) + get_or xs i 0 ≡ sum xs + v
unfolding sum
sum-set [] i v h = absurd (omega arith)
sum-set (x ∷ xs) zero v h = omega arith
sum-set (x ∷ xs) (suc i) v h = omega (arith, sum-set xs i v (omega arith))

EndsWithin-mono :
    (b : Bool) (top top' : ℕ) (hs : List Access)
    → top ≤ top'
    → EndsWithin b top hs
    → EndsWithin b top' hs
unfolding EndsWithin
EndsWithin-mono b top top' [] le e = tt
EndsWithin-mono b top top' (a ∷ hs) le e =
    (λ k. omega (arith, e.0 k), EndsWithin-mono b top top' hs le e.1)

-- An access of the other kind changes nothing of this side.
other-SideSums :
    (b : Bool) (a : Access) (hs : List Access) (s : Side)
    → is_kind b a ≡ false
    → SideSums b hs s
    → SideSums b (a ∷ hs) s
unfolding number moved EndsWithin
other-SideSums b a hs s other k = record {
  ops = rw (number, other) (omega (arith, k.ops));
  bytes = rw (moved, other) (omega (arith, k.bytes));
  buckets = k.buckets;
  sizes = k.sizes;
  consec = k.consec;
  seq = k.seq;
  ends = (λ e. absurd cc, k.ends);
}

bucket_inc-sum :
    (xs : List ℕ) (v : ℕ)
    → length xs ≡ 10
    → (sum (bucket_inc xs v) ≡ sum xs + 1) × (length (bucket_inc xs v) ≡ 10)
unfolding bucket_inc
bucket_inc-sum xs v ten =
    let low : bucket_of v < 10 = bucket_of-small v in
    (
      omega (
        arith,
        sum-set xs (bucket_of v) (get_or xs (bucket_of v) 0 + 1) (omega (arith, ten, low)),
      ),
      length-set xs (bucket_of v) (get_or xs (bucket_of v) 0 + 1) ∙ ten,
    )

same-SideSums :
    (b : Bool) (a : Access) (hs : List Access) (s : Side)
    → is_kind b a ≡ true
    → SideSums b hs s
    → SideSums b (a ∷ hs) (count_side s a.offset a.size a.tm1 a.tm2)
unfolding number moved EndsWithin count_side
same-SideSums b a hs s same k =
    let (more, ten) = bucket_inc-sum s.sizes a.size k.buckets in
    record {
      ops = rw (number, same) (omega (arith, k.ops));
      bytes = rw (moved, same) (omega (arith, k.bytes));
      buckets = ten;
      sizes = omega (arith, more, k.sizes);
      consec = ground (arith, k.consec);
      seq = ground (arith, k.seq, k.consec);
      ends = (λ e. ground arith, EndsWithin-mono b s.max_byte _ hs (ground arith) k.ends);
    }

module _ (es : List Event) (r : FileRef) (k : FileSums es r) (rec_id offset ret tm1 tm2 : ℕ)
    (aligned : Bool) (is_read : Bool) where
  this_access : Access
  this_access = record {
    is_read = is_read;
    rec_id = rec_id;
    offset = offset;
    size = ret;
    tm1 = tm1;
    tm2 = tm2;
  }

  this_stride : stride_of (side_of is_read r) offset ≡ gap (last_end is_read es) offset
  unfolding side_of
  this_stride = elim (Bool-cases is_read) [
    | inl x ↦ rw x (stride_of-gap r.reads (last_end true es) offset k.next_read)
    | inr x ↦ rw x (stride_of-gap r.writes (last_end false es) offset k.next_write)
  ]

module _ (es : List Event) (r : FileRef) (k : FileSums es r) (rec_id offset ret tm1 tm2 : ℕ)
    (aligned : Bool) (access_vals stride_vals : CommonVals)
    (counted : IsCounted (ret ∷ map (λ a. a.size) (accesses es)) access_vals) where
  counted_record : Bool → FileRef
  counted_record is_read =
      with_side is_read (count_both is_read r offset ret aligned access_vals stride_vals)
        (count_side (side_of is_read r) offset ret tm1 tm2)

  -- The counters after an access whose values are counted.
  counted-FileSums :
      (is_read : Bool)
      → IsCounted (gap (last_end is_read es) offset ∷ gaps es) stride_vals
      → FileSums
          (access (this_access es r k rec_id offset ret tm1 tm2 aligned is_read) ∷ es)
          (counted_record is_read)
        × ((counted_record is_read).file_alignment ≡ r.file_alignment)
  unfolding this_access counted_record with_side count_both count_side side_of unaligned last_type
      is_kind accesses gaps last_end get_or_else io_type
  counted-FileSums true counted' =
      let a = this_access es r k rec_id offset ret tm1 tm2 aligned true in
      let hs = accesses es in
      (
        record {
          reads = same-SideSums true a hs r.reads refl k.reads;
          writes = other-SideSums false a hs r.writes refl k.writes;
          file_not_aligned = ground (arith, k.file_not_aligned);
          mem_not_aligned = ground (arith, k.mem_not_aligned);
          last_io_type = refl;
          rw_switches =
              rw (← (switched-differ a hs), ← k.last_io_type) (ground (arith, k.rw_switches));
          next_read = refl;
          next_write = k.next_write;
          access_sizes = counted;
          stride = counted';
        },
        refl,
      )
  counted-FileSums false counted' =
      let a = this_access es r k rec_id offset ret tm1 tm2 aligned false in
      let hs = accesses es in
      (
        record {
          reads = other-SideSums true a hs r.reads refl k.reads;
          writes = same-SideSums false a hs r.writes refl k.writes;
          file_not_aligned = ground (arith, k.file_not_aligned);
          mem_not_aligned = ground (arith, k.mem_not_aligned);
          last_io_type = refl;
          rw_switches =
              rw (← (switched-differ a hs), ← k.last_io_type) (ground (arith, k.rw_switches));
          next_read = k.next_read;
          next_write = refl;
          access_sizes = counted;
          stride = counted';
        },
        refl,
      )

-- An access that `malloc` does not fail for is counted without a read past a table.
pub record_access-FileSums :
    (is_read : Bool) (given : Option ℕ) (ret : ℕ) (aligned : Bool) (tm1 tm2 : ℕ) (es : List Event)
    (r : FileRef)
    → FileSums es r
    → length (accesses es) + 1 < 2147483648
    → (r' : FileRef) × (a : Access) × (record_access true is_read given ret aligned tm1 tm2 r
        ≡ some (r', a))
      × FileSums (access a ∷ es) r'
      × (r'.file_alignment ≡ r.file_alignment)
unfolding record_access this_access with_side counted_record
record_access-FileSums is_read given ret aligned tm1 tm2 es r k few =
    let offset : ℕ = elim given [ none ↦ r.offset | some o ↦ o ] in
    let s = side_of is_read r in
    let (access_vals, got, counted) =
      note_common_val-IsCounted ret (map (λ a. a.size) (accesses es)) r.access k.access_sizes
        (omega (arith, length-sizes (accesses es), few)) in
    let (stride_vals, got', counted') =
      note_common_val-IsCounted (gap (last_end is_read es) offset) (gaps es) r.stride k.stride
        (omega (arith, length-gaps es, few)) in
    let same_stride = this_stride es r k r.rec_id offset ret tm1 tm2 aligned is_read in
    let a = this_access es r k r.rec_id offset ret tm1 tm2 aligned is_read in
    let (sums, same) =
      counted-FileSums es r k r.rec_id offset ret tm1 tm2 aligned access_vals stride_vals counted
        is_read counted' in
    (
      with_side is_read (count_both is_read r offset ret aligned access_vals stride_vals)
          (count_side s offset ret tm1 tm2),
      a,
      rw (record_access, got, same_stride, got') refl,
      sums,
      same,
    )
