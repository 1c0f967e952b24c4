-- ===== src/Posix/History.antt =====
-- The calls on one file in any order, and what its record in darshan-runtime/lib/darshan-posix.c
-- shows after them.
use darshan.Prelude.{
  ℕ, if◌then◌else◌, inl, inr, ◌≡◌, refl, Bool, true, Option, some, List, [], ◌∷◌, arith,
}
use darshan.Common.Counters.{CommonVal}
use darshan.Common.Order.{Below}
use darshan.Common.Tracked.{CommonVals, find_freq}
use darshan.Common.Tracked.Counted.{IsCounted, occurs}
use darshan.Posix.State.{IoType, FileRef, Access, Side, no_vals}
use darshan.Posix.Record.{
  record_access, record_open, record_stat, record_seek, record_fsync, record_close, new_file_record,
  RefCounter,
}
use darshan.Posix.Sums.{Event, access, forgot}

-- The record of a file after some calls, with the accesses that were handed on, and the opens and closes
-- that reset its positions, the last first.
pub data Reaches (rec_id mem_alignment block_size : ℕ) : List Event → FileRef → Type 0 where
  tracked :
      Reaches rec_id mem_alignment block_size [] (new_file_record rec_id mem_alignment block_size)
  accessed :
      {es : List Event} {r r' : FileRef} {a : Access} (is_read : Bool) (given : Option ℕ) (ret : ℕ)
      (aligned : Bool) (tm1 tm2 : ℕ)
      → Reaches rec_id mem_alignment block_size es r
      → record_access true is_read given ret aligned tm1 tm2 r ≡ some (r', a)
      → Reaches rec_id mem_alignment block_size (access a ∷ es) r'
  opened :
      {es : List Event} {r : FileRef} (mode : ℕ) (reset : Bool) (kind : RefCounter) (tm1 tm2 : ℕ)
      → Reaches rec_id mem_alignment block_size es r
      → Reaches rec_id mem_alignment block_size
          (if reset then forgot ∷ es else es)
          (record_open mode reset kind tm1 tm2 r)
  stated :
      {es : List Event} {r : FileRef} (tm1 tm2 : ℕ)
      → Reaches rec_id mem_alignment block_size es r
      → Reaches rec_id mem_alignment block_size es (record_stat tm1 tm2 r)
  sought :
      {es : List Event} {r : FileRef} (ret tm1 tm2 : ℕ)
      → Reaches rec_id mem_alignment block_size es r
      → Reaches rec_id mem_alignment block_size es (record_seek ret tm1 tm2 r)
  synced :
      {es : List Event} {r : FileRef} (data_only : Bool) (tm1 tm2 : ℕ)
      → Reaches rec_id mem_alignment block_size es r
      → Reaches rec_id mem_alignment block_size es (record_fsync data_only tm1 tm2 r)
  closed :
      {es : List Event} {r : FileRef} (tm1 tm2 : ℕ)
      → Reaches rec_id mem_alignment block_size es r
      → Reaches rec_id mem_alignment block_size (forgot ∷ es) (record_close tm1 tm2 r)

-- The counters of a side that accesses alone change.
unfoldable side_account : Side → ℕ × ℕ × ℕ × ℕ × ℕ × List ℕ
side_account s = (s.ops, s.bytes, s.max_byte, s.consec, s.seq, s.sizes)

-- What accesses alone change of a record, and the alignment, which nothing changes.
unfoldable account :
    FileRef
    → (ℕ × ℕ × ℕ × ℕ × ℕ × List ℕ)
      × (ℕ × ℕ × ℕ × ℕ × ℕ × List ℕ)
      × ℕ
      × ℕ
      × ℕ
      × IoType
      × ℕ
      × CommonVals
      × CommonVals
account r = (
  side_account r.reads,
  side_account r.writes,
  r.file_not_aligned,
  r.file_alignment,
  r.mem_not_aligned,
  r.last_io_type,
  r.rw_switches,
  r.access,
  r.stride,
)

abbrev zero_val : CommonVal
zero_val = record { val = 0; count = 0 }

pub no_vals-IsCounted : IsCounted [] no_vals
unfolding find_freq occurs
no_vals-IsCounted = record {
  exact = λ v freq e. absurd cc;
  full = λ v e. inl refl;
  shown = (inl (refl, refl), (inl (refl, refl), (inl (refl, refl), (inl (refl, refl), tt))));
  ranked =
      let b : Below zero_val zero_val = inr (refl, omega arith) in
      (
        (b, (b, (b, tt))),
        inl refl,
        ((b, (b, tt)), inl refl, ((b, tt), inl refl, (tt, inl refl, tt))),
      );
  four = refl;
}
