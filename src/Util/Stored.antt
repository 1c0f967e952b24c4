-- ===== src/Util/Stored.antt =====
-- The names of a log from the runtime to the utilities: what darshan-core.c keeps, read back by
-- darshan-util/darshan-logutils.c from a log that is not compressed.
use darshan.Prelude.{
  ℕ, ◌<◌, ◌≤◌, ◌≡◌, ◌+◌, ◌*◌, Bool, false, arith, length, ◌==◌, ap, ◌∙◌, ◌⊎◌, inl,
}
use darshan.Prelude.Hash.{Uthash}
use darshan.Core.State.{NameRecord, NameRef, Core}
use darshan.Core.Names.{lookup_record_name}
use darshan.Core.Names.Kept.{IsLogged}
use darshan.Util.Names.{names, get_namehash, def_comp_buf_sz}
use darshan.Util.Names.Parse.{log_bytes, AllNames}
use darshan.Util.Names.RoundTrip.{name_in, Steady, get_namehash-lookup}
use darshan.Util.Region.{
  LogFile, LogMap, LogMaps, LogState, Copied, CompType, map_of, name_map_region_id,
}
use darshan.Util.Region.Load.{IsReadableFile, IsSmall, region}
use darshan.Util.Region.Copy.{region_read, region-length}
use darshan.Util.Region.Reader.{noz_reader, left_of-start}

-- A log in which the name buffer of the runtime is stored as it is in memory, and its state before
-- the names are read.
pub record IsStored {N : Type 0} ⦃g : Uthash NameRef N⦄ (c : Core N) (swap : Bool) (f : LogFile)
    (maps : LogMaps) (st : LogState) : Type 0 where
  pub logged : IsLogged c
  pub file : IsReadableFile f
  pub small : IsSmall f maps.name_map
  pub bytes : region f maps.name_map ≡ log_bytes swap c.log_name
  pub fine : AllNames (def_comp_buf_sz * 2) c.log_name
  pub steady : Steady c.log_name
  pub new : (name_map_region_id == st.prev_reg_id) ≡ false
  pub same : st.offset ≡ st.pos
  pub outside : (st.pos ≤ maps.name_map.off) ⊎ (maps.name_map.off + maps.name_map.len ≤ st.pos)

-- The name buffer of the runtime, in which no record without a name comes before one of the same
-- identifier that has a name, stored without compression in at most 1 MiB, in either byte order,
-- and read with more fuel than its bytes, by system calls that may give fewer bytes than asked for:
-- the utilities' table answers for every identifier as the runtime's did.
pub get_namehash-Stored :
    {N T : Type 0}
    → ⦃g : Uthash NameRef N⦄ → ⦃h : Uthash NameRecord T⦄
    → (c : Core N) (swap : Bool) (inflated : CompType → LogMap → ℕ → Bool → LogState → Copied)
      (f : LogFile) (maps : LogMaps) (st : LogState) (fuel : ℕ)
    → IsStored c swap f maps st
    → maps.name_map.len < fuel
    → (t : T) × (get_namehash
          (region_read inflated f maps name_map_region_id)
          fuel
          maps.name_map.len
          swap
          h.empty
          st
        ≡ names t)
      × ((k : ℕ) → name_in t k ≡ lookup_record_name c k)
unfolding map_of noz_reader
get_namehash-Stored c swap inflated f maps st fuel s enough =
    let start = left_of-start inflated f s.file maps name_map_region_id s.small st s.new in
    get_namehash-lookup (noz_reader inflated f s.file maps name_map_region_id s.small) c swap
      maps.name_map.len st fuel s.logged
      (record {
        readable = record { same = s.same; at = inl (s.new, s.outside) };
        bytes = start ∙ s.bytes;
        fine = s.fine;
        steady = s.steady;
        nothing = λ e. absurd (s.small.some_len e);
      })
      (omega (arith, ap length start, region-length f maps.name_map s.small))
