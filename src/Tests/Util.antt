-- ===== src/Tests/Util.antt =====
-- Reading the names of a log.
use darshan.Prelude.{
  ℕ, ◌≡◌, ◌-◌, Bool, true, false, List, [], ◌∷◌, arith, refl, ap, length, inl, some, min, replicate,
  length-replicate, suc, take, drop,
}
use darshan.Prelude.Hash.{Uthash}
use darshan.Prelude.Words.{add_size, int_of_size}
use darshan.Prelude.Bits.{mod_flag_set, mod_flag_isset}
use darshan.Core.State.{NameRecord, Core}
use darshan.Core.Names.{update_name_record_ref, lookup_record_name}
use darshan.Core.Names.Kept.{IsLogged, update_name_record_ref-IsLogged, logged_name}
use darshan.Util.Ids.{write_id, bytes_of, turned}
use darshan.Util.Names.Chunks.{RegionReader}
use darshan.Util.Names.{Read, names, get_namehash}
use darshan.Util.Names.Parse.{log_bytes, size_of}
use darshan.Util.Names.RoundTrip.{name_in}
use darshan.Util.Region.{
  LogFile, LogMap, LogMaps, LogState, Copied, CompType, noz_read, failed, out_of_bounds,
  name_map_region_id,
}
use darshan.Util.Region.Load.{IsReadableFile}
use darshan.Util.Region.Copy.{region_read}
use darshan.Util.Region.Large.{noz_read-large}
use darshan.Util.Stored.{IsStored, get_namehash-Stored}
use darshan.Tests.Setup.{Names, name_table, core_start, path_x, path_dx}
use darshan.Tests.Table.{Table, list_uthash}

abbrev idle : Core Names → Core Names
idle c = c

start-IsLogged : IsLogged core_start
unfolding IsLogged lookup_record_name logged_name
start-IsLogged k = refl

abbrev core_named : Core Names
core_named = (update_name_record_ref idle true core_start 77 (some path_x) 1).0

update_name_record_ref-IsLogged_example : IsLogged core_named
update_name_record_ref-IsLogged_example =
    update_name_record_ref-IsLogged idle true core_start 77 (some path_x) 1 start-IsLogged
      start-IsLogged

-- A file whose `read` gives at most seven bytes.
abbrev file_of : List ℕ → LogFile
file_of bytes = record {
  contents = bytes;
  read_len = λ p n. some (min n (min 7 (length bytes - p)));
  can_seek = λ p. true;
}

file_of-IsReadable : (bytes : List ℕ) → IsReadableFile (file_of bytes)
file_of-IsReadable bytes = record {
  some_bytes = λ p n more inside.
      let k = min n (min 7 (length bytes - p)) - 1 in
      let e : min n (min 7 (length bytes - p)) ≡ suc k = omega arith in
      (k, ap some e, omega arith, omega arith);
  seeks = λ p. refl;
}

instance abbrev record_table : Uthash NameRecord (Table NameRecord)
record_table = list_uthash NameRecord

abbrev two_records : List NameRecord
two_records = record { id = 77; name = path_x } ∷ record { id = 300; name = path_dx } ∷ []

abbrev inflate_none : CompType → LogMap → ℕ → Bool → LogState → Copied
inflate_none c map len reset st = failed st

-- The log of a runtime with two names: a header of three bytes, then the names.
abbrev core_names : Core Names
core_names =
    (update_name_record_ref idle true
      (update_name_record_ref idle true core_start 77 (some path_x) 1).0 300 (some path_dx) 1).0

abbrev log_file : LogFile
log_file = file_of (1 ∷ 2 ∷ 3 ∷ log_bytes true two_records)

abbrev nowhere : LogMap
nowhere = record { off = 0; len = 0 }

abbrev log_maps : LogMaps
log_maps = record {
  job_map = nowhere;
  name_map = record { off = 3; len = 24 };
  mod_map = λ i. nowhere;
}

abbrev opened : LogState
opened = record {
  pos = 3;
  offset = 3;
  dz_buf = [];
  dz_size = 0;
  dz_eor = false;
  prev_reg_id = 1;
  buf_off = 0;
}

names-IsStored : IsStored core_names true log_file log_maps opened
unfolding update_name_record_ref add_size int_of_size mod_flag_set mod_flag_isset log_bytes size_of
    write_id turned bytes_of
names-IsStored = record {
  logged =
      update_name_record_ref-IsLogged idle true core_named 300 (some path_dx) 1
        (update_name_record_ref-IsLogged idle true core_start 77 (some path_x) 1 start-IsLogged
          start-IsLogged)
        (update_name_record_ref-IsLogged idle true core_start 77 (some path_x) 1 start-IsLogged
          start-IsLogged);
  file = file_of-IsReadable (1 ∷ 2 ∷ 3 ∷ log_bytes true two_records);
  small = record { some_len = λ e. absurd (omega arith); fits = omega arith; there = omega arith };
  bytes = refl;
  fine = (
    omega arith,
    (λ e. absurd (omega arith), (λ e. absurd (omega arith), tt)),
    omega arith,
    (
      omega arith,
      (
        λ e. absurd (omega arith),
        (λ e. absurd (omega arith), (λ e. absurd (omega arith), (λ e. absurd (omega arith), tt))),
      ),
      omega arith,
      tt,
    ),
  );
  steady = ((λ e. absurd cc), ((λ e. tt), tt));
  new = refl;
  same = refl;
  outside = inl (omega arith);
}

get_namehash-Stored_example :
    (t : Table NameRecord) × (get_namehash
        (region_read inflate_none log_file log_maps name_map_region_id)
        30
        24
        true
        record_table.empty
        opened
      ≡ names t)
    × ((k : ℕ) → name_in t k ≡ lookup_record_name core_names k)
get_namehash-Stored_example =
    get_namehash-Stored core_names true inflate_none log_file log_maps opened 30 names-IsStored
      (omega arith)

-- A region in memory, as large as it may be.
abbrev read_memory : Read (List ℕ)
read_memory bytes n = some (take n bytes, drop n bytes)

abbrev memory_reader : RegionReader (List ℕ) read_memory
memory_reader = record {
  IsReadable = λ bytes. Unit;
  remaining = λ bytes. bytes;
  next = λ bytes n. drop n bytes;
  copied = λ bytes n readable more. refl;
  kept = λ bytes n readable more full. (tt, refl);
}

unfoldable zeros : ℕ → List ℕ
zeros n = replicate n 0

zeros-length : (n : ℕ) → length (zeros n) ≡ n
unfolding zeros
zeros-length n = length-replicate {A = ℕ} n 0

abbrev large_map : LogMap
large_map = record { off = 0; len = 1500000 }

abbrev at_start : LogState
at_start = record opened { pos = 0; offset = 0 }

noz_read-large_example :
    noz_read (file_of (zeros 1500000)) large_map 2097152 true (record at_start { dz_size = 0 })
    ≡ out_of_bounds
noz_read-large_example =
    noz_read-large (file_of (zeros 1500000)) large_map (file_of-IsReadable (zeros 1500000)) 2097152
      at_start refl refl refl (omega arith) (omega arith) (omega (arith, zeros-length 1500000))
      (omega arith) (omega arith)
