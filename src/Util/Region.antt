-- ===== src/Util/Region.antt =====
-- The regions of a log file as darshan-util/darshan-logutils.c reads them: darshan_log_seek,
-- darshan_log_read, darshan_log_dzload, darshan_log_noz_read and the dispatch of darshan_log_dzread.
-- The system's `read` and `lseek` and the decompressing readers are parameters.
pub mod Load
pub mod Copy
pub mod Reader
pub mod Large
use darshan.Prelude.{
  ℕ, zero, suc, ◌+◌, ◌-◌, ◌%◌, ◌≡◌, Bool, true, false, not, ◌&&◌, ◌||◌, Option, none, some, List,
  [], ◌∷◌, ◌++◌, ◌==◌, ltb, leb, if◌then◌else◌, length, take, drop,
}
use darshan.Util.Names.{def_comp_buf_sz}

-- struct darshan_log_map
pub record LogMap : Type 0 where
  pub off : ℕ
  pub len : ℕ

-- The part of `struct darshan_fd_int_state` that reading changes, `offset` being the kernel's
-- position in the file. `dz_buf` is the staging buffer from its start, as far as it was loaded, and
-- `buf_off` is what `comp_dat` points to. A region is known by its number after the header's, -3.
pub record LogState : Type 0 where
  pub pos : ℕ
  pub offset : ℕ
  pub dz_buf : List ℕ
  pub dz_size : ℕ
  pub dz_eor : Bool
  pub prev_reg_id : ℕ
  pub buf_off : ℕ

-- The file that is open: its bytes, how many of them `read` gives at a position for a length, or
-- that it fails, and whether `lseek` reaches a position.
pub record LogFile : Type 0 where
  pub contents : List ℕ
  pub read_len : ℕ → ℕ → Option ℕ
  pub can_seek : ℕ → Bool

-- How the copying of a part of a region ends: with a return value and the caller's buffer, with -1,
-- at the assertion on the size, past the end of the staging buffer, or not within the fuel.
pub data Copied : Type 0 where
  copied : ℕ → List ℕ → LogState → Copied
  failed : LogState → Copied
  assertion_failed out_of_bounds out_of_fuel : Copied

module _ (f : LogFile) where
  -- The loop of `read` calls: the bytes so far and whether the last call did not fail.
  unfoldable pub read_loop : ℕ → ℕ → ℕ → List ℕ → List ℕ × Bool
  read_loop zero offset len got = (got, true)
  read_loop (suc fuel) offset len got = elim (f.read_len (offset + length got) (len - length got)) [
    | none ↦ (got, false)
    | some zero ↦ (got, true)
    | some (suc n) ↦
        let got' = got ++ take (suc n) (drop (offset + length got) f.contents) in
        elim (ltb (length got') len) [
          | true ↦ read_loop fuel offset len got'
          | false ↦ (got', true)
        ]
  ]

  -- Each call but the last gives a byte at least. `pos` stays when a call fails, the kernel's
  -- position does not.
  unfoldable pub log_read : LogState → ℕ → LogState × List ℕ × Bool
  log_read st len =
      let (got, ok) = read_loop (suc len) st.offset len [] in
      let moved : LogState = record st { offset = st.offset + length got } in
      (if ok then record moved { pos = st.pos + length got } else moved, got, ok)

  unfoldable pub log_seek : LogState → ℕ → LogState × Bool
  log_seek st target =
      if st.pos == target
      then (st, true)
      else if f.can_seek target
      then (record st { pos = target; offset = target }, true)
      else (st, false)

  -- The part after the seek. Both sizes are `unsigned int`.
  unfoldable pub load : LogState → LogMap → LogState × Bool
  load st map =
      let remaining = (map.off + map.len - st.pos) % 4294967296 in
      let read_size = if ltb def_comp_buf_sz remaining then def_comp_buf_sz else remaining in
      let (st', got, ok) = log_read st read_size in
      let st'' : LogState = record st' { dz_buf = got ++ drop (length got) st'.dz_buf } in
      if not ok || ltb (length got) read_size then (st'', false) else (
        record st'' {
          dz_eor = if length got == remaining then true else st'.dz_eor;
          dz_size = read_size;
        },
        true,
      )

  unfoldable pub dzload : LogState → LogMap → LogState × Bool
  dzload st map =
      if ltb st.pos map.off || leb (map.off + map.len) st.pos
      then (let (st', ok) = log_seek st map.off in if ok then load st' map else (st', false))
      else load st map

  -- The copy of one round into the caller's buffer: always to its start. The room left in the
  -- staging buffer is `unsigned int`. `again` is the next round.
  unfoldable pub copy_some : (LogState → ℕ → List ℕ → Copied) → LogState → ℕ → ℕ → List ℕ → Copied
  copy_some again st len total buf =
      let room = (st.dz_size + 4294967296 - st.buf_off) % 4294967296 in
      let cp_size = if ltb room len then room else len in
      elim (ltb def_comp_buf_sz (st.buf_off + cp_size)) [
        | true ↦ out_of_bounds
        | false ↦
            let chunk = take cp_size (drop st.buf_off st.dz_buf) in
            again (record st { buf_off = st.buf_off + cp_size }) (total + cp_size)
              (chunk ++ drop cp_size buf)
      ]

  unfoldable pub reload : (LogState → Copied) → LogState → LogMap → Copied
  reload copy st map =
      let (st', ok) = dzload st map in
      if not ok then failed st' else if st'.dz_size == 0 then assertion_failed else copy st'

  unfoldable pub noz_loop : ℕ → LogMap → ℕ → LogState → ℕ → List ℕ → Copied
  noz_loop zero map len st total buf = out_of_fuel
  noz_loop (suc fuel) map len st total buf =
      let copy : LogState → Copied = λ s. copy_some (noz_loop fuel map len) s len total buf in
      elim (ltb total len) [
        | false ↦ copied total buf st
        | true ↦ elim (st.buf_off == st.dz_size) [
          | false ↦ copy st
          | true ↦ elim st.dz_eor [
            | true ↦ copied total buf (record st { dz_eor = false })
            | false ↦ reload copy st map
          ]
        ]
      ]

  -- A round copies a byte, loads a byte of the region, or is the last.
  unfoldable pub noz_read : LogMap → ℕ → Bool → LogState → Copied
  noz_read map len reset st =
      let st' : LogState = if reset then record st { buf_off = st.dz_size } else st in
      noz_loop (len + map.len + 2) map len st' 0 []

-- `fd->comp_type`
pub data CompType : Type 0 where
  zlib_comp bzip2_comp no_comp invalid_comp : CompType

-- Regions by their number after the header's: the job, the names, then the modules.
abbrev pub job_region_id : ℕ
job_region_id = 1

abbrev pub name_map_region_id : ℕ
name_map_region_id = 2

pub record LogMaps : Type 0 where
  pub job_map : LogMap
  pub name_map : LogMap
  pub mod_map : ℕ → LogMap

unfoldable pub map_of : LogMaps → ℕ → LogMap
map_of maps region_id =
    if region_id == job_region_id
    then maps.job_map
    else if region_id == name_map_region_id
    then maps.name_map
    else maps.mod_map (region_id - 3)

unfoldable pub ended_in : ℕ → Copied → Copied
ended_in region_id (copied n buf st) = copied n buf (record st { prev_reg_id = region_id })
ended_in region_id (failed st) = failed (record st { prev_reg_id = region_id })
ended_in region_id c = c

-- `inflated` stands for the readers that decompress.
unfoldable pub dzread :
    (CompType → LogMap → ℕ → Bool → LogState → Copied)
    → LogFile
    → CompType
    → LogMaps
    → ℕ
    → ℕ
    → LogState
    → Copied
dzread inflated f comp_type maps region_id len st =
    let reset = not (region_id == st.prev_reg_id) in
    let st' : LogState = if reset then record st { dz_eor = false; dz_size = 0 } else st in
    let map = map_of maps region_id in
    elim comp_type [
      | no_comp ↦ ended_in region_id (noz_read f map len reset st')
      | invalid_comp ↦ failed st'
      | zlib_comp ↦ ended_in region_id (inflated zlib_comp map len reset st')
      | bzip2_comp ↦ ended_in region_id (inflated bzip2_comp map len reset st')
    ]
