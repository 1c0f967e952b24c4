-- ===== src/Util/Region/Load.antt =====
-- Loading a part of a region of a log file: the reads of darshan-util/darshan-logutils.c when the
-- system's calls do as documented.
use darshan.Prelude.{
  ℕ, zero, suc, ◌+◌, ◌-◌, ◌<◌, ◌≤◌, ◌≡◌, ◌≢◌, refl, ap, ◌∙◌, sym, true, false, some, List, [], ◌++◌,
  arith, ◌⊎◌, inl, inr, length, take, drop, Bool-cases, ◌||◌, ◌==◌, ==_refl, ==_iff, ◌%◌,
  if◌then◌else◌, ltb, leb, length-take, length-append, length-drop_sub, take-take, drop-drop,
}
use darshan.Util.Region.{LogFile, LogMap, LogState, read_loop, log_read, log_seek, load, dzload}
use darshan.Util.Names.{def_comp_buf_sz}

-- A regular file that is read without errors, by calls that may give fewer bytes than asked for: a
-- call gives none only at the end of the file or for no bytes, and every position can be reached.
pub record IsReadableFile (f : LogFile) : Type 0 where
  pub some_bytes :
      (p n : ℕ)
      → n ≢ 0
      → p < length f.contents
      → (k : ℕ) × (f.read_len p n ≡ some (suc k)) × (suc k ≤ n) × (p + suc k ≤ length f.contents)
  pub seeks : (p : ℕ) → f.can_seek p ≡ true

-- A region that is not empty, fits the staging buffer and lies in the file.
pub record IsSmall (f : LogFile) (map : LogMap) : Type 0 where
  pub some_len : map.len ≢ 0
  pub fits : map.len ≤ def_comp_buf_sz
  pub there : map.off + map.len ≤ length f.contents

abbrev pub region : LogFile → LogMap → List ℕ
region f map = take map.len (drop map.off f.contents)

unfoldable pub loaded : LogFile → LogState → LogMap → LogState
loaded f st map = record st {
  pos = map.off + map.len;
  offset = map.off + map.len;
  dz_buf = region f map ++ drop map.len st.dz_buf;
  dz_eor = true;
  dz_size = map.len;
}

module _ (f : LogFile) (ok : IsReadableFile f) where
  -- Despite short reads, all the bytes asked for are read.
  read_loop-all :
      (fuel offset len : ℕ) (got : List ℕ)
      → offset + len ≤ length f.contents
      → length got < len
      → len < fuel + length got
      → got ≡ take (length got) (drop offset f.contents)
      → read_loop f fuel offset len got ≡ (take len (drop offset f.contents), true)
  unfolding read_loop
  read_loop-all zero offset len got there more enough e = absurd (omega arith)
  read_loop-all (suc fuel) offset len got there more enough e =
      let (k, given, few, inside) =
        ok.some_bytes (offset + length got) (len - length got) (omega arith) (omega arith) in
      let piece = take (suc k) (drop (offset + length got) f.contents) in
      let got' = got ++ piece in
      let size : length got' ≡ length got + suc k =
        length-append got piece
        ∙ ap (length got +◌) (
            length-take (suc k) (drop (offset + length got) f.contents)
              (omega (arith, length-drop_sub (offset + length got) f.contents))) in
      let grown : got' ≡ take (length got') (drop offset f.contents) =
        ap (got ++◌) (ap (take (suc k)) (sym (drop-drop offset (length got) f.contents)))
        ∙ ap (λ xs. xs ++ take (suc k) (drop (length got) (drop offset f.contents))) e
        ∙ take-take (length got) (suc k) (drop offset f.contents)
        ∙ ap (λ n. take n (drop offset f.contents)) (sym size) in
      elim (Bool-cases (ltb (length got') len)) [
        | inl more' ↦
            rw (read_loop, given, more')
              (read_loop-all fuel offset len got' there (ground arith) (omega arith) grown)
        | inr done ↦
            let full : length got' ≡ len = ground arith in
            rw (read_loop, given, done)
              (ap (λ xs. (xs, true)) (grown ∙ ap (λ n. take n (drop offset f.contents)) full))
      ]

  -- A state whose position is the kernel's.
  log_read-all :
      (st : LogState) (len : ℕ)
      → st.offset ≡ st.pos
      → len ≢ 0
      → st.pos + len ≤ length f.contents
      → log_read f st len ≡ (
        record st { offset = st.pos + len; pos = st.pos + len },
        take len (drop st.pos f.contents),
        true,
      )
  unfolding log_read
  log_read-all st len same more there =
      let all = read_loop-all (suc len) st.pos len [] there (omega arith) (omega arith) refl in
      let size : length (take len (drop st.pos f.contents)) ≡ len =
        length-take len (drop st.pos f.contents)
          (omega (arith, length-drop_sub st.pos f.contents)) in
      rw (same, all, size) refl

  load-loaded :
      (st : LogState) (map : LogMap)
      → IsSmall f map
      → st.offset ≡ st.pos
      → st.pos ≡ map.off
      → load f st map ≡ (loaded f st map, true)
  unfolding load loaded
  load-loaded st map small same at =
      let whole : (map.off + map.len - st.pos) % 4294967296 ≡ map.len =
        omega (arith, small.fits, at) in
      let one : ltb def_comp_buf_sz map.len ≡ false = ground (arith, small.fits) in
      let all = log_read-all st map.len same small.some_len (omega (arith, small.there, at)) in
      let size : length (take map.len (drop st.pos f.contents)) ≡ map.len =
        length-take map.len (drop st.pos f.contents)
          (omega (arith, length-drop_sub st.pos f.contents, small.there, at)) in
      let enough : ltb map.len map.len ≡ false = ground arith in
      let end : (map.len == map.len) ≡ true = ==_refl map.len in
      rw (whole, one, all, size, enough, end, at) refl

  -- From outside the region, or its start, one load brings in the whole of it.
  pub dzload-loaded :
      (st : LogState) (map : LogMap)
      → IsSmall f map
      → st.offset ≡ st.pos
      → (st.pos ≤ map.off) ⊎ (map.off + map.len ≤ st.pos)
      → dzload f st map ≡ (loaded f st map, true)
  unfolding dzload log_seek loaded
  dzload-loaded st map small same out =
      elim (Bool-cases (ltb st.pos map.off || leb (map.off + map.len) st.pos)) [
        | inl outside ↦ elim (Bool-cases (st.pos == map.off)) [
          | inl at ↦ rw (outside, at) (load-loaded st map small same ((==_iff st.pos map.off).0 at))
          | inr away ↦
              rw (outside, away, ok.seeks map.off)
                (load-loaded (record st { pos = map.off; offset = map.off }) map small refl refl)
        ]
        | inr inside ↦
            rw inside (load-loaded st map small same (ground (arith, inside, out, small.some_len)))
      ]

  -- A load from within a region: as much of what is left as fits the staging buffer.
  pub load-part :
      (st : LogState) (map : LogMap) (r : ℕ)
      → st.offset ≡ st.pos
      → map.off ≤ st.pos
      → st.pos < map.off + map.len
      → map.off + map.len ≤ length f.contents
      → map.len < 4294967296
      → r ≡ (
          if ltb def_comp_buf_sz (map.off + map.len - st.pos)
          then def_comp_buf_sz
          else map.off + map.len - st.pos)
      → load f st map ≡ (
        record st {
          pos = st.pos + r;
          offset = st.pos + r;
          dz_buf = take r (drop st.pos f.contents) ++ drop r st.dz_buf;
          dz_eor = if r == map.off + map.len - st.pos then true else st.dz_eor;
          dz_size = r;
        },
        true,
      )
  unfolding load
  load-part st map r same low high there small here =
      let whole : (map.off + map.len - st.pos) % 4294967296 ≡ map.off + map.len - st.pos =
        omega arith in
      let few : r ≤ map.off + map.len - st.pos = ground (arith, here) in
      let some_bytes : r ≢ 0 = ground (arith, here) in
      let all = log_read-all st r same some_bytes (omega arith) in
      let size : length (take r (drop st.pos f.contents)) ≡ r =
        length-take r (drop st.pos f.contents) (omega (arith, length-drop_sub st.pos f.contents)) in
      let enough : ltb r r ≡ false = ground arith in rw (whole, ← here, all, size, enough) refl
