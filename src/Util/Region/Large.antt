-- ===== src/Util/Region/Large.antt =====
-- darshan_log_noz_read of darshan-util/darshan-logutils.c on a region that does not fit its staging
-- buffer: `*buf_off` is not set back when the buffer is loaded again.
use darshan.Prelude.{
  ℕ, suc, ◌+◌, ◌-◌, ◌*◌, ◌<◌, ◌≤◌, ◌≡◌, refl, ◌∙◌, true, false, List, [], ◌++◌, arith, length, take,
  drop, ◌==◌, ◌%◌, ltb, leb, ◌||◌, if◌then◌else◌,
}
use darshan.Util.Region.{
  LogFile, LogMap, LogState, Copied, out_of_bounds, copy_some, reload, noz_loop, noz_read, dzload,
  load,
}
use darshan.Util.Region.Load.{IsReadableFile, load-part}
use darshan.Util.Names.{def_comp_buf_sz}

module _ (f : LogFile) (map : LogMap) where
  -- One round from an empty staging buffer.
  round :
      (fuel len total : ℕ) (st st' : LogState) (buf : List ℕ)
      → ltb total len ≡ true
      → (st.buf_off == st.dz_size) ≡ true
      → st.dz_eor ≡ false
      → dzload f st map ≡ (st', true)
      → (st'.dz_size == 0) ≡ false
      → noz_loop f (suc fuel) map len st total buf
        ≡ copy_some f (noz_loop f fuel map len) st' len total buf
  unfolding noz_loop reload
  round fuel len total st st' buf more none_here go one some_len =
      simp (noz_loop, reload, more, none_here, go, one, some_len) refl

  copied_round :
      (again : LogState → ℕ → List ℕ → Copied) (st : LogState) (len cp total : ℕ) (buf : List ℕ)
      → (st.dz_size + 4294967296 - st.buf_off) % 4294967296 ≡ cp
      → ltb cp len ≡ true
      → ltb def_comp_buf_sz (st.buf_off + cp) ≡ false
      → copy_some f again st len total buf
        ≡ again
            (record st { buf_off = st.buf_off + cp })
            (total + cp)
            (take cp (drop st.buf_off st.dz_buf) ++ drop cp buf)
  unfolding copy_some
  copied_round again st len cp total buf room few inside =
      rw (copy_some, room, few, inside, room, few) refl

  past_the_end :
      (again : LogState → ℕ → List ℕ → Copied) (st : LogState) (len total : ℕ) (buf : List ℕ)
      → ltb ((st.dz_size + 4294967296 - st.buf_off) % 4294967296) len ≡ false
      → ltb def_comp_buf_sz (st.buf_off + len) ≡ true
      → copy_some f again st len total buf ≡ out_of_bounds
  unfolding copy_some
  past_the_end again st len total buf room outside = rw (copy_some, room, outside) refl

  inside_load :
      (st : LogState)
      → map.off ≤ st.pos
      → st.pos < map.off + map.len
      → dzload f st map ≡ load f st map
  unfolding dzload
  inside_load st low high =
      let in_range : ltb st.pos map.off || leb (map.off + map.len) st.pos ≡ false = ground arith in
      rw (dzload, in_range) refl

  -- Of a file that is read without errors, a region of more than one and less than two staging
  -- buffers, from its start: a call for more bytes than one staging buffer reads past the end of the
  -- staging buffer. The call's length is an `int`.
  pub noz_read-large :
      (ok : IsReadableFile f) (len : ℕ) (st : LogState)
      → st.offset ≡ st.pos
      → st.pos ≡ map.off
      → st.dz_eor ≡ false
      → def_comp_buf_sz < map.len
      → map.len < def_comp_buf_sz * 2
      → map.off + map.len ≤ length f.contents
      → def_comp_buf_sz < len
      → len < 2147483648
      → noz_read f map len true (record st { dz_size = 0 }) ≡ out_of_bounds
  unfolding noz_read
  noz_read-large ok len st same at eor large two there more int =
      let fuel : len + map.len + 2 ≡ suc (suc (len + map.len)) = omega arith in
      let s : LogState = record st { dz_size = 0; buf_off = 0 } in
      let more_left : def_comp_buf_sz == map.off + map.len - s.pos ≡ false = ground arith in
      let one =
        inside_load s (omega arith) (omega arith)
        ∙ load-part f ok s map def_comp_buf_sz same (omega arith) (omega arith) there (omega arith)
            (ground arith) in
      let s1 : LogState = record s {
        pos = s.pos + def_comp_buf_sz;
        offset = s.pos + def_comp_buf_sz;
        dz_buf = take def_comp_buf_sz (drop s.pos f.contents) ++ drop def_comp_buf_sz s.dz_buf;
        dz_eor = if def_comp_buf_sz == map.off + map.len - s.pos then true else s.dz_eor;
        dz_size = def_comp_buf_sz;
      } in
      let s2 : LogState = record s1 { buf_off = 0 + def_comp_buf_sz } in
      let rest = map.len - def_comp_buf_sz in
      let two_loaded =
        inside_load s2 (omega arith) (omega arith)
        ∙ load-part f ok s2 map rest refl (omega arith) (omega arith) there (omega arith)
            (ground arith) in
      rw fuel (
        round (suc (len + map.len)) len 0 s s1 [] (ground arith) refl eor one refl
        ∙ copied_round _ s1 len def_comp_buf_sz 0 [] refl (ground arith) refl
        ∙ round (len + map.len) len def_comp_buf_sz s2 _ _ (ground arith) refl (rw more_left eor)
            two_loaded (ground arith)
        ∙ past_the_end _ _ len def_comp_buf_sz _ (ground arith) (ground arith))
