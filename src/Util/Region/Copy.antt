-- ===== src/Util/Region/Copy.antt =====
-- Copying a region without compression: the rounds of darshan_log_noz_read of
-- darshan-util/darshan-logutils.c on a region that fits its staging buffer.
use darshan.Prelude.{
  ℕ, zero, suc, ◌+◌, ◌-◌, ◌<◌, ◌≤◌, ◌≡◌, refl, ap, ◌∙◌, sym, Bool, true, false, Option, none, some,
  List, [], ◌++◌, arith, ◌⊎◌, inl, inr, length, take, drop, Bool-cases, ◌==◌, ==_iff, ◌%◌, ltb,
  if◌then◌else◌, take-drop-take, length-take, length-take_min, length-take_le, take-append_all,
  length-drop_sub, drop-drop, drop-drop_nil, take-length_le, drop-length_le,
}
use mathlib.Core.List.{append-nil}
use darshan.Util.Region.{
  LogFile, LogMap, LogMaps, LogState, Copied, copied, copy_some, reload, noz_loop, dzread, ended_in,
  no_comp, CompType,
}
use darshan.Util.Region.Load.{IsReadableFile, IsSmall, region, loaded, dzload-loaded}
use darshan.Util.Names.{Read, def_comp_buf_sz}

-- The staging buffer holds the whole region, of which `buf_off` bytes were copied.
pub record IsStaged (f : LogFile) (map : LogMap) (st : LogState) : Type 0 where
  pub size : st.dz_size ≡ map.len
  pub ended : st.dz_eor ≡ true
  pub off : st.buf_off ≤ map.len
  pub bytes : take map.len st.dz_buf ≡ region f map

-- What is left to copy of it.
abbrev pub rest_of : LogFile → LogMap → LogState → List ℕ
rest_of f map st = drop st.buf_off (region f map)

copied_same :
    {n m : ℕ} {b c : List ℕ} (s t : LogState) → n ≡ m → b ≡ c → s ≡ t → copied n b s ≡ copied m c t
copied_same s t e g h = cc

pub region-length : (f : LogFile) (map : LogMap) → IsSmall f map → length (region f map) ≡ map.len
region-length f map small =
    length-take map.len (drop map.off f.contents)
      (omega (arith, length-drop_sub map.off f.contents, small.there))

module _ (f : LogFile) (map : LogMap) (small : IsSmall f map) where
  copy_some-staged :
      (again : LogState → ℕ → List ℕ → Copied) (st : LogState) (len cp total : ℕ) (buf : List ℕ)
      → IsStaged f map st
      → cp ≡ (if ltb (map.len - st.buf_off) len then map.len - st.buf_off else len)
      → copy_some f again st len total buf
        ≡ again
            (record st { buf_off = st.buf_off + cp })
            (total + cp)
            (take cp (rest_of f map st) ++ drop cp buf)
  unfolding copy_some
  copy_some-staged again st len cp total buf staged here =
      let room : (st.dz_size + 4294967296 - st.buf_off) % 4294967296 ≡ map.len - st.buf_off =
        omega (arith, staged.size, staged.off, small.fits, small.some_len) in
      let small_cp : cp ≤ map.len - st.buf_off = ground (arith, here) in
      let inside : ltb def_comp_buf_sz (st.buf_off + cp) ≡ false =
        ground (arith, small_cp, small.fits, staged.off) in
      let bytes : take cp (drop st.buf_off st.dz_buf) ≡ take cp (rest_of f map st) =
        sym (take-drop-take cp st.buf_off map.len st.dz_buf (omega (arith, staged.off)))
        ∙ ap (λ xs. take cp (drop st.buf_off xs)) staged.bytes in
      let here' : (if ltb ((st.dz_size + 4294967296 - st.buf_off) % 4294967296) len
            then (st.dz_size + 4294967296 - st.buf_off) % 4294967296
            else len)
          ≡ cp =
        rw room (sym here) in
      rw (copy_some, here', inside, here', bytes) refl

  pub loop_full :
      (fuel len total : ℕ) (st : LogState) (buf : List ℕ)
      → ltb total len ≡ false
      → noz_loop f (suc fuel) map len st total buf ≡ copied total buf st
  unfolding noz_loop
  loop_full fuel len total st buf full = rw (noz_loop, full) refl

  pub loop_copy :
      (fuel len total : ℕ) (st : LogState) (buf : List ℕ)
      → ltb total len ≡ true
      → (st.buf_off == st.dz_size) ≡ false
      → noz_loop f (suc fuel) map len st total buf
        ≡ copy_some f (noz_loop f fuel map len) st len total buf
  unfolding noz_loop
  loop_copy fuel len total st buf more here = rw (noz_loop, more, here) refl

  loop_end :
      (fuel len total : ℕ) (st : LogState) (buf : List ℕ)
      → ltb total len ≡ true
      → (st.buf_off == st.dz_size) ≡ true
      → st.dz_eor ≡ true
      → noz_loop f (suc fuel) map len st total buf ≡ copied total buf (record st { dz_eor = false })
  unfolding noz_loop
  loop_end fuel len total st buf more none_here end = rw (noz_loop, more, none_here, end) refl

  pub loop_reload :
      (fuel len total : ℕ) (st : LogState) (buf : List ℕ)
      → ltb total len ≡ true
      → (st.buf_off == st.dz_size) ≡ true
      → st.dz_eor ≡ false
      → noz_loop f (suc fuel) map len st total buf
        ≡ reload f (λ s. copy_some f (noz_loop f fuel map len) s len total buf) st map
  unfolding noz_loop
  loop_reload fuel len total st buf more none_here go = simp (noz_loop, more, none_here, go) refl

  -- Where all that is asked for is there, one round copies it.
  noz_loop-enough :
      (fuel len : ℕ) (st : LogState)
      → IsStaged f map st
      → len ≤ map.len - st.buf_off
      → noz_loop f (suc (suc fuel)) map len st 0 []
        ≡ copied len (take len (rest_of f map st)) (record st { buf_off = st.buf_off + len })
  noz_loop-enough fuel zero st staged few =
      let same : st.buf_off + 0 ≡ st.buf_off = omega arith in
      rw same (loop_full (suc fuel) 0 0 st [] (ground arith))
  noz_loop-enough fuel (suc n) st staged few =
      let len : ℕ = suc n in
      let open_yet : (st.buf_off == st.dz_size) ≡ false = ground (arith, staged.size) in
      let cp : len ≡ (if ltb (map.len - st.buf_off) len then map.len - st.buf_off else len) =
        ground arith in
      loop_copy (suc fuel) len 0 st [] (ground arith) open_yet
      ∙ copy_some-staged _ st len len 0 [] staged cp
      ∙ loop_full fuel len (0 + len) _ _ (ground arith)
      ∙ copied_same _ _ (omega arith) (append-nil (take len (rest_of f map st))) refl

  -- Otherwise what is left is copied, and the end is met.
  noz_loop-short :
      (fuel len : ℕ) (st : LogState)
      → IsStaged f map st
      → map.len - st.buf_off < len
      → noz_loop f (suc (suc fuel)) map len st 0 []
        ≡ copied
            (map.len - st.buf_off)
            (rest_of f map st)
            (record st { buf_off = map.len; dz_eor = false })
  noz_loop-short fuel len st staged more =
      let gone : length (region f map) ≡ map.len = region-length f map small in
      elim (Bool-cases (st.buf_off == map.len)) [
        | inl all ↦
            let all' = (==_iff st.buf_off map.len).0 all in
            loop_end (suc fuel) len 0 st [] (ground arith) (ground (arith, staged.size))
              staged.ended
            ∙ copied_same _ _ (omega arith)
                (sym (drop-length_le st.buf_off (region f map) (omega arith)))
                (ap (λ o. record st { buf_off = o; dz_eor = false }) all')
        | inr some_left ↦
            let cp = map.len - st.buf_off in
            let next : LogState = record st { buf_off = st.buf_off + cp } in
            let up : st.buf_off + cp ≡ map.len = omega (arith, staged.off) in
            loop_copy (suc fuel) len 0 st [] (ground arith) (ground (arith, staged.size))
            ∙ copy_some-staged _ st len cp 0 [] staged (ground arith)
            ∙ loop_end fuel len (0 + cp) next _ (ground arith) (ground (arith, staged.size))
                staged.ended
            ∙ copied_same _ _ (omega arith)
                (ap (take cp (rest_of f map st) ++◌) (drop-drop_nil cp)
                  ∙ append-nil (take cp (rest_of f map st))
                  ∙ take-length_le cp (rest_of f map st)
                      (omega (arith, length-drop_sub st.buf_off (region f map))))
                (ap (λ o. record st { buf_off = o; dz_eor = false }) up)
      ]

-- The bytes a call gives its caller, none where it fails or breaks off.
unfoldable pub bytes_read : Copied → Option (List ℕ × LogState)
bytes_read (copied n buf st) = some (take n buf, st)
bytes_read c = none

-- The region `region_id` of an uncompressed log, read by darshan_log_dzread.
unfoldable pub region_read :
    (CompType → LogMap → ℕ → Bool → LogState → Copied) → LogFile → LogMaps → ℕ → Read LogState
region_read inflated f maps region_id st len =
    bytes_read (dzread inflated f no_comp maps region_id len st)

-- A staged region after a call for `n` bytes.
unfoldable pub stepped : LogMap → LogState → ℕ → LogState
stepped map st n =
    if ltb (map.len - st.buf_off) n
    then record st { buf_off = map.len; dz_eor = false }
    else record st { buf_off = st.buf_off + n }

module _ (f : LogFile) (map : LogMap) (small : IsSmall f map) where
  pub noz_loop-staged :
      (fuel n region_id : ℕ) (st : LogState)
      → IsStaged f map st
      → bytes_read (ended_in region_id (noz_loop f (suc (suc fuel)) map n st 0 []))
        ≡ some (take n (rest_of f map st), record (stepped map st n) { prev_reg_id = region_id })
  unfolding bytes_read ended_in stepped
  noz_loop-staged fuel n region_id st staged = elim (Bool-cases (ltb (map.len - st.buf_off) n)) [
    | inl more ↦
        let here =
          length-drop_sub st.buf_off (region f map)
          ∙ ap (λ m. m - st.buf_off) (region-length f map small) in
        let all =
          take-length_le (map.len - st.buf_off) (rest_of f map st) (omega (arith, here))
          ∙ sym (take-length_le n (rest_of f map st) (ground (arith, here))) in
        rw (noz_loop-short f map small fuel n st staged (ground arith), more, all) refl
    | inr enough ↦
        let all =
          take-length_le n (take n (rest_of f map st)) (length-take_min n (rest_of f map st)) in
        rw (noz_loop-enough f map small fuel n st staged (ground arith), enough, all) refl
  ]

  pub loaded-IsStaged : (st : LogState) → st.buf_off ≡ 0 → IsStaged f map (loaded f st map)
  unfolding loaded
  loaded-IsStaged st start = record {
    size = refl;
    ended = refl;
    off = omega (arith, start);
    bytes = take-append_all map.len (region f map) _ (region-length f map small);
  }

  pub stepped-IsStaged :
      (st : LogState) (n : ℕ)
      → IsStaged f map st
      → length (take n (rest_of f map st)) ≡ n
      → IsStaged f map (stepped map st n)
        × (rest_of f map (stepped map st n) ≡ drop n (rest_of f map st))
  unfolding stepped
  stepped-IsStaged st n staged full =
      let here =
        length-drop_sub st.buf_off (region f map)
        ∙ ap (λ m. m - st.buf_off) (region-length f map small) in
      let few : n ≤ map.len - st.buf_off =
        omega (arith, here, full, length-take_le n (rest_of f map st)) in
      let enough : ltb (map.len - st.buf_off) n ≡ false = ground (arith, few) in
      rw enough (
        record {
          size = staged.size;
          ended = staged.ended;
          off = omega (arith, few, staged.off);
          bytes = staged.bytes;
        },
        sym (drop-drop st.buf_off n (region f map)),
      )

  reload-loaded :
      (ok : IsReadableFile f) (copy : LogState → Copied) (st : LogState)
      → st.offset ≡ st.pos
      → (st.pos ≤ map.off) ⊎ (map.off + map.len ≤ st.pos)
      → reload f copy st map ≡ copy (loaded f st map)
  unfolding reload
  reload-loaded ok copy st same out =
      let some_len : (loaded f st map).dz_size == 0 ≡ false =
        unfold loaded in ground (arith, small.some_len) in
      rw (reload, dzload-loaded f ok st map small same out, some_len) refl

  -- The first call for some bytes loads the region.
  pub noz_loop-fresh :
      (ok : IsReadableFile f) (fuel n : ℕ) (st : LogState)
      → 0 < n
      → st.dz_size ≡ 0
      → st.buf_off ≡ 0
      → st.dz_eor ≡ false
      → st.offset ≡ st.pos
      → (st.pos ≤ map.off) ⊎ (map.off + map.len ≤ st.pos)
      → noz_loop f (suc fuel) map n st 0 [] ≡ noz_loop f (suc fuel) map n (loaded f st map) 0 []
  unfolding loaded
  noz_loop-fresh ok fuel n st pos size off eor same out =
      let more : ltb 0 n ≡ true = ground arith in
      loop_reload f map small fuel n 0 st [] more (ground (arith, size, off)) eor
      ∙ reload-loaded ok _ st same out
      ∙ sym (
          loop_copy f map small fuel n 0 (loaded f st map) [] more
            (ground (arith, off, small.some_len)))
