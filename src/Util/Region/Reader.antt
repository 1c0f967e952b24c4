-- ===== src/Util/Region/Reader.antt =====
-- The calls of darshan_log_dzread of darshan-util/darshan-logutils.c for a region that is not
-- compressed and fits the staging buffer: together they are a reader of its bytes.
use darshan.Prelude.{
  ℕ, suc, ◌+◌, ◌<◌, ◌≤◌, ◌≡◌, refl, ap, ◌∙◌, Bool, true, false, some, List, arith, ◌⊎◌, inl, inr,
  length, take, drop, ◌==◌, ==_refl, if◌then◌else◌,
}
use darshan.Util.Region.{
  LogFile, LogMap, LogMaps, LogState, Copied, noz_read, dzread, map_of, CompType,
}
use darshan.Util.Region.Load.{IsReadableFile, IsSmall, region, loaded}
use darshan.Util.Names.Chunks.{RegionReader}
use darshan.Util.Region.Copy.{
  IsStaged, rest_of, region_read, stepped, noz_loop-staged, loaded-IsStaged, stepped-IsStaged,
  noz_loop-fresh,
}

-- A log before or while a region is read: the region was not started, with the file's position
-- outside it or at its start, or it is staged.
pub record IsAtRegion (f : LogFile) (maps : LogMaps) (region_id : ℕ) (st : LogState) : Type 0 where
  pub same : st.offset ≡ st.pos
  pub at :
      (((region_id == st.prev_reg_id) ≡ false)
        × ((st.pos ≤ (map_of maps region_id).off)
            ⊎ ((map_of maps region_id).off + (map_of maps region_id).len ≤ st.pos)))
      ⊎ (((region_id == st.prev_reg_id) ≡ true) × IsStaged f (map_of maps region_id) st)

module _ (inflated : CompType → LogMap → ℕ → Bool → LogState → Copied) (f : LogFile)
    (ok : IsReadableFile f) (maps : LogMaps) (region_id : ℕ)
    (small : IsSmall f (map_of maps region_id)) where
  -- The state in which a call copies: the region is loaded if it was not started.
  unfoldable pub staged_state : LogState → LogState
  staged_state st =
      if region_id == st.prev_reg_id
      then st
      else loaded f (record st { dz_eor = false; dz_size = 0; buf_off = 0 }) (map_of maps region_id)

  unfoldable pub left_of : LogState → List ℕ
  left_of st = rest_of f (map_of maps region_id) (staged_state st)

  unfoldable pub after : LogState → ℕ → LogState
  after st n = record (stepped (map_of maps region_id) (staged_state st) n) {
    prev_reg_id = region_id;
  }

  pub region_read-copied :
      (st : LogState) (n : ℕ)
      → IsAtRegion f maps region_id st
      → 0 < n
      → region_read inflated f maps region_id st n ≡ some (take n (left_of st), after st n)
  unfolding region_read dzread noz_read left_of after staged_state
  region_read-copied st n here pos =
      let map = map_of maps region_id in
      let fuel : n + map.len + 2 ≡ suc (suc (n + map.len)) = omega arith in
      elim here.at [
        | inl (new, out) ↦
            let st' : LogState = record st { dz_eor = false; dz_size = 0; buf_off = 0 } in
            let go =
              noz_loop-fresh f map small ok (suc (n + map.len)) n st' pos refl refl refl here.same
                out in
            rw (new, fuel, go)
              (noz_loop-staged f map small (n + map.len) n region_id (loaded f st' map)
                (loaded-IsStaged f map small st' refl))
        | inr (old, staged) ↦
            rw (old, fuel) (noz_loop-staged f map small (n + map.len) n region_id st staged)
      ]

  staged_state-IsStaged :
      (st : LogState)
      → IsAtRegion f maps region_id st
      → IsStaged f (map_of maps region_id) (staged_state st)
        × ((staged_state st).offset ≡ (staged_state st).pos)
  unfolding staged_state loaded
  staged_state-IsStaged st here = elim here.at [
    | inl (new, out) ↦ rw new (
      loaded-IsStaged f (map_of maps region_id) small
          (record st { dz_eor = false; dz_size = 0; buf_off = 0 }) refl,
      refl,
    )
    | inr (old, staged) ↦ rw old (staged, here.same)
  ]

  stepped-same :
      (map : LogMap) (st : LogState) (n : ℕ)
      → st.offset ≡ st.pos
      → (stepped map st n).offset ≡ (stepped map st n).pos
  unfolding stepped
  stepped-same map st n e = ground (arith, e)

  pub after-IsAtRegion :
      (st : LogState) (n : ℕ)
      → IsAtRegion f maps region_id st
      → length (take n (left_of st)) ≡ n
      → IsAtRegion f maps region_id (after st n) × (left_of (after st n) ≡ drop n (left_of st))
  unfolding left_of
  after-IsAtRegion st n here full =
      let map = map_of maps region_id in
      let (staged, same) = staged_state-IsStaged st here in
      let (staged', rest) = stepped-IsStaged f map small (staged_state st) n staged full in
      let stays : staged_state (after st n) ≡ after st n =
        unfold staged_state after in rw (==_refl region_id) refl in
      (
        record {
          same = unfold after in stepped-same map (staged_state st) n same;
          at = inr (
            unfold after in ==_refl region_id,
            unfold after in
                record {
                  size = staged'.size;
                  ended = staged'.ended;
                  off = staged'.off;
                  bytes = staged'.bytes;
                },
          );
        },
        ap (rest_of f map) stays ∙ (unfold after in rest),
      )

  -- A region that fits the staging buffer is read as a reader promises.
  unfoldable pub noz_reader : RegionReader LogState (region_read inflated f maps region_id)
  noz_reader = record {
    IsReadable = IsAtRegion f maps region_id;
    remaining = left_of;
    next = after;
    copied = region_read-copied;
    kept = λ s n here pos full. after-IsAtRegion s n here full;
  }

  -- A region that was not started is all there to read.
  pub left_of-start :
      (st : LogState)
      → (region_id == st.prev_reg_id) ≡ false
      → left_of st ≡ region f (map_of maps region_id)
  unfolding left_of staged_state loaded
  left_of-start st new = rw new refl
