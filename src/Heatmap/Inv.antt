-- ===== src/Heatmap/Inv.antt =====
-- The heatmaps of darshan-runtime/lib/darshan-heatmap.c stay whole: heatmap_register and
-- heatmap_update give what the counting of an access needs.
use darshan.Prelude.{
  ℕ, zero, suc, ◌+◌, ◌-◌, ◌*◌, ◌/◌, ◌≤◌, ◌≡◌, ◌≢◌, ltb, ◌==◌, Bool, true, false, not, ◌||◌, Option,
  none, some, arith, refl, ◌∙◌, length-set, Bool-cases, Option-cases, inl, inr,
}
use darshan.Prelude.Hash.{
  Uthash, AllItems, AllItems-find, AllItems-add, AllItems-store, AllItems-delete,
}
use darshan.Core.State.{Bytes, NameRef, Core, heatmap_mod}
use darshan.Core.Register.{Grant, register_module, core_register_record}
use darshan.Heatmap.State.{Heatmap, Runtime, max_heatmap_bins, heatmap_size, max_heatmaps}
use darshan.Heatmap.Register.{
  Env, returned, fresh_heatmap, start_runtime, heatmap_runtime_initialize, heatmap_track_new_record,
  register_heatmap, chosen_runtime, heatmap_register,
}
use darshan.Heatmap.Update.{
  time_in_bin, share, add_bytes, spread, collapse_heatmap, collapse_until, update_record,
  heatmap_update,
}
use darshan.Heatmap.Collapse.{IsFull}
use darshan.Heatmap.Fit.{collapse_until-Fitted}

-- A heatmap under its own identifier, with all its bins, of some width.
pub record IsMap (id : ℕ) (hm : Heatmap) : Type 0 where
  pub own : hm.id ≡ id
  pub full : IsFull hm
  pub wide : 1 ≤ hm.bin_width

-- All heatmaps of a runtime, if there is one.
abbrev pub MapsValid : {H : Type 0} → ⦃h : Uthash Heatmap H⦄ → Option (Runtime H) → Type 0
MapsValid none = Unit
MapsValid ⦃h⦄ (some rt) = AllItems IsMap (h.iter rt.rec_id_hash)

-- A time is not the end of the last bin of the heatmap, collapsed as far as the time asks for.
abbrev pub InsideBins : {H : Type 0} → ⦃h : Uthash Heatmap H⦄ → Option (Runtime H) → ℕ → ℕ → Type 0
InsideBins none id e = Unit
InsideBins ⦃h⦄ (some rt) id e =
    (hm : Heatmap)
    → h.find rt.rec_id_hash id ≡ some hm
    → e ≢ (collapse_until e e hm).bin_width * max_heatmap_bins

fresh_heatmap-IsMap : (id rank : ℕ) → IsMap id (fresh_heatmap id rank)
unfolding fresh_heatmap
fresh_heatmap-IsMap id rank = record {
  own = refl;
  full = record { writes = refl; reads = refl };
  wide = omega arith;
}

add_bytes-IsMap :
    (is_write : Bool) (id : ℕ) (hm : Heatmap) (b n : ℕ)
    → IsMap id hm
    → IsMap id (add_bytes is_write hm b n)
unfolding add_bytes
add_bytes-IsMap false id hm b n m = record {
  own = m.own;
  full = record { writes = m.full.writes; reads = length-set hm.read_bins b _ ∙ m.full.reads };
  wide = m.wide;
}
add_bytes-IsMap true id hm b n m = elim (Bool-cases (ltb b max_heatmap_bins)) [
  | inl low ↦
      rw (low, add_bytes)
        (record {
          own = m.own;
          full = record {
            writes = length-set hm.write_bins b _ ∙ m.full.writes;
            reads = m.full.reads;
          };
          wide = m.wide;
        })
  | inr high ↦
      rw (high, add_bytes)
        (record {
          own = m.own;
          full = record {
            writes = m.full.writes;
            reads = length-set hm.read_bins (b - max_heatmap_bins) _ ∙ m.full.reads;
          };
          wide = m.wide;
        })
]

spread-IsMap :
    (n : ℕ) (is_write : Bool) (b size s e id : ℕ) (hm : Heatmap)
    → IsMap id hm
    → IsMap id (spread n is_write b size s e hm)
unfolding spread
spread-IsMap zero is_write b size s e id hm m = m
spread-IsMap (suc n) is_write b size s e id hm m =
    elim (Option-cases (time_in_bin hm.bin_width b s e)) [
      | inl bails ↦ rw (bails, spread) m
      | inr (time, here) ↦
          rw (here, spread)
            (spread-IsMap n is_write (b + 1) size s e id
              (add_bytes is_write hm b (share size time s e))
              (add_bytes-IsMap is_write id hm b (share size time s e) m))
    ]

collapse_until-id : (fuel e : ℕ) (hm : Heatmap) → (collapse_until fuel e hm).id ≡ hm.id
unfolding collapse_until collapse_heatmap
collapse_until-id zero e hm = refl
collapse_until-id (suc fuel) e hm = elim (Bool-cases (ltb (hm.bin_width * max_heatmap_bins) e)) [
  | inl outside ↦ simp (outside, collapse_until) (collapse_until-id fuel e (collapse_heatmap hm))
  | inr inside ↦ simp (inside, collapse_until) refl
]

update_record-IsMap :
    (is_write : Bool) (size s e id : ℕ) (hm : Heatmap)
    → IsMap id hm
    → IsMap id (update_record is_write size s e hm)
unfolding update_record
update_record-IsMap is_write size s e id hm m =
    let fit = collapse_until-Fitted e hm m.wide m.full in
    let hm' = collapse_until e e hm in
    let first = s / hm'.bin_width in
    spread-IsMap (e / hm'.bin_width + 1 - first) is_write first size s e id hm'
      (record { own = collapse_until-id e e hm ∙ m.own; full = fit.full; wide = fit.wide })

module _ {H : Type 0} ⦃h : Uthash Heatmap H⦄ where
  -- Counting an access that does not end exactly at the end of the last bin, of the width that the
  -- heatmap has by then, keeps on every branch every heatmap whole: under its own identifier, with all
  -- its bins, of some width.
  pub heatmap_update-MapsValid :
      (rt : Option (Runtime H)) (id : ℕ) (is_write : Bool) (size s e : ℕ)
      → InsideBins rt id e
      → MapsValid rt
      → MapsValid (heatmap_update rt id is_write size s e)
  unfolding heatmap_update update_record
  heatmap_update-MapsValid none id is_write size s e inside v = tt
  heatmap_update-MapsValid (some rt) id is_write size s e inside v = elim (Bool-cases (size == 0)) [
    | inl nothing ↦ simp (nothing, heatmap_update) v
    | inr sized ↦ elim (Bool-cases rt.frozen) [
      | inl frozen ↦ simp (sized, frozen, heatmap_update) v
      | inr live ↦ elim (Option-cases (h.find rt.rec_id_hash id)) [
        | inl absent ↦ simp (sized, live, absent, heatmap_update) v
        | inr (hm, found) ↦
            simp (sized, live, found, heatmap_update)
              (AllItems-store h IsMap rt.rec_id_hash id hm (update_record is_write size s e hm)
                found v
                (update_record-IsMap is_write size s e id hm
                  (AllItems-find h IsMap rt.rec_id_hash id hm found v)))
      ]
    ]
  ]

module _ {T : Type 0} (H : Type 0) ⦃h : Uthash Heatmap H⦄ where
  start_runtime-MapsValid :
      (alloc : Bool) (core : Option (Core T)) (grant : Option Grant)
      → MapsValid (start_runtime {H = H} alloc core grant).1
  unfolding start_runtime
  start_runtime-MapsValid alloc core none = tt
  start_runtime-MapsValid true core (some g) = rw h.iter-empty tt
  start_runtime-MapsValid false core (some g) = tt

chosen_runtime-MapsValid :
    {H : Type 0} ⦃h : Uthash Heatmap H⦄ (theirs tmp : Option (Runtime H))
    → MapsValid theirs
    → MapsValid tmp
    → MapsValid (chosen_runtime theirs tmp)
unfolding chosen_runtime
chosen_runtime-MapsValid (some theirs) (some tmp) v w = v
chosen_runtime-MapsValid none tmp v w = w
chosen_runtime-MapsValid (some theirs) none v w = tt

module _ {T H : Type 0} ⦃n : Uthash NameRef T⦄ ⦃h : Uthash Heatmap H⦄ (env : Env T) where
  track-MapsValid :
      (core : Option (Core T)) (rt : Runtime H) (id : ℕ) (name : Bytes)
      → h.find rt.rec_id_hash id ≡ none
      → MapsValid (some rt)
      → MapsValid (some (heatmap_track_new_record env core rt id name).1)
  unfolding heatmap_track_new_record
  track-MapsValid core rt id name absent v =
      let hm = fresh_heatmap id env.my_rank in
      let added =
        AllItems-add h IsMap rt.rec_id_hash id hm absent v (fresh_heatmap-IsMap id env.my_rank) in
      let (core', out) =
        core_register_record env.meanwhile env.alloc_name core id (some name) heatmap_mod
          heatmap_size in
      let present : h.find (h.add rt.rec_id_hash id hm) id ≡ some hm =
        ground (arith, h.find-add rt.rec_id_hash id hm id absent) in
      elim (Bool-cases (not env.alloc_ref || not env.alloc_tracker)) [
        | inl full ↦ simp (full, heatmap_track_new_record) v
        | inr enough ↦ elim (Bool-cases (returned out)) [
          | inl ok ↦ simp (enough, ok, heatmap_track_new_record) added
          | inr failed ↦
              simp (enough, failed, heatmap_track_new_record)
                (AllItems-delete h IsMap (h.add rt.rec_id_hash id hm) id hm present added)
        ]
      ]

  register_heatmap-MapsValid :
      (core : Option (Core T)) (rt : Option (Runtime H)) (name : Bytes)
      → MapsValid rt
      → MapsValid (register_heatmap env core rt name).1
  unfolding register_heatmap
  register_heatmap-MapsValid core none name v = tt
  register_heatmap-MapsValid core (some rt) name v =
      let id = env.gen_record_id name in
      elim (Option-cases (h.find rt.rec_id_hash id)) [
        | inr (hm, found) ↦ simp (found, register_heatmap) v
        | inl absent ↦ simp (absent, register_heatmap) (track-MapsValid core rt id name absent v)
      ]

  -- Registering a heatmap, on every branch and whichever allocation fails, keeps every heatmap whole,
  -- also where another thread has started a runtime, with heatmaps that are whole, by the time that
  -- this one has tried to.
  pub heatmap_register-MapsValid :
      (theirs : Option (Runtime H)) (core : Option (Core T)) (rt : Option (Runtime H))
      (name : Bytes)
      → MapsValid theirs
      → MapsValid rt
      → MapsValid (heatmap_register env theirs core rt name).1
  unfolding heatmap_register heatmap_runtime_initialize
  heatmap_register-MapsValid theirs core (some rt) name w v =
      register_heatmap-MapsValid core (some rt) name v
  heatmap_register-MapsValid theirs core none name w v =
      let (core', grant) =
        register_module env.alloc_module env.my_rank core heatmap_mod heatmap_size max_heatmaps in
      let (core'', rt) = start_runtime {H = H} env.alloc_runtime core' grant in
      register_heatmap-MapsValid core'' (chosen_runtime theirs rt) name (
        chosen_runtime-MapsValid theirs rt w
          (start_runtime-MapsValid H env.alloc_runtime core' grant))
