-- ===== src/Tests/Heatmap.antt =====
-- Accesses counted in a heatmap.
use darshan.Prelude.{
  ◌+◌, ◌*◌, ◌≡◌, ◌≢◌, true, false, none, some, [], ◌∷◌, replicate, set, get_or, length, refl, arith,
}
use darshan.Prelude.Hash.{Uthash}
use darshan.Heatmap.State.{Heatmap, Runtime}
use darshan.Heatmap.Update.{collapse_heatmap, collapse_until, update_record, heatmap_update}
use darshan.Heatmap.Collapse.{IsFull, SameBytes, Paired, collapse_heatmap-SameBytes}
use darshan.Heatmap.Fit.{Fitted, collapse_until-Fitted, collapse_until-settled}
use darshan.Heatmap.Access.{update_record-boundary}
use darshan.Heatmap.Register.{Env, heatmap_register}
use darshan.Heatmap.Inv.{
  InsideBins, MapsValid, heatmap_update-MapsValid, heatmap_register-MapsValid,
}
use darshan.Tests.Setup.{Names, name_table, core_start, path_x}
use darshan.Tests.Table.{Table, list_uthash}

abbrev Maps : Type 0
Maps = Table Heatmap

instance abbrev map_table : Uthash Heatmap Maps
map_table = list_uthash Heatmap

-- Bins of 10 ticks, 2000 in all, with some bytes in the first two.
abbrev map_a : Heatmap
map_a = record {
  id = 5;
  rank = 0;
  bin_width = 10;
  nbins = 200;
  write_bins = 3 ∷ 4 ∷ replicate 198 0;
  read_bins = replicate 200 0;
}

map_a-IsFull : IsFull map_a
map_a-IsFull = record { writes = refl; reads = refl }

abbrev runtime_a : Runtime Maps
runtime_a = record {
  rec_id_hash = record { items = (5, map_a) ∷ []; unique = (refl, tt) };
  rec_count = 1;
  frozen = false;
}

collapse_heatmap-SameBytes_example :
    let hm' = collapse_heatmap map_a in
    (hm'.bin_width ≡ 10 * 2)
    × Paired map_a.write_bins hm'.write_bins
    × Paired map_a.read_bins hm'.read_bins
    × IsFull hm'
    × SameBytes map_a hm'
collapse_heatmap-SameBytes_example = collapse_heatmap-SameBytes map_a map_a-IsFull

collapse_until-Fitted_example : Fitted map_a 5000 (collapse_until 5000 5000 map_a)
collapse_until-Fitted_example = collapse_until-Fitted 5000 map_a (omega arith) map_a-IsFull

inside_a : 42 ≢ (collapse_until 42 42 map_a).bin_width * 200
inside_a = let same = collapse_until-settled 42 42 map_a (omega arith) in rw same (omega arith)

update_record-boundary_example :
    update_record true 512 2000 2000 map_a
    ≡ record map_a { read_bins = set map_a.read_bins 0 (get_or map_a.read_bins 0 0 + 512) }
update_record-boundary_example = update_record-boundary 512 map_a (omega arith)

runtime_a-MapsValid : MapsValid (some runtime_a)
runtime_a-MapsValid = (record { own = refl; full = map_a-IsFull; wide = omega arith }, tt)

runtime_a-InsideBins : InsideBins (some runtime_a) 5 42
runtime_a-InsideBins hm found = let same : map_a ≡ hm = cc in rw (← same) inside_a

heatmap_update-MapsValid_example : MapsValid (heatmap_update (some runtime_a) 5 false 1000 15 42)
heatmap_update-MapsValid_example =
    heatmap_update-MapsValid (some runtime_a) 5 false 1000 15 42 runtime_a-InsideBins
      runtime_a-MapsValid

abbrev env_a : Env Names
env_a = record {
  meanwhile = λ c. c;
  my_rank = 0;
  alloc_module = true;
  alloc_runtime = true;
  alloc_ref = true;
  alloc_tracker = true;
  alloc_name = true;
  gen_record_id = length;
}

heatmap_register-MapsValid_example :
    MapsValid (heatmap_register {H = Maps} env_a (some runtime_a) (some core_start) none path_x).1
heatmap_register-MapsValid_example =
    heatmap_register-MapsValid env_a (some runtime_a) (some core_start) none path_x
      runtime_a-MapsValid tt
