-- ===== src/Core/Register/Inv.antt =====
-- The invariant of the module memory that darshan_core_register_module hands out: every module that
-- is not DXT owns a region of it, and no two regions overlap.
use darshan.Prelude.{ℕ, ◌+◌, ◌≤◌, ◌<◌, ◌≡◌, ◌≢◌, ◌⊎◌, false, some, length}
use darshan.Core.State.{Module, Core, module_at, is_dxt, known_module_count}

-- The region of a module ends where its last record can end.
abbrev pub region_end : Module → ℕ
region_end m = m.rec_buf_p + m.rec_mem_avail

pub record IsValid {T : Type 0} (c : Core T) : Type 0 where
  pub modules : length c.mod_array ≡ known_module_count
  pub budget : c.mod_mem_used ≤ c.config.mod_mem
  pub small : c.config.mod_mem < 2147483648
  pub fits :
      (i : ℕ) (m : Module)
      → module_at c i ≡ some m
      → is_dxt i ≡ false
      → (m.rec_buf_start ≤ m.rec_buf_p) × (region_end m ≤ c.mod_mem_used)
  pub apart :
      (i j : ℕ) (m n : Module)
      → i ≢ j
      → module_at c i ≡ some m
      → module_at c j ≡ some n
      → is_dxt i ≡ false
      → is_dxt j ≡ false
      → (region_end m ≤ n.rec_buf_start) ⊎ (region_end n ≤ m.rec_buf_start)
