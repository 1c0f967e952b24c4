-- ===== src/Prelude/Bits.antt =====
-- Module flags: one bit of a word for each module. `flags | (1 << id)` and `flags & (1 << id)` are
-- written on the binary digits of the word, the bit `id` being reached by halving `id` times.
use Prim.Native.Nat.{ℕ, zero, suc, ◌+◌, ◌*◌, ◌/◌, ◌%◌}
use mathlib.Core.Path.{◌≡◌, refl}
use mathlib.Core.Bool.{Bool, true, false}
use native.Mathlib.Omega.{arith}
use darshan.Prelude.Tests.{◌==◌, if◌then◌else◌}

-- DARSHAN_MOD_FLAG_SET
unfoldable pub mod_flag_set : ℕ → ℕ → ℕ
mod_flag_set flags zero = if flags % 2 == 1 then flags else flags + 1
mod_flag_set flags (suc id) = mod_flag_set (flags / 2) id * 2 + flags % 2

-- DARSHAN_MOD_FLAG_ISSET
unfoldable pub mod_flag_isset : ℕ → ℕ → Bool
mod_flag_isset flags zero = flags % 2 == 1
mod_flag_isset flags (suc id) = mod_flag_isset (flags / 2) id

-- The word without its last bit, after a flag is set in it.
half_set :
    (flags id : ℕ)
    → (mod_flag_set flags (suc id) / 2 ≡ mod_flag_set (flags / 2) id)
      × (mod_flag_set flags (suc id) % 2 ≡ flags % 2)
unfolding mod_flag_set
half_set flags id = (omega arith, omega arith)

first_set :
    (flags : ℕ) → (mod_flag_set flags zero / 2 ≡ flags / 2) × (mod_flag_set flags zero % 2 ≡ 1)
unfolding mod_flag_set
first_set flags = (ground arith, ground arith)

-- Setting a flag sets that flag and leaves every other as it was.
pub isset-set :
    (flags i j : ℕ)
    → mod_flag_isset (mod_flag_set flags i) j ≡ (if i == j then true else mod_flag_isset flags j)
unfolding mod_flag_isset
isset-set flags zero zero = rw (first_set flags).1 refl
isset-set flags zero (suc j) = rw (first_set flags).0 (ground arith)
isset-set flags (suc i) zero = rw (half_set flags i).1 (ground arith)
isset-set flags (suc i) (suc j) =
    rw (half_set flags i).0 (ground (arith, isset-set (flags / 2) i j))

pub isset-zero : (j : ℕ) → mod_flag_isset 0 j ≡ false
unfolding mod_flag_isset
isset-zero zero = refl
isset-zero (suc j) = isset-zero j
