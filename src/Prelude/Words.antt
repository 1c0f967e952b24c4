-- ===== src/Prelude/Words.antt =====
-- `size_t` (and `uint64_t`) arithmetic of 64 bits with its wrap-around, and the cast to `int`.
use Prim.Native.Nat.{ℕ, ◌+◌, ◌-◌, ◌*◌, ◌%◌, ◌≤◌, ◌<◌}
use mathlib.Core.Path.{◌≡◌}
use native.Mathlib.Omega.{arith}
use native.Mathlib.Nat.{mod-eq_of_lt}
use darshan.Prelude.Tests.{ltb, if◌then◌else◌}

abbrev pub word : ℕ
word = 18446744073709551616

unfoldable pub add_size : ℕ → ℕ → ℕ
add_size a b = (a + b) % word

unfoldable pub sub_size : ℕ → ℕ → ℕ
sub_size a b = (a + word - b) % word

unfoldable pub mul_size : ℕ → ℕ → ℕ
mul_size a b = (a * b) % word

-- `int x = n`, read back where a `size_t` is wanted: the low 32 bits, their sign extended.
unfoldable pub int_of_size : ℕ → ℕ
int_of_size n =
    let low = n % 4294967296 in if ltb low 2147483648 then low else word - 4294967296 + low

pub add_size-eq : (a b : ℕ) → a + b < word → add_size a b ≡ a + b
unfolding add_size
add_size-eq a b h = omega arith

pub sub_size-eq : (a b : ℕ) → b ≤ a → a < word → sub_size a b ≡ a - b
unfolding sub_size
sub_size-eq a b h k = omega arith

pub mul_size-le : (a b : ℕ) → mul_size a b ≤ a * b
unfolding mul_size
mul_size-le a b = omega arith

pub mul_size-eq : (a b : ℕ) → a * b < word → mul_size a b ≡ a * b
unfolding mul_size
mul_size-eq a b h = mod-eq_of_lt h

pub int_of_size-eq : (n : ℕ) → n < 2147483648 → int_of_size n ≡ n
unfolding int_of_size
int_of_size-eq n h = ground arith
