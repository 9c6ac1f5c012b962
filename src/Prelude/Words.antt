-- ===== src/Prelude/Words.antt =====
-- Fixed-width unsigned integers as native numbers: the wrap is written out.
use Prim.Native.Nat.{ℕ, ◌+◌, ◌-◌, ◌^◌, ◌%◌, ◌≤◌, ◌<◌}
use mathlib.Core.Path.{◌≡◌}
use native.Mathlib.Omega.{arith}

abbrev pub u8 : ℕ → ℕ
u8 a = a % 2 ^ 8

abbrev pub u16 : ℕ → ℕ
u16 a = a % 2 ^ 16

abbrev pub u32 : ℕ → ℕ
u32 a = a % 2 ^ 32

abbrev pub u64 : ℕ → ℕ
u64 a = a % 2 ^ 64

-- `size_t` addition and subtraction.
abbrev pub add64 : ℕ → ℕ → ℕ
add64 a b = (a + b) % 2 ^ 64

abbrev pub sub64 : ℕ → ℕ → ℕ
sub64 a b = (a + 2 ^ 64 - b) % 2 ^ 64

pub sub64_of_le : (a b : ℕ) → b ≤ a → a < 2 ^ 64 → sub64 a b ≡ a - b
sub64_of_le a b h k = omega arith

pub add64_of_lt : (a b : ℕ) → a + b < 2 ^ 64 → add64 a b ≡ a + b
add64_of_lt a b h = omega arith

pub u16_of_lt : (a : ℕ) → a < 2 ^ 16 → u16 a ≡ a
u16_of_lt a h = omega arith
