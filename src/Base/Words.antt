-- ===== src/Base/Words.antt =====
-- `usize` arithmetic, 64 bits wide, and file descriptors (`c_int`).
use Prim.Native.Nat.{ℕ, ◌+◌, ◌-◌, ◌%◌, ◌^◌, ◌≤◌, ◌<◌}
use mathlib.Core.Path.{◌≡◌}
use mathlib.Core.Bool.{Bool, true, false}
use native.Mathlib.Omega.{arith}

abbrev pub usize_mod : ℕ
usize_mod = 2 ^ 64

unfoldable pub add_usize : ℕ → ℕ → ℕ
add_usize a b = (a + b) % usize_mod

unfoldable pub sub_usize : ℕ → ℕ → ℕ
sub_usize a b = (a + usize_mod - b) % usize_mod

pub add_usize_lem : (a b : ℕ) → a + b < 2 ^ 64 → add_usize a b ≡ a + b
unfolding add_usize
add_usize_lem a b h = omega arith

pub sub_usize_lem : (a b : ℕ) → b ≤ a → a < 2 ^ 64 → sub_usize a b ≡ a - b
unfolding sub_usize
sub_usize_lem a b h k = omega arith

-- A `c_int`: `negsuc n` is -(n + 1).
pub data ℤ : Type 0 where
  pos : ℕ → ℤ
  negsuc : ℕ → ℤ

-- `fd >= 0`
abbrev pub is_nonneg : ℤ → Bool
is_nonneg (pos n) = true
is_nonneg (negsuc n) = false
