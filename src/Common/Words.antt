-- ===== src/Common/Words.antt =====
-- Unsigned arithmetic as the source has it: a u64 modulo 2 ^ 64, and a long modulo 2 ^ 32.
use Prim.Native.Nat.{ℕ, ◌+◌, ◌-◌, ◌%◌, ◌≤◌, ◌<◌}
use mathlib.Core.Path.{◌≡◌}
use native.Mathlib.Omega.{arith}

abbrev pub u64_mod : ℕ
u64_mod = 0x1_0000_0000_0000_0000

unfoldable pub add64 : ℕ → ℕ → ℕ
add64 a b = (a + b) % u64_mod

unfoldable pub sub64 : ℕ → ℕ → ℕ
sub64 a b = (a + u64_mod - b) % u64_mod

unfoldable pub not64 : ℕ → ℕ
not64 a = u64_mod - 1 - a

pub add64_exact : (a b : ℕ) → a + b < u64_mod → add64 a b ≡ a + b
unfolding add64
add64_exact a b h = omega arith

pub sub64_exact : (a b : ℕ) → a < u64_mod → b ≤ a → sub64 a b ≡ a - b
unfolding sub64
sub64_exact a b h p = omega arith

abbrev pub long_mod : ℕ
long_mod = 0x1_0000_0000

unfoldable pub long_add : ℕ → ℕ → ℕ
long_add a b = (a + b) % long_mod

unfoldable pub long_sub : ℕ → ℕ → ℕ
long_sub a b = (a + long_mod - b % long_mod) % long_mod

pub long_sub_exact : (a b : ℕ) → a < long_mod → b ≤ a → long_sub a b ≡ a - b
unfolding long_sub
long_sub_exact a b h k = omega arith

pub long_add_exact : (a b : ℕ) → a + b < long_mod → long_add a b ≡ a + b
unfolding long_add
long_add_exact a b h = omega arith
