-- ===== src/Common/Flags.antt =====
-- Flags in a word: which bits `bit_and` and `bit_or` leave.
use Prim.Native.Nat.{
  ℕ, zero, suc, ◌+◌, ◌*◌, ◌/◌, ◌%◌, ◌≤◌, min, max, bit_and, bit_or, digits, bit_or-bitwise,
}
use mathlib.Core.Path.{◌≡◌, refl, sym, ◌∙◌}
use native.Mathlib.Omega.{arith}
use xc.Common.Bits.{bit_and_low}

abbrev joined : ℕ → ℕ → ℕ → ℕ
joined rounds a b = digits (λ y. y) max rounds a b

joined-none : (rounds b : ℕ) → joined rounds 0 b ≡ b
joined-none zero b = refl
joined-none (suc rounds) b = refl

joined_enough :
    (a b rounds others : ℕ) → a ≤ others → a ≤ rounds → joined rounds a b ≡ joined others a b
joined_enough zero b rounds others h k = joined-none rounds b ∙ sym (joined-none others b)
joined_enough (suc a) b zero others h k = absurd (omega arith)
joined_enough (suc a) b (suc rounds) zero h k = absurd (omega arith)
joined_enough (suc a) b (suc rounds) (suc others) h k =
    let half = joined_enough (suc a / 2) (b / 2) rounds others (omega arith) (omega arith) in
    omega (arith, half)

none-bit_or : (b : ℕ) → bit_or 0 b ≡ b
none-bit_or b = bit_or-bitwise 0 b ∙ joined-none 0 b

bit_or_low : (a b : ℕ) → bit_or a b ≡ max (a % 2) (b % 2) + 2 * bit_or (a / 2) (b / 2)
bit_or_low zero b = omega (arith, none-bit_or (b / 2), none-bit_or b)
bit_or_low (suc a) b =
    let low = bit_or-bitwise (suc a) b in
    let high = bit_or-bitwise (suc a / 2) (b / 2) in
    let half = joined_enough (suc a / 2) (b / 2) a (suc a / 2) (omega arith) (omega arith) in
    omega (arith, low, high, half)

-- The bit `n` of a word.
abbrev pub bit : ℕ → ℕ → ℕ
bit zero x = x % 2
bit (suc n) x = bit n (x / 2)

pub bit_le : (n x : ℕ) → bit n x ≤ 1
bit_le zero x = omega arith
bit_le (suc n) x = bit_le n (x / 2)

pub bit-bit_or : (n a b : ℕ) → bit n (bit_or a b) ≡ max (bit n a) (bit n b)
bit-bit_or zero a b = omega (arith, bit_or_low a b)
bit-bit_or (suc n) a b =
    let half : bit_or a b / 2 ≡ bit_or (a / 2) (b / 2) = omega (arith, bit_or_low a b) in
    rw half (bit-bit_or n (a / 2) (b / 2))

pub bit-bit_and : (n a b : ℕ) → bit n (bit_and a b) ≡ min (bit n a) (bit n b)
bit-bit_and zero a b = omega (arith, bit_and_low a b)
bit-bit_and (suc n) a b =
    let half : bit_and a b / 2 ≡ bit_and (a / 2) (b / 2) = omega (arith, bit_and_low a b) in
    rw half (bit-bit_and n (a / 2) (b / 2))
