-- ===== src/Common/Bits.antt =====
-- `bit_and` at variables: its law for the lowest digit, and what a mask keeps.
use Prim.Native.Nat.{
  ℕ, zero, suc, ◌+◌, ◌-◌, ◌*◌, ◌/◌, ◌%◌, ◌^◌, ◌≤◌, ◌<◌, min, bit_and, digits, bit_and-bitwise,
}
use mathlib.Core.Path.{◌≡◌, refl, sym, ap, ◌∙◌}
use native.Mathlib.Nat.{pow-suc, mul_assoc, mul_comm}
use native.Mathlib.Omega.{arith}
use xc.Common.Words.{u64_mod, sub64, not64}

-- `mask & x` on the lowest `rounds` digits of `mask`, which `bit_and` is for enough rounds.
abbrev masked : ℕ → ℕ → ℕ → ℕ
masked rounds mask x = digits (λ y. 0) min rounds mask x

masked-none : (rounds x : ℕ) → masked rounds 0 x ≡ 0
masked-none zero x = refl
masked-none (suc rounds) x = refl

-- No more rounds than `mask` are needed.
masked_enough :
    (mask x rounds others : ℕ)
    → mask ≤ others
    → mask ≤ rounds
    → masked rounds mask x ≡ masked others mask x
masked_enough zero x rounds others h k = masked-none rounds x ∙ sym (masked-none others x)
masked_enough (suc mask) x zero others h k = absurd (omega arith)
masked_enough (suc mask) x (suc rounds) zero h k = absurd (omega arith)
masked_enough (suc mask) x (suc rounds) (suc others) h k =
    let half = masked_enough (suc mask / 2) (x / 2) rounds others (omega arith) (omega arith) in
    omega (arith, half)

none-bit_and : (x : ℕ) → bit_and 0 x ≡ 0
none-bit_and x = bit_and-bitwise 0 x ∙ masked-none 0 x

-- The lowest digit of a mask, and the others.
pub bit_and_low :
    (mask x : ℕ) → bit_and mask x ≡ min (mask % 2) (x % 2) + 2 * bit_and (mask / 2) (x / 2)
bit_and_low zero x = omega (arith, none-bit_and (x / 2), none-bit_and x)
bit_and_low (suc mask) x =
    let low = bit_and-bitwise (suc mask) x in
    let high = bit_and-bitwise (suc mask / 2) (x / 2) in
    let half =
      masked_enough (suc mask / 2) (x / 2) mask (suc mask / 2) (omega arith) (omega arith) in
    omega (arith, low, high, half)

bit_and-le_fuel : (n a b : ℕ) → a ≤ n → bit_and a b ≤ a
bit_and-le_fuel n zero b h = omega (arith, none-bit_and b)
bit_and-le_fuel zero (suc a) b h = absurd (omega arith)
bit_and-le_fuel (suc n) (suc a) b h =
    omega (arith, bit_and_low (suc a) b, bit_and-le_fuel n (suc a / 2) (b / 2) (omega arith))

-- A mask only clears bits.
pub bit_and-le : (a b : ℕ) → bit_and a b ≤ a
bit_and-le a b = bit_and-le_fuel a a b (omega arith)

-- `x` is a multiple of 2 ^ k.
abbrev pub IsAligned : ℕ → ℕ → Type 0
IsAligned k x = (q : ℕ) × (x ≡ q * 2 ^ k)

double-pow : (q k : ℕ) → q * 2 ^ suc k ≡ q * 2 ^ k * 2
double-pow q k = omega (arith, ap (λ t. q * t) (pow-suc 2 k), mul_assoc q (2 ^ k) 2)

-- A mask that is a multiple of 2 ^ k leaves one.
pub bit_and-IsAligned : (k a b : ℕ) → IsAligned k b → IsAligned k (bit_and a b)
bit_and-IsAligned zero a b h = (bit_and a b, omega arith)
bit_and-IsAligned (suc k) a b (q, e) =
    let half : b ≡ q * 2 ^ k * 2 = e ∙ double-pow q k in
    let (r, e') = bit_and-IsAligned k (a / 2) (b / 2) (q, omega arith) in
    (r, omega (arith, bit_and_low a b, double-pow r k))

pub pow_pos : (k : ℕ) → 0 < 2 ^ k
pow_pos zero = omega arith
pow_pos (suc k) = omega (arith, pow-suc 2 k, pow_pos k)

pub pow_split : (j k : ℕ) → 2 ^ j * 2 ^ k ≡ 2 ^ (j + k)
pow_split zero k = let e : 0 + k ≡ k = omega arith in rw e (omega arith)
pow_split (suc j) k =
    let e : suc j + k ≡ suc (j + k) = omega arith in
    rw e (
      omega (
        arith,
        pow-suc 2 j,
        pow-suc 2 (j + k),
        ap (λ t. t * 2 ^ k) (pow-suc 2 j),
        mul_assoc (2 ^ j) 2 (2 ^ k),
        mul_assoc (2 ^ j) (2 ^ k) 2,
        ap (λ t. 2 ^ j * t) (mul_comm 2 (2 ^ k)),
        pow_split j k,
      ))

pred-mul : (n m : ℕ) → 0 < n → ((n - 1) * m + m ≡ n * m) × (m ≤ n * m)
pred-mul zero m h = absurd (omega arith)
pred-mul (suc n) m h = let e : suc n - 1 ≡ n = omega arith in rw e (omega arith)

-- ~(2 ^ k - 1), in 64 bits, is a multiple of 2 ^ k.
pub not64-IsAligned : (k : ℕ) → k ≤ 64 → IsAligned k (not64 (sub64 (2 ^ k) 1))
unfolding not64 sub64
not64-IsAligned k h =
    let whole : 2 ^ (64 - k) * 2 ^ k ≡ u64_mod =
      pow_split (64 - k) k ∙ (let e : 64 - k + k ≡ 64 = omega arith in rw e refl) in
    (
      2 ^ (64 - k) - 1,
      omega (arith, pow_pos k, pred-mul (2 ^ (64 - k)) (2 ^ k) (pow_pos (64 - k)), whole),
    )

-- A mask of the lowest n digits keeps them.
pub bit_and-low_digits : (n q r : ℕ) → r < 2 ^ n → bit_and (2 ^ n - 1) (q * 2 ^ n + r) ≡ r
bit_and-low_digits zero q r h = let e : r ≡ 0 = omega arith in rw e (none-bit_and (q * 1 + 0))
bit_and-low_digits (suc n) q r h =
    let pow = pow-suc 2 n in
    let half : r / 2 < 2 ^ n = omega (arith, pow) in
    let mask : (2 ^ suc n - 1) / 2 ≡ 2 ^ n - 1 = omega (arith, pow, pow_pos n) in
    let odd : (2 ^ suc n - 1) % 2 ≡ 1 = omega (arith, pow, pow_pos n) in
    let rest : (q * 2 ^ suc n + r) / 2 ≡ q * 2 ^ n + r / 2 = omega (arith, double-pow q n) in
    let last : (q * 2 ^ suc n + r) % 2 ≡ r % 2 = omega (arith, double-pow q n) in
    bit_and_low (2 ^ suc n - 1) (q * 2 ^ suc n + r)
    ∙ rw (mask, odd, rest, last, bit_and-low_digits n q (r / 2) half) (omega arith)

-- Ones in all places keep a number, and a mask of the places from k on drops the lowest k.
bit_and-ones : (n q : ℕ) → q < 2 ^ n → bit_and q (2 ^ n - 1) ≡ q
bit_and-ones zero q h = let e : q ≡ 0 = omega arith in rw e (none-bit_and (2 ^ 0 - 1))
bit_and-ones (suc n) q h =
    let pow = pow-suc 2 n in
    let half : q / 2 < 2 ^ n = omega (arith, pow) in
    let mask : (2 ^ suc n - 1) / 2 ≡ 2 ^ n - 1 = omega (arith, pow, pow_pos n) in
    let odd : (2 ^ suc n - 1) % 2 ≡ 1 = omega (arith, pow, pow_pos n) in
    bit_and_low q (2 ^ suc n - 1) ∙ rw (mask, odd, bit_and-ones n (q / 2) half) (omega arith)

bit_and-shifted :
    (k q r c : ℕ) → r < 2 ^ k → bit_and (q * 2 ^ k + r) (c * 2 ^ k) ≡ bit_and q c * 2 ^ k
bit_and-shifted zero q r c h =
    let e : q * 2 ^ 0 + r ≡ q = omega arith in
    let f : c * 2 ^ 0 ≡ c = omega arith in rw (e, f) (omega arith)
bit_and-shifted (suc k) q r c h =
    let pow = pow-suc 2 k in
    let half : r / 2 < 2 ^ k = omega (arith, pow) in
    let rest : (q * 2 ^ suc k + r) / 2 ≡ q * 2 ^ k + r / 2 = omega (arith, double-pow q k) in
    let mask : c * 2 ^ suc k / 2 ≡ c * 2 ^ k = omega (arith, double-pow c k) in
    let even : c * 2 ^ suc k % 2 ≡ 0 = omega (arith, double-pow c k) in
    bit_and_low (q * 2 ^ suc k + r) (c * 2 ^ suc k)
    ∙ rw (rest, mask, even, bit_and-shifted k q (r / 2) c half)
        (omega (arith, double-pow (bit_and q c) k))

-- The multiple of 2 ^ k below a number of 32 bits.
pub bit_and-multiple :
    (k j q r : ℕ)
    → r < 2 ^ k
    → q < 2 ^ j
    → bit_and (q * 2 ^ k + r) ((2 ^ j - 1) * 2 ^ k) ≡ q * 2 ^ k
bit_and-multiple k j q r h l =
    bit_and-shifted k q r (2 ^ j - 1) h ∙ ap (λ t. t * 2 ^ k) (bit_and-ones j q l)
