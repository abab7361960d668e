-- ===== src/Slub/Sizes/Powers.antt =====
-- Powers of two around a number, and quotients.
use xc.Common.{
  ℕ, zero, suc, ◌+◌, ◌*◌, ◌/◌, ◌^◌, ◌≤◌, ◌<◌, ◌≡◌, refl, ap, ◌∙◌, inl, inr, arith, if◌then◌else◌,
  ltb, ◌==◌, ==_iff, ==_ne, Bool-cases, long_sub,
}
use native.Mathlib.Nat.{mod-add-div, mod-lt, pow-suc}
use xc.Common.Bits.{pow_pos}
use xc.Slub.Sizes.{fls_rounds}

pub pow_le : (a b : ℕ) → a ≤ b → 2 ^ a ≤ 2 ^ b
pow_le zero b h = omega (arith, pow_pos b)
pow_le (suc a) zero h = absurd (omega arith)
pow_le (suc a) (suc b) h = omega (arith, pow-suc 2 a, pow-suc 2 b, pow_le a b (omega arith))

pub pow_lt : (a b : ℕ) → 2 ^ a < 2 ^ b → a < b
pow_lt a b h = elim (Bool-cases (ltb a b)) [
  | inl e ↦ ground arith
  | inr e ↦ absurd (ground (arith, pow_le b a))
]

pub fls_rounds-none : (n : ℕ) → fls_rounds n 0 ≡ 0
unfolding fls_rounds
fls_rounds-none zero = refl
fls_rounds-none (suc n) = refl

fls_rounds-some : (n x : ℕ) → 0 < x → fls_rounds (suc n) x ≡ suc (fls_rounds n (x / 2))
unfolding fls_rounds
fls_rounds-some n x h =
    ap (λ b. if b then 0 else fls_rounds n (x / 2) + 1) (==_ne x 0 (λ e. absurd (omega arith)))
    ∙ omega arith

pub fls_rounds-bounds :
    (n x : ℕ) → 0 < x → x < 2 ^ n → (x < 2 ^ fls_rounds n x) × (2 ^ fls_rounds n x ≤ 2 * x)
fls_rounds-bounds zero x h k = absurd (omega arith)
fls_rounds-bounds (suc n) x h k =
    let not_zero : fls_rounds (suc n) x ≡ suc (fls_rounds n (x / 2)) = fls_rounds-some n x h in
    elim (Bool-cases (x == 1)) [
      | inl e ↦
          let one : x ≡ 1 = (==_iff _ _).0 e in
          let none_left : fls_rounds n (x / 2) ≡ 0 = rw one (fls_rounds-none n) in
          rw (not_zero, none_left) (omega (arith, one), omega (arith, one))
      | inr e ↦
          let (low, high) =
            fls_rounds-bounds n (x / 2) (ground arith) (omega (arith, pow-suc 2 n)) in
          let twice = pow-suc 2 (fls_rounds n (x / 2)) in
          rw not_zero (omega (arith, low, twice), omega (arith, high, twice))
    ]

pub quotient_positive : (n m : ℕ) → 0 < n → n ≤ m → 0 < m / n
quotient_positive n m h k = elim (Bool-cases (m / n == 0)) [
  | inl e ↦
      let none_left : m / n ≡ 0 = ground arith in
      absurd (grind (arith, mod-add-div m n, mod-lt m h, none_left))
  | inr e ↦ ground arith
]

pub times-le : (b c n : ℕ) → c ≤ b → n * c ≤ n * b
times-le b c zero h = omega arith
times-le b c (suc n) h = grind (arith, times-le b c n h)

pub quotient-le : (n m : ℕ) → m / n * n ≤ m
quotient-le n m = grind (arith, mod-add-div m n)

pub long_sub_none : (n : ℕ) → n < 2 ^ 32 → long_sub n 0 ≡ n
unfolding long_sub
long_sub_none n h = omega arith
