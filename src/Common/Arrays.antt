-- ===== src/Common/Arrays.antt =====
-- A C array is a function from indexes to its cells: a write changes one cell. `total` adds up a
-- measure of the first cells; two arrays with the same totals for every measure hold the same
-- values, as often.
use Prim.Native.Nat.{ℕ, zero, suc, ◌+◌, ◌≤◌, ◌<◌}
use mathlib.Core.Path.{◌≡◌, refl}
use mathlib.Core.Logic.{inl, inr, ◌≢◌}
use mathlib.Core.List.{List, [], ◌∷◌}
use native.Mathlib.Omega.{arith}
use xc.Common.Tests.{◌==◌, if◌then◌else◌, Bool-cases}

abbrev pub Array {ℓ} : Type ℓ → Type ℓ
Array A = ℕ → A

module _ {ℓ} {A : Type ℓ} where
  -- a[i] = v
  abbrev pub update : Array A → ℕ → A → Array A
  update a i v k = if k == i then v else a k

  -- The cells of an initialiser, and `d` behind them.
  abbrev pub of_list : List A → A → Array A
  of_list [] d k = d
  of_list (x ∷ xs) d zero = x
  of_list (x ∷ xs) d (suc k) = of_list xs d k

  -- The sum of a measure over a[0 .. n).
  unfoldable pub total : (A → ℕ) → ℕ → Array A → ℕ
  total f zero a = 0
  total f (suc n) a = total f n a + f (a n)

  pub total-update_ge :
      (f : A → ℕ) (n : ℕ) (a : Array A) (i : ℕ) (v : A)
      → n ≤ i
      → total f n (update a i v) ≡ total f n a
  unfolding total
  total-update_ge f zero a i v h = refl
  total-update_ge f (suc n) a i v h = ground (arith, total-update_ge f n a i v)

  -- A write inside exchanges one summand.
  pub total-update :
      (f : A → ℕ) (n : ℕ) (a : Array A) (i : ℕ) (v : A)
      → i < n
      → total f n (update a i v) + f (a i) ≡ total f n a + f v
  unfolding total
  total-update f zero a i v h = absurd (omega arith)
  total-update f (suc n) a i v h = elim (Bool-cases (n == i)) [
    | inl e ↦ ground (arith, total-update_ge f n a i v)
    | inr e ↦ ground (arith, total-update f n a i v)
  ]

  -- A sum is zero when every summand is, and has each summand below it.
  pub total_zero :
      (f : A → ℕ) (n : ℕ) (a : Array A) → ((k : ℕ) → k < n → f (a k) ≡ 0) → total f n a ≡ 0
  unfolding total
  total_zero f zero a h = refl
  total_zero f (suc n) a h =
      omega (arith, h n (omega arith), total_zero f n a (λ k p. h k (omega arith)))

  pub le-total : (f : A → ℕ) (n : ℕ) (a : Array A) (k : ℕ) → k < n → f (a k) ≤ total f n a
  unfolding total
  le-total f zero a k h = absurd (omega arith)
  le-total f (suc n) a k h = elim (Bool-cases (k == n)) [
    | inl e ↦ ground arith
    | inr e ↦ ground (arith, le-total f n a k)
  ]

  -- A longer part of an array has no smaller sum, nor has a greater measure.
  pub total-le : (f : A → ℕ) (m n : ℕ) (a : Array A) → m ≤ n → total f m a ≤ total f n a
  unfolding total
  total-le f zero zero a h = omega arith
  total-le f (suc m) zero a h = absurd (omega arith)
  total-le f m (suc n) a h = elim (Bool-cases (m == suc n)) [
    | inl q ↦ let q' : m ≡ suc n = ground arith in rw q' (omega arith)
    | inr q ↦ omega (arith, total-le f m n a (ground arith))
  ]

  -- Cells that did not change add the same.
  pub total_past :
      (f : A → ℕ) (m n : ℕ) (a b : Array A)
      → m ≤ n
      → total f m b ≡ total f m a
      → ((k : ℕ) → m ≤ k → b k ≡ a k)
      → total f n b ≡ total f n a
  unfolding total
  total_past f zero zero a b h e same = refl
  total_past f (suc m) zero a b h e same = absurd (omega arith)
  total_past f m (suc n) a b h e same = elim (Bool-cases (m == suc n)) [
    | inl q ↦ let q' : m ≡ suc n = ground arith in rw q' at e
    | inr q ↦
        let ih = total_past f m n a b (ground arith) e same in
        let last : f (b n) ≡ f (a n) = rw (same n (ground arith)) refl in omega (arith, ih, last)
  ]

  -- Cells that measure 0 add nothing.
  pub total_drop :
      (f : A → ℕ) (m n : ℕ) (a : Array A)
      → m ≤ n
      → ((k : ℕ) → m ≤ k → k < n → f (a k) ≡ 0)
      → total f m a ≡ total f n a
  unfolding total
  total_drop f zero zero a h z = refl
  total_drop f (suc m) zero a h z = absurd (omega arith)
  total_drop f m (suc n) a h z = elim (Bool-cases (m == suc n)) [
    | inl q ↦ let q' : m ≡ suc n = ground arith in rw q' refl
    | inr q ↦ omega (
      arith,
      total_drop f m n a (ground arith) (λ k p r. z k p (omega arith)),
      z n (ground arith) (omega arith),
    )
  ]

-- A sum of numbers, a[0] + ... + a[n - 1].
abbrev pub sum_to : ℕ → Array ℕ → ℕ
sum_to n a = total (λ x. x) n a

pub sum_to_ext : (n : ℕ) (a b : Array ℕ) → ((k : ℕ) → k < n → b k ≡ a k) → sum_to n b ≡ sum_to n a
unfolding total
sum_to_ext zero a b same = refl
sum_to_ext (suc n) a b same =
    omega (arith, same n (omega arith), sum_to_ext n a b (λ k p. same k (omega arith)))

-- Where two arrays agree but at `i`, so do their sums but for those two cells.
pub sum_to_one :
    (n : ℕ) (a b : Array ℕ) (i : ℕ)
    → i < n
    → ((k : ℕ) → k ≢ i → b k ≡ a k)
    → sum_to n b + a i ≡ sum_to n a + b i
unfolding total
sum_to_one zero a b i h same = absurd (omega arith)
sum_to_one (suc n) a b i h same = elim (Bool-cases (i == n)) [
  | inl e ↦
      let e' : i ≡ n = ground arith in
      rw e' (omega (arith, sum_to_ext n a b (λ k p. same k (omega arith))))
  | inr e ↦ omega (arith, sum_to_one n a b i (ground arith) same, same n (ground arith))
]
