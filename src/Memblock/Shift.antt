-- ===== src/Memblock/Shift.antt =====
-- Removing and inserting a cell of an array, in closed form: the loops that move regions compute these.
use xc.Common.{
  ℕ, zero, suc, ◌+◌, ◌-◌, ◌≤◌, ◌<◌, ◌≡◌, refl, inl, inr, arith, ◌&&◌, ltb, leb, ◌==◌, if◌then◌else◌,
  Bool-cases, Array, update, total,
}
use xc.Memblock.{Region, shift_down, insert_loop}

-- The array without its cell `r`.
abbrev pub without {ℓ} : {A : Type ℓ} → Array A → ℕ → Array A
without a r k = if ltb k r then a k else a (k + 1)

-- The array with a cell put in at `q`.
abbrev pub with_cell {ℓ} : {A : Type ℓ} → Array A → ℕ → A → Array A
with_cell a q v k = if ltb k q then a k else if k == q then v else a (k - 1)

module _ {ℓ} {A : Type ℓ} where
  pub total_ext :
      (f : A → ℕ) (n : ℕ) (a b : Array A)
      → ((k : ℕ) → k < n → a k ≡ b k)
      → total f n a ≡ total f n b
  unfolding total
  total_ext f zero a b h = refl
  total_ext f (suc n) a b h =
      rw (h n (omega arith)) (omega (arith, total_ext f n a b (λ k p. h k (omega arith))))

  pub total-without :
      (f : A → ℕ) (n r : ℕ) (a : Array A)
      → r ≤ n
      → total f n (without a r) + f (a r) ≡ total f (suc n) a
  unfolding total
  total-without f zero r a h = let e : r ≡ 0 = omega arith in rw e (omega arith)
  total-without f (suc n) r a h = elim (Bool-cases (r == suc n)) [
    | inl e ↦
        let same = total_ext f (suc n) (without a r) a (λ k p. ground arith) in ground (arith, same)
    | inr e ↦ ground (arith, total-without f n r a)
  ]

  pub total-with_cell :
      (f : A → ℕ) (n q : ℕ) (a : Array A) (v : A)
      → q ≤ n
      → total f (suc n) (with_cell a q v) ≡ total f n a + f v
  unfolding total
  total-with_cell f zero q a v h = let e : q ≡ 0 = omega arith in rw e (omega arith)
  total-with_cell f (suc n) q a v h = elim (Bool-cases (q == suc n)) [
    | inl e ↦
        let same = total_ext f (suc n) (with_cell a q v) a (λ k p. ground arith) in
        ground (arith, same)
    | inr e ↦ ground (arith, total-with_cell f n q a v)
  ]

pub shift_down_cell :
    (n i : ℕ) (a : Array Region) (k : ℕ)
    → shift_down n i a k ≡ (if leb i k && ltb k (i + n) then a (k + 1) else a k)
unfolding shift_down
shift_down_cell zero i a k = ground arith
shift_down_cell (suc n) i a k = ground (arith, shift_down_cell n (suc i) (update a i (a (i + 1))) k)

-- `insert_loop` leaves the cells behind alone.
insert_loop_past :
    (n : ℕ) (rgn : Region) (a : Array Region) (k : ℕ) → n < k → insert_loop n rgn a k ≡ a k
unfolding insert_loop
insert_loop_past zero rgn a k h = refl
insert_loop_past (suc i) rgn a k h =
    ground (arith, insert_loop_past i rgn (update a (i + 1) (a i)) k)

-- Over an array that `q` splits by base, the loop and the write at index 0 put the region in at `q`.
pub insert_loop_cell :
    (n q : ℕ) (rgn : Region) (a : Array Region)
    → q ≤ n
    → ((k : ℕ) → k < q → (a k).base ≤ rgn.base)
    → ((k : ℕ) → q ≤ k → k < n → rgn.base < (a k).base)
    → (k : ℕ) → k ≤ n
    → 0 < k
    → insert_loop n rgn a k ≡ with_cell a q rgn k
unfolding insert_loop
insert_loop_cell zero q rgn a h below above k p pos = absurd (omega arith)
insert_loop_cell (suc i) q rgn a h below above k p pos =
    elim (Bool-cases (ltb rgn.base (a i).base)) [
      | inl up ↦
          let b = update a (i + 1) (a i) in
          let more : q ≤ i = ground (arith, below i) in
          rw up (elim (Bool-cases (k == suc i)) [
            | inl e ↦ ground (arith, insert_loop_past i rgn b k)
            | inr e ↦ ground (
              arith,
              insert_loop_cell i q rgn b more (λ m r. ground (arith, below m))
                  (λ m r s. ground (arith, above m)) k,
            )
          ])
      | inr stop ↦ let all : q ≡ suc i = ground (arith, above i) in rw (stop, all) (ground arith)
    ]

pub insert_loop_first : (n : ℕ) (rgn : Region) (a : Array Region) → insert_loop n rgn a 0 ≡ a 0
unfolding insert_loop
insert_loop_first zero rgn a = refl
insert_loop_first (suc i) rgn a = ground (arith, insert_loop_first i rgn (update a (i + 1) (a i)))
