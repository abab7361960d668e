-- ===== src/ZoneSize/WaitTable.antt =====
-- The size of the table of wait queues of a zone.
use Prim.Native.Nat.{min, max}
use native.Mathlib.Nat.{pow-suc}
use xc.Common.{
  ℕ, zero, suc, ◌+◌, ◌*◌, ◌/◌, ◌^◌, ◌≤◌, ◌<◌, ◌≡◌, refl, sym, inl, inr, arith, Bool-cases, ltb,
}
use xc.Common.Bits.{pow_pos, pow_split}
use xc.ZoneSize.{double_size, pages_per_waitqueue, wait_table_hash_nr_entries}

-- The loop stops at the first power of two that is not less than `pages`.
abbrev IsLeastPower : ℕ → ℕ → Type 0
IsLeastPower pages k = (pages ≤ 2 ^ k) × ((j : ℕ) → j < k → 2 ^ j < pages)

double_size-IsLeastPower :
    (fuel k pages : ℕ)
    → pages ≤ 2 ^ (k + fuel)
    → ((j : ℕ) → j < k → 2 ^ j < pages)
    → (r : ℕ) × ((double_size fuel (2 ^ k) pages ≡ 2 ^ r) × IsLeastPower pages r)
unfolding double_size
double_size-IsLeastPower zero k pages h below =
    (k, (refl, (let e : k + 0 ≡ k = omega arith in rw e at h, below)))
double_size-IsLeastPower (suc fuel) k pages h below = elim (Bool-cases (ltb (2 ^ k) pages)) [
  | inr e ↦ (k, (rw e refl, (ground (arith, e), below)))
  | inl e ↦
      let up : k + suc fuel ≡ suc k + fuel = omega arith in
      let double : 2 ^ k * 2 ≡ 2 ^ suc k = sym (pow-suc 2 k) in
      let (r, (found, least)) = double_size-IsLeastPower fuel (suc k) pages (rw up at h) (λ j p.
        elim (Bool-cases (ltb j k)) [
          | inl q ↦ below j (ground (arith, q))
          | inr q ↦ let e' : j ≡ k = ground (arith, q) in rw e' (ground (arith, e))
        ]) in
      (r, (rw (e, double) found, least))
]

-- What the two bounds make of a power of two.
abbrev pub IsTableSize : ℕ → ℕ → Type 0
IsTableSize waits size =
    (r : ℕ) × ((size ≡ 2 ^ r)
      × (4 ≤ size)
      × (size ≤ 4096)
      × (4 < size → size / 2 < waits)
      × (size < 4096 → waits ≤ size))

clamp-IsTableSize :
    (waits d r : ℕ) → d ≡ 2 ^ r → IsLeastPower waits r → IsTableSize waits (max (min d 4096) 4)
clamp-IsTableSize waits d zero e least = (
  2,
  (
    ground (arith, e, least.0),
    ground (arith, e, least.0),
    ground (arith, e, least.0),
    λ p. ground (arith, e, least.0),
    λ p. ground (arith, e, least.0),
  ),
)
clamp-IsTableSize waits d (suc zero) e least = (
  2,
  (
    ground (arith, e, least.0),
    ground (arith, e, least.0),
    ground (arith, e, least.0),
    λ p. ground (arith, e, least.0),
    λ p. ground (arith, e, least.0),
  ),
)
clamp-IsTableSize waits d (suc (suc zero)) e least = (
  2,
  (
    ground (arith, e, least.0),
    ground (arith, e, least.0),
    ground (arith, e, least.0),
    λ p. ground (arith, e, least.0),
    λ p. ground (arith, e, least.0),
  ),
)
clamp-IsTableSize waits d (suc (suc (suc zero))) e least = (
  3,
  (
    ground (arith, e, least.0),
    ground (arith, e, least.0),
    ground (arith, e, least.0),
    λ p. ground (arith, e, least.0, least.1 2 (omega arith)),
    λ p. ground (arith, e, least.0),
  ),
)
clamp-IsTableSize waits d (suc (suc (suc (suc zero)))) e least = (
  4,
  (
    ground (arith, e, least.0),
    ground (arith, e, least.0),
    ground (arith, e, least.0),
    λ p. ground (arith, e, least.0, least.1 3 (omega arith)),
    λ p. ground (arith, e, least.0),
  ),
)
clamp-IsTableSize waits d (suc (suc (suc (suc (suc zero))))) e least = (
  5,
  (
    ground (arith, e, least.0),
    ground (arith, e, least.0),
    ground (arith, e, least.0),
    λ p. ground (arith, e, least.0, least.1 4 (omega arith)),
    λ p. ground (arith, e, least.0),
  ),
)
clamp-IsTableSize waits d (suc (suc (suc (suc (suc (suc zero)))))) e least = (
  6,
  (
    ground (arith, e, least.0),
    ground (arith, e, least.0),
    ground (arith, e, least.0),
    λ p. ground (arith, e, least.0, least.1 5 (omega arith)),
    λ p. ground (arith, e, least.0),
  ),
)
clamp-IsTableSize waits d (suc (suc (suc (suc (suc (suc (suc zero))))))) e least = (
  7,
  (
    ground (arith, e, least.0),
    ground (arith, e, least.0),
    ground (arith, e, least.0),
    λ p. ground (arith, e, least.0, least.1 6 (omega arith)),
    λ p. ground (arith, e, least.0),
  ),
)
clamp-IsTableSize waits d (suc (suc (suc (suc (suc (suc (suc (suc zero)))))))) e least = (
  8,
  (
    ground (arith, e, least.0),
    ground (arith, e, least.0),
    ground (arith, e, least.0),
    λ p. ground (arith, e, least.0, least.1 7 (omega arith)),
    λ p. ground (arith, e, least.0),
  ),
)
clamp-IsTableSize waits d (suc (suc (suc (suc (suc (suc (suc (suc (suc zero))))))))) e least = (
  9,
  (
    ground (arith, e, least.0),
    ground (arith, e, least.0),
    ground (arith, e, least.0),
    λ p. ground (arith, e, least.0, least.1 8 (omega arith)),
    λ p. ground (arith, e, least.0),
  ),
)
clamp-IsTableSize waits d (suc (suc (suc (suc (suc (suc (suc (suc (suc (suc zero)))))))))) e least =
    (
      10,
      (
        ground (arith, e, least.0),
        ground (arith, e, least.0),
        ground (arith, e, least.0),
        λ p. ground (arith, e, least.0, least.1 9 (omega arith)),
        λ p. ground (arith, e, least.0),
      ),
    )
clamp-IsTableSize waits d (suc (suc (suc (suc (suc (suc (suc (suc (suc (suc (suc zero))))))))))) e
      least =
    (
      11,
      (
        ground (arith, e, least.0),
        ground (arith, e, least.0),
        ground (arith, e, least.0),
        λ p. ground (arith, e, least.0, least.1 10 (omega arith)),
        λ p. ground (arith, e, least.0),
      ),
    )
clamp-IsTableSize waits d
      (suc (suc (suc (suc (suc (suc (suc (suc (suc (suc (suc (suc zero)))))))))))) e least =
    (
      12,
      (
        ground (arith, e, least.0),
        ground (arith, e, least.0),
        ground (arith, e, least.0),
        λ p. ground (arith, e, least.0, least.1 11 (omega arith)),
        λ p. ground (arith, e, least.0),
      ),
    )
clamp-IsTableSize waits d
      (suc (suc (suc (suc (suc (suc (suc (suc (suc (suc (suc (suc (suc r))))))))))))) e least =
    let large = pow_split 13 r in
    let half = least.1 11 (omega arith) in
    (
      12,
      (
        omega (arith, e, large, pow_pos r),
        omega arith,
        omega arith,
        λ p. omega (arith, half),
        λ p. absurd (omega (arith, p, e, large, pow_pos r)),
      ),
    )

-- For a number of pages below 2 ^ 32, the table has a power of two of entries, at least 4 and at most
-- 4096; and within these bounds, it is the least one for 256 pages an entry.
pub wait_table_hash_nr_entries-bounds :
    (pages : ℕ)
    → pages < 2 ^ 32
    → IsTableSize (pages / pages_per_waitqueue) (wait_table_hash_nr_entries pages)
unfolding wait_table_hash_nr_entries
wait_table_hash_nr_entries-bounds pages h =
    let waits = pages / pages_per_waitqueue in
    let (r, (found, least)) =
      double_size-IsLeastPower 32 0 waits (omega (arith, h)) (λ j p. absurd (omega (arith, p))) in
    clamp-IsTableSize waits (double_size 32 1 waits) r found least
