-- ===== src/Ranges/Clean.antt =====
-- `clean_sort_range` moves the ranges in use to the front of the array and sorts them by their start.
use xc.Common.{
  ℕ, zero, suc, ◌+◌, ◌-◌, ◌^◌, ◌≤◌, ◌<◌, ◌≡◌, ◌≢◌, ◌∙◌, refl, inl, inr, ◌⊎◌, arith, ltb, leb, ◌==◌,
  if◌then◌else◌, Bool, Bool-cases, Array, update, total, total-update, total_drop, total_zero,
  le-total,
}
use xc.Sort.{sort}
use xc.Sort.Order.{IsOrder}
use xc.Sort.Sorted.{IsSorted, sort-IsSorted, total-sort}
use xc.Sort.Agree.{sort-agree}
use xc.Ranges.{Range, vacant, find_slot, cmp_range, find_last, compact, clean_sort_range}
use xc.Ranges.Covers.{find_slot-le, find_slot_vacant, find_slot_before}

-- What the search from the end finds.
pub find_last_bounds :
    (n i : ℕ) (range : Array Range) → (i ≤ find_last n i range) × (find_last n i range ≤ i + n)
unfolding find_last
find_last_bounds zero i range = omega arith
find_last_bounds (suc n) i range = ground (arith, find_last_bounds n i range)

find_last_used :
    (n i : ℕ) (range : Array Range)
    → find_last n i range ≢ i
    → (range (find_last n i range)).end ≢ 0
unfolding find_last
find_last_used zero i range h = absurd (h refl)
find_last_used (suc n) i range h = elim (Bool-cases ((range (i + suc n)).end == 0)) [
  | inl e ↦ rw e (find_last_used n i range (rw e at h))
  | inr e ↦ ground arith
]

find_last_past :
    (n i k : ℕ) (range : Array Range) → find_last n i range < k → k ≤ i + n → (range k).end ≡ 0
unfolding find_last
find_last_past zero i k range p q = absurd (omega arith)
find_last_past (suc n) i k range p q = elim (Bool-cases (k == i + suc n)) [
  | inl e ↦ ground arith
  | inr e ↦ ground (arith, find_last_past n i k range)
]

module _ (az : ℕ) where
  -- The slots in use come first.
  abbrev IsPacked : Array Range → Type 0
  IsPacked range = (x y : ℕ) → x ≤ y → y < az → (range x).end ≡ 0 → (range y).end ≡ 0

  -- The slots before `i` are in use, those behind `k` vacant.
  abbrev IsBetween : ℕ → ℕ → Array Range → Type 0
  IsBetween i k range =
      ((m : ℕ) → m < i → (range m).end ≢ 0) × ((m : ℕ) → k < m → m < az → (range m).end ≡ 0)

  -- The loop is over: every slot in use lies before every vacant one.
  exit-IsPacked : (i k : ℕ) (range : Array Range) → k ≤ i → IsBetween i k range → IsPacked range
  exit-IsPacked i k range h (low, high) x y p q e = elim (Bool-cases (x == y)) [
    | inl same ↦ let same' : x ≡ y = ground arith in rw same' at e
    | inr more ↦ ground (arith, low x, high y)
  ]

  -- The search found no slot in use behind the vacant slot `i`.
  break-IsPacked :
      (i k : ℕ) (range : Array Range)
      → i < k
      → find_last (k - i) i range ≡ i
      → (range i).end ≡ 0
      → IsBetween i k range
      → IsPacked range
  break-IsPacked i k range h last v (low, high) =
      exit-IsPacked i i range (omega arith)
        (low, λ m p q. ground (arith, find_last_past (k - i) i m range, high m))

  fill-IsBetween :
      (i k : ℕ) (range : Array Range)
      → i < k
      → find_last (k - i) i range ≢ i
      → IsBetween i k range
      → let j = find_last (k - i) i range in
        IsBetween (suc i) (j - 1) (update (update range i (range j)) j vacant)
  fill-IsBetween i k range h more (low, high) =
      let bounds = find_last_bounds (k - i) i range in
      (
        λ m p. ground (arith, low m, find_last_used (k - i) i range more),
        λ m p q. ground (arith, find_last_past (k - i) i m range, high m),
      )

  compact-IsPacked :
      (fuel i k : ℕ) (range : Array Range)
      → k ≤ i + fuel
      → IsBetween i k range
      → IsPacked (compact fuel i k range)
  unfolding compact
  compact-IsPacked zero i k range f between = exit-IsPacked i k range (omega arith) between
  compact-IsPacked (suc fuel) i k range f between = elim (Bool-cases (leb k i)) [
    | inl e ↦ rw e (exit-IsPacked i k range (ground arith) between)
    | inr e ↦
        let more : i < k = ground arith in
        let j = find_last (k - i) i range in
        elim (Bool-cases ((range i).end == 0)) [
          | inl v ↦ elim (Bool-cases (j == i)) [
            | inl stop ↦
                rw (e, v, stop)
                  (break-IsPacked i k range more (ground arith) (ground arith) between)
            | inr go ↦
                rw (e, v, go)
                  (compact-IsPacked fuel (suc i) (j - 1) _
                    (omega (arith, find_last_bounds (k - i) i range))
                    (fill-IsBetween i k range more (ground arith) between))
          ]
          | inr used ↦
              rw (e, used)
                (compact-IsPacked fuel (suc i) k range (omega arith)
                  (λ m p. ground (arith, between.0 m), between.1))
        ]
  ]

  total-compact :
      (f : Range → ℕ)
      → ((r : Range) → r.end ≡ 0 → f r ≡ 0)
      → (fuel i k : ℕ) (range : Array Range) → k < az ⊎ (k ≤ i)
      → total f az (compact fuel i k range) ≡ total f az range
  unfolding compact
  total-compact f z zero i k range b = refl
  total-compact f z (suc fuel) i k range b = ground (
    arith,
    find_last_bounds (k - i) i range,
    total-compact f z fuel (suc i) k range,
    total-compact f z fuel (suc i) (find_last (k - i) i range - 1) (
        update (update range i (range (find_last (k - i) i range))) (find_last (k - i) i range)
          vacant),
    total-update f az range i (range (find_last (k - i) i range)),
    total-update f az (update range i (range (find_last (k - i) i range)))
        (find_last (k - i) i range) vacant,
    z (range i),
    z vacant,
  )

abbrev pub less_start : Range → Range → Bool
less_start r1 r2 = ltb r1.start r2.start

less_start-IsOrder : IsOrder less_start
less_start-IsOrder = record { asym = λ x y h. ground arith; trans = λ x y z p q. ground arith }

-- The truncation to `int` does not matter between starts below 2 ^ 31.
cmp_range-less_start :
    (r1 r2 : Range) → r1.start < 2 ^ 31 → r2.start < 2 ^ 31 → cmp_range r1 r2 ≡ less_start r1 r2
unfolding cmp_range
cmp_range-less_start r1 r2 p q = ground arith

module _ (range : Array Range) (az : ℕ) where
  abbrev packed : Array Range
  packed = compact az 0 (az - 1) range

  packed-IsPacked : IsPacked az packed
  packed-IsPacked =
      compact-IsPacked az az 0 (az - 1) range (omega arith)
        (λ m p. absurd (omega arith), λ m p q. absurd (omega arith))

  packed_past : (k : ℕ) → find_slot az 0 packed ≤ k → k < az → (packed k).end ≡ 0
  packed_past k p q =
      packed-IsPacked (find_slot az 0 packed) k p q (find_slot_vacant az 0 packed (omega arith))

  -- Nothing is lost, made up or merged: for every measure that a vacant slot does not add to, the
  -- ranges reported have the same total as the array had.
  pub total-clean_sort_range :
      (f : Range → ℕ)
      → ((r : Range) → r.end ≡ 0 → f r ≡ 0)
      → let (nr_range, range') = clean_sort_range range az in
        total f nr_range range' ≡ total f az range
  unfolding clean_sort_range
  total-clean_sort_range f z =
      total-sort cmp_range f packed (find_slot az 0 packed)
      ∙ total_drop f (find_slot az 0 packed) az packed (omega (arith, find_slot-le az 0 packed))
          (λ k p q. z (packed k) (packed_past k p q))
      ∙ total-compact az f z az 0 (az - 1) range (omega arith)

abbrev is_far : Range → ℕ
is_far r = if r.end == 0 then 0 else (if leb (2 ^ 31) r.start then 1 else 0)

abbrev is_unused : Range → ℕ
is_unused r = if r.end == 0 then 1 else 0

module _ (range : Array Range) (az : ℕ) (near : (k : ℕ) → k < az → (range k).start < 2 ^ 31) where
  packed_near : (k : ℕ) → k < find_slot az 0 (packed range az) → (packed range az k).start < 2 ^ 31
  packed_near k h = ground (
    arith,
    find_slot_before az 0 k (packed range az) (omega arith) h,
    find_slot-le az 0 (packed range az),
    le-total is_far az (packed range az) k,
    total-compact az is_far (λ r e. ground arith) az 0 (az - 1) range (omega arith),
    total_zero is_far az range (λ m p. ground (arith, near m p)),
  )

  -- Where all starts lie below 2 ^ 31, the ranges reported are in ascending order of their starts,
  -- all of them are in use, and there are at most `az` of them.
  pub clean_sort_range-IsSorted :
      let (nr_range, range') = clean_sort_range range az in
      IsSorted less_start range' nr_range
      × ((k : ℕ) → k < nr_range → (range' k).end ≢ 0)
      × (nr_range ≤ az)
  unfolding clean_sort_range
  clean_sort_range-IsSorted =
      let p = packed range az in
      let nr = find_slot az 0 p in
      let same =
        sort-agree (λ r. r.start < 2 ^ 31) cmp_range less_start cmp_range-less_start p nr
          packed_near in
      let none_unused =
        total_zero is_unused nr p
          (λ k q. ground (arith, find_slot_before az 0 k p (omega arith) q)) in
      (
        rw same (sort-IsSorted less_start less_start-IsOrder p nr),
        λ k q. ground (
          arith,
          le-total is_unused nr (sort cmp_range p nr) k q,
          total-sort cmp_range is_unused p nr,
          none_unused,
        ),
        omega (arith, find_slot-le az 0 p),
      )
