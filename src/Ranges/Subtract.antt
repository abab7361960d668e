-- ===== src/Ranges/Subtract.antt =====
-- `subtract_range` removes exactly the pages of [start, end).
use xc.Common.{
  ℕ, zero, suc, ◌+◌, ◌≤◌, ◌<◌, ◌≡◌, ◌≢◌, ◌⊎◌, ◌∙◌, leb-false, refl, inl, inr, arith, leb, ◌==◌,
  false, Bool-cases, lt→ltb, ==_iff, Array, update, total, total-update, total_zero, le-total,
}
use xc.Ranges.{Range, vacant, find_slot, split_slot, subtract_slot, subtract_loop, subtract_range}
use xc.Ranges.Covers.{
  hit, covers, is_vacant, vacancies, is_cut, cuts, find_slot_vacant, find_slot_total,
}

module _ (az start end : ℕ) where
  abbrev below : Range → Range
  below r = record { start = r.start; end = start }

  abbrev above : Range → Range
  above r = record { start = end; end = r.end }

  -- The free slot is another slot than the one that is cut.
  free_slot_ne :
      (range : Array Range) (j : ℕ)
      → (range j).end ≢ 0
      → find_slot az 0 range < az
      → (j == find_slot az 0 range) ≡ false
  free_slot_ne range j h free = elim (Bool-cases (j == find_slot az 0 range)) [
    | inl e ↦
        let same : j ≡ find_slot az 0 range = (==_iff _ _).0 e in
        absurd (h (rw same (find_slot_vacant az 0 range (omega arith))))
    | inr e ↦ e
  ]

  -- A cut exchanges a range and a free slot for the two parts.
  total-split_slot :
      (f : Range → ℕ) (range : Array Range) (j : ℕ)
      → (range j).end ≢ 0
      → find_slot az 0 range < az
      → j < az
      → total f az (split_slot az start end range j)
          + f (range j)
          + f (range (find_slot az 0 range))
        ≡ total f az range + f (below (range j)) + f (above (range j))
  unfolding split_slot
  total-split_slot f range j h free inside =
      let i = find_slot az 0 range in
      rw (lt→ltb _ _ free, free_slot_ne range j h free)
        (omega (
          arith,
          total-update f az range i (above (range j)) free,
          total-update f az (update range i (above (range j))) j (below (range j)) inside,
          rw (free_slot_ne range j h free) at
              (total-update f az (update range i (above (range j))) j (below (range j)) inside),
        ))

  -- There is a free slot for each range that the loop may still have to cut.
  abbrev HasRoom : Array Range → Type 0
  HasRoom range = cuts az start end range ≤ vacancies az range

  module _ (order : start < end) (range : Array Range) (j : ℕ) (inside : j < az)
      (room : HasRoom range) where
    free_slot : is_cut start end (range j) ≡ 1 → find_slot az 0 range < az
    free_slot cut =
        find_slot_total az range (omega (arith, le-total (is_cut start end) az range j inside))

    subtract_slot_outside :
        (p : ℕ)
        → (p < start) ⊎ (end ≤ p)
        → covers az (subtract_slot az start end range j) p ≡ covers az range p
    unfolding subtract_slot
    subtract_slot_outside p out = ground (
      arith,
      free_slot,
      total-split_slot (hit p) range j,
      find_slot_vacant az 0 range,
      total-update (hit p) az range j vacant inside,
      total-update (hit p) az range j (above (range j)) inside,
      total-update (hit p) az range j (below (range j)) inside,
    )

    -- A vacant slot is used up by a cut alone.
    subtract_slot_use :
        vacancies az range + cuts az start end (subtract_slot az start end range j)
        ≤ vacancies az (subtract_slot az start end range j) + cuts az start end range
    unfolding subtract_slot
    subtract_slot_use = ground (
      arith,
      free_slot,
      total-split_slot is_vacant range j,
      total-split_slot (is_cut start end) range j,
      find_slot_vacant az 0 range,
      total-update is_vacant az range j vacant inside,
      total-update is_vacant az range j (above (range j)) inside,
      total-update is_vacant az range j (below (range j)) inside,
      total-update (is_cut start end) az range j vacant inside,
      total-update (is_cut start end) az range j (above (range j)) inside,
      total-update (is_cut start end) az range j (below (range j)) inside,
    )

    subtract_slot-HasRoom : HasRoom (subtract_slot az start end range j)
    subtract_slot-HasRoom = omega (arith, subtract_slot_use, room)

  -- No slot before `j` holds the page `p`.
  abbrev Cleared : ℕ → ℕ → Array Range → Type 0
  Cleared p j range = (k : ℕ) → k < j → hit p (range k) ≡ 0

  subtract_slot-Cleared :
      (range : Array Range) (p j : ℕ)
      → start ≤ p
      → p < end
      → Cleared p j range
      → Cleared p (suc j) (subtract_slot az start end range j)
  unfolding subtract_slot split_slot
  subtract_slot-Cleared range p j low high clear k h = ground (arith, clear k)

  subtract_loop_outside :
      (order : start < end) (n j : ℕ) (range : Array Range)
      → j + n ≡ az
      → HasRoom range
      → (p : ℕ) → (p < start) ⊎ (end ≤ p)
      → covers az (subtract_loop n j az start end range) p ≡ covers az range p
  unfolding subtract_loop
  subtract_loop_outside order zero j range e room p out = refl
  subtract_loop_outside order (suc n) j range e room p out =
      subtract_loop_outside order n (suc j) (subtract_slot az start end range j) (omega arith)
        (subtract_slot-HasRoom order range j (omega arith) room) p out
      ∙ subtract_slot_outside order range j (omega arith) room p out

  subtract_loop_use :
      (order : start < end) (n j : ℕ) (range : Array Range)
      → j + n ≡ az
      → HasRoom range
      → vacancies az range
        ≤ vacancies az (subtract_loop n j az start end range) + cuts az start end range
  unfolding subtract_loop
  subtract_loop_use order zero j range e room = omega arith
  subtract_loop_use order (suc n) j range e room = omega (
    arith,
    subtract_slot_use order range j (omega arith) room,
    subtract_loop_use order n (suc j) (subtract_slot az start end range j) (omega arith)
        (subtract_slot-HasRoom order range j (omega arith) room),
  )

  subtract_loop-Cleared :
      (n j : ℕ) (range : Array Range) (p : ℕ)
      → j + n ≡ az
      → start ≤ p
      → p < end
      → Cleared p j range
      → Cleared p az (subtract_loop n j az start end range)
  unfolding subtract_loop
  subtract_loop-Cleared zero j range p e low high clear k h = clear k (omega arith)
  subtract_loop-Cleared (suc n) j range p e low high clear k h =
      subtract_loop-Cleared n (suc j) (subtract_slot az start end range j) p (omega arith) low high
        (subtract_slot-Cleared range p j low high clear) k h

-- No page of [start, end) is left in any range, whatever the array held and however full it was.
pub subtract_range_inside :
    (range : Array Range) (az start end p : ℕ)
    → start ≤ p
    → p < end
    → covers az (subtract_range range az start end) p ≡ 0
unfolding subtract_range
subtract_range_inside range az start end p low high = rw (leb-false end start (omega arith)) (
    total_zero (hit p) az _ (
      subtract_loop-Cleared az start end az 0 range p (omega arith) low high
        (λ k h. absurd (omega arith))))

-- A page outside of [start, end) stays in as many ranges as it was in, when the array has a vacant
-- slot for each range that reaches past [start, end) on both sides.
pub subtract_range_outside :
    (range : Array Range) (az start end p : ℕ)
    → cuts az start end range ≤ vacancies az range
    → (p < start) ⊎ (end ≤ p)
    → covers az (subtract_range range az start end) p ≡ covers az range p
unfolding subtract_range
subtract_range_outside range az start end p room out = elim (Bool-cases (leb end start)) [
  | inl e ↦ rw e refl
  | inr e ↦
      rw e (subtract_loop_outside az start end (ground arith) az 0 range (omega arith) room p out)
]

-- A subtraction uses no more vacant slots than it cuts ranges.
pub subtract_range_use :
    (range : Array Range) (az start end : ℕ)
    → cuts az start end range ≤ vacancies az range
    → vacancies az range
      ≤ vacancies az (subtract_range range az start end) + cuts az start end range
unfolding subtract_range
subtract_range_use range az start end room = elim (Bool-cases (leb end start)) [
  | inl e ↦ rw e (omega arith)
  | inr e ↦ rw e (subtract_loop_use az start end (ground arith) az 0 range (omega arith) room)
]

-- Every range that is cut holds the page `start`, and the page `end`.
pub cuts-le-covers :
    (az start end : ℕ) (range : Array Range)
    → start < end
    → (cuts az start end range ≤ covers az range start)
      × (cuts az start end range ≤ covers az range end)
unfolding total
cuts-le-covers zero start end range order = omega arith
cuts-le-covers (suc az) start end range order =
    ground (arith, cuts-le-covers az start end range order)
