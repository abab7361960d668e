-- ===== src/Ranges/Covers.antt =====
-- What an array of ranges covers: how many of its ranges hold a page, how many slots are vacant, and
-- how many ranges a subtraction has to cut in two.
use xc.Common.{
  ℕ, zero, suc, ◌+◌, ◌≤◌, ◌<◌, ◌≡◌, ◌≢◌, inl, inr, ◌&&◌, arith, ltb, leb, ◌==◌, if◌then◌else◌,
  Bool-cases, Array, total, total_zero,
}
use xc.Ranges.{Range, find_slot}

abbrev pub hit : ℕ → Range → ℕ
hit p r = if leb r.start p && ltb p r.end then 1 else 0

-- How many of the first `az` ranges hold the page `p`.
abbrev pub covers : ℕ → Array Range → ℕ → ℕ
covers az range p = total (hit p) az range

abbrev pub is_vacant : Range → ℕ
is_vacant r = if r.end == 0 then 1 else 0

abbrev pub vacancies : ℕ → Array Range → ℕ
vacancies az range = total is_vacant az range

abbrev pub is_cut : ℕ → ℕ → Range → ℕ
is_cut start end r = if ltb r.start start && ltb end r.end then 1 else 0

-- How many ranges reach past [start, end) on both sides.
abbrev pub cuts : ℕ → ℕ → ℕ → Array Range → ℕ
cuts az start end range = total (is_cut start end) az range

pub find_slot-le : (n i : ℕ) (range : Array Range) → find_slot n i range ≤ i + n
unfolding find_slot
find_slot-le zero i range = omega arith
find_slot-le (suc n) i range = ground (arith, find_slot-le n (suc i) range)

-- A slot that the scan reports is vacant.
pub find_slot_vacant :
    (n i : ℕ) (range : Array Range)
    → find_slot n i range < i + n
    → (range (find_slot n i range)).end ≡ 0
unfolding find_slot
find_slot_vacant zero i range h = absurd (omega arith)
find_slot_vacant (suc n) i range h = elim (Bool-cases ((range i).end == 0)) [
  | inl e ↦ ground (arith)
  | inr e ↦ ground (arith, find_slot_vacant n (suc i) range)
]

-- Every slot before the one that the scan reports is in use.
pub find_slot_before :
    (n i k : ℕ) (range : Array Range) → i ≤ k → k < find_slot n i range → (range k).end ≢ 0
unfolding find_slot
find_slot_before zero i k range p q = absurd (omega arith)
find_slot_before (suc n) i k range p q = elim (Bool-cases (k == i)) [
  | inl e ↦ ground arith
  | inr e ↦ ground (arith, find_slot_before n (suc i) k range)
]

-- The scan finds a slot when there is one.
pub find_slot_total :
    (az : ℕ) (range : Array Range) → 0 < vacancies az range → find_slot az 0 range < az
find_slot_total az range h = elim (Bool-cases (find_slot az 0 range == az)) [
  | inl e ↦
      let none_left : vacancies az range ≡ 0 =
        total_zero is_vacant az range
          (λ k q. ground (arith, find_slot_before az 0 k range (omega arith))) in
      absurd (omega arith)
  | inr e ↦ ground (arith, find_slot-le az 0 range)
]
