-- ===== src/Ranges/Fuel.antt =====
-- The loop of `clean_sort_range` that moves ranges to the front ends.
use xc.Common.{
  ℕ, zero, suc, ◌+◌, ◌-◌, ◌≤◌, ◌≡◌, refl, arith, leb, true, inl, inr, Bool-cases, Array, update,
}
use xc.Ranges.{Range, vacant, find_last, compact}
use xc.Ranges.Clean.{find_last_bounds}

-- From slot `i` on, the loop has ended after `fuel` rounds when `i + fuel` is at least `k`: with more
-- fuel the result is the same.
pub compact-fuel :
    (fuel more i k : ℕ) (range : Array Range)
    → k ≤ i + fuel
    → fuel ≤ more
    → compact more i k range ≡ compact fuel i k range
unfolding compact
compact-fuel zero zero i k range h le = refl
compact-fuel zero (suc more) i k range h le =
    let stop : leb k i ≡ true = ground arith in rw (stop, compact) refl
compact-fuel (suc fuel) zero i k range h le = absurd (omega arith)
compact-fuel (suc fuel) (suc more) i k range h le = elim (Bool-cases (leb k i)) [
  | inl e ↦ rw e refl
  | inr e ↦
      let j = find_last (k - i) i range in
      let up : k - i + i ≡ k = ground arith in
      let skip = compact-fuel fuel more (suc i) k range (omega arith) (omega arith) in
      let fill =
        compact-fuel fuel more (suc i) (j - 1) (update (update range i (range j)) j vacant)
          (omega (arith, (find_last_bounds (k - i) i range).1, up)) (omega arith) in
      rw (skip, fill) refl
]
