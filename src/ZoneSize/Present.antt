-- ===== src/ZoneSize/Present.antt =====
-- A zone has as many pages as the entries of its node hold in its range.
use Prim.Native.Nat.{min, max}
use xc.Common.{
  ℕ, zero, suc, ◌+◌, ◌-◌, ◌≤◌, ◌<◌, ◌≡◌, ◌⊎◌, ◌∙◌, inl, inr, arith, Bool-cases, ltb, leb, ◌&&◌,
  ◌==◌, Array, total, total_zero, le-total, if◌then◌else◌, long_mod, long_sub, long_sub_exact,
}
use xc.Sort.Order.{IsOrder}
use xc.Sort.{sort}
use xc.Sort.Sorted.{sort-IsSorted, total-sort}
use xc.NodeMap.{ActiveRegion, NodeMap, get_pfn_range_for_nid}
use xc.ZoneSize.{
  Limits, zone_movable, adjust_zone_range, zone_spanned_pages_in_node, zone_range_in_node,
  zone_absent_pages_in_node, starts_before, sort_node_map,
}
use xc.ZoneSize.Absent.{present_in, IsAscending, absent-present}

-- The size that is reported of a range, once it is adjusted, and the node.
abbrev clipped : ℕ × ℕ → ℕ × ℕ → ℕ
clipped node zone =
    if ltb zone.1 node.0
    then 0
    else if ltb node.1 zone.0
    then 0
    else long_sub (min zone.1 node.1) (max zone.0 node.0)

module _ (limits : Limits) (nid zone_type : ℕ) (start end low high : ℕ) (h : low ≤ high)
    (k : end < long_mod) where
  -- Cutting the range to the node before it is adjusted gives the same size as cutting it afterwards.
  abbrev SameSize : ℕ × ℕ → ℕ × ℕ → Type 0
  SameSize cut whole =
      start ≤ cut.0 → cut.0 ≤ cut.1 → cut.1 ≤ end → clipped (start, end) whole ≡ cut.1 - cut.0

  adjust-SameSize :
      SameSize
        (adjust_zone_range limits nid zone_type end (max low start, min high end))
        (adjust_zone_range limits nid zone_type end (low, high))
  unfolding adjust_zone_range long_sub
  adjust-SameSize = elim (Bool-cases (limits.movable_pfn nid == 0)) [
    | inl e ↦ rw e (λ p q r. ground (arith, h, k))
    | inr e ↦ elim (Bool-cases (zone_type == zone_movable)) [
      | inl f ↦ rw (e, f) (λ p q r. ground (arith, k))
      | inr f ↦ rw (e, f) (λ p q r. ground (arith, h, k))
    ]
  ]

-- On a node whose entries ascend and do not overlap, below 2 ^ 32: where the range of a zone, cut to the
-- node and adjusted, lies in the node, the pages that the zone spans less those that are absent from it
-- are the pages that the node's entries hold in that range.
pub zone_spanned-absent :
    (m : NodeMap) (limits : Limits) (nid zone_type : ℕ)
    → let node = get_pfn_range_for_nid m nid in
      let zone = zone_range_in_node m limits nid zone_type in
      IsAscending m nid
      → limits.lowest zone_type ≤ limits.highest zone_type
      → node.0 ≤ zone.0
      → zone.0 ≤ zone.1
      → zone.1 ≤ node.1
      → node.1 < long_mod
      → long_sub
          (zone_spanned_pages_in_node m limits nid zone_type)
          (zone_absent_pages_in_node m limits nid zone_type)
        ≡ present_in m nid zone.0 zone.1
unfolding zone_spanned_pages_in_node zone_absent_pages_in_node zone_range_in_node
zone_spanned-absent m limits nid zone_type v h p q r k =
    let node = get_pfn_range_for_nid m nid in
    let zone = zone_range_in_node m limits nid zone_type in
    let spanned =
      adjust-SameSize limits nid zone_type node.0 node.1 (limits.lowest zone_type)
        (limits.highest zone_type) h k p q r in
    let parts = absent-present m nid zone.0 zone.1 v q (omega (arith, r, k)) in
    rw spanned (
      long_sub_exact (zone.1 - zone.0) _ (omega (arith, r, k)) (omega (arith, parts))
      ∙ omega (arith, parts))

starts_before-IsOrder : IsOrder starts_before
unfolding starts_before
starts_before-IsOrder = record {
  asym = λ x y e. ground (arith, e);
  trans = λ x y z e f. ground (arith, e, f);
}

-- Two entries share no page, and none is empty.
pub record IsDisjoint (m : NodeMap) : Type 0 where
  pub apart :
      (i j : ℕ)
      → i < j
      → j < m.nr
      → ((m.entries i).end_pfn ≤ (m.entries j).start_pfn)
        ⊎ ((m.entries j).end_pfn ≤ (m.entries i).start_pfn)
  pub filled : (i : ℕ) → i < m.nr → (m.entries i).start_pfn < (m.entries i).end_pfn
  pub bounded : (i : ℕ) → i < m.nr → (m.entries i).end_pfn < long_mod

-- Whether an entry holds a page, and whether it is empty or too high.
abbrev holds : ℕ → ActiveRegion → ℕ
holds q e = if leb e.start_pfn q && ltb q e.end_pfn then 1 else 0

abbrev is_bad : ActiveRegion → ℕ
is_bad e = if ltb e.start_pfn e.end_pfn && ltb e.end_pfn long_mod then 0 else 1

module _ {ℓ} {A : Type ℓ} (f : A → ℕ) where
  -- Of elements with a measure of at most 1 in pairs, one at most counts.
  total-pairs :
      (n : ℕ) (a : Array A)
      → ((i : ℕ) → i < n → f (a i) ≤ 1)
      → ((i j : ℕ) → i < j → j < n → f (a i) + f (a j) ≤ 1)
      → total f n a ≤ 1
  unfolding total
  total-pairs zero a one pairs = omega arith
  total-pairs (suc n) a one pairs = elim (Bool-cases (f (a n) == 0)) [
    | inl e ↦
        let rest =
          total-pairs n a (λ i h. one i (omega arith)) (λ i j h k. pairs i j h (omega arith)) in
        ground (arith, e, rest)
    | inr e ↦
        let rest = total_zero f n a (λ k h. ground (arith, e, pairs k n h (omega arith))) in
        omega (arith, rest, one n (omega arith))
  ]

  two-total : (n : ℕ) (a : Array A) (i j : ℕ) → i < j → j < n → f (a i) + f (a j) ≤ total f n a
  unfolding total
  two-total zero a i j h k = absurd (omega arith)
  two-total (suc n) a i j h k = elim (Bool-cases (j == n)) [
    | inl e ↦ ground (arith, le-total f n a i (ground (arith, e)))
    | inr e ↦ ground (arith, two-total n a i j h (ground (arith, e)))
  ]

module _ (m : NodeMap) (v : IsDisjoint m) where
  held_once : (q : ℕ) → total (holds q) m.nr m.entries ≤ 1
  held_once q =
      total-pairs (holds q) m.nr m.entries (λ i h. ground arith)
        (λ i j h k. elim (v.apart i j h k) [ inl e ↦ ground arith | inr e ↦ ground arith ])

  none_bad : total is_bad m.nr m.entries ≡ 0
  none_bad = total_zero is_bad m.nr m.entries (λ k h. ground (arith, v.filled k h, v.bounded k h))

  abbrev sorted : Array ActiveRegion
  sorted = sort starts_before m.entries m.nr

  still_good : (i : ℕ) → i < m.nr → is_bad (sorted i) ≡ 0
  still_good i h = omega (
    arith,
    le-total is_bad m.nr sorted i h,
    total-sort starts_before is_bad m.entries m.nr,
    none_bad,
  )

  still_apart : (i j : ℕ) → i < j → j < m.nr → (sorted i).end_pfn ≤ (sorted j).start_pfn
  unfolding starts_before
  still_apart i j h k =
      let q = (sorted j).start_pfn in
      let order =
        sort-IsSorted starts_before starts_before-IsOrder m.entries m.nr i j (omega arith) k in
      let once = total-sort starts_before (holds q) m.entries m.nr in
      let both = two-total (holds q) m.nr sorted i j h k in
      ground (arith, order, once, both, held_once q, still_good j k)

-- When no two entries of the map share a page, none is empty and all end below 2 ^ 32, the entries ascend
-- on every node once they are sorted by their starts, and do not overlap.
pub sort_node_map-IsAscending :
    (m : NodeMap) (nid : ℕ) → IsDisjoint m → IsAscending (sort_node_map m) nid
unfolding sort_node_map
sort_node_map-IsAscending m nid v = record {
  ascends = λ i j h k p q. still_apart m v i j h k;
  upward = λ i h. ground (arith, still_good m v i h);
  fits = λ i h. ground (arith, still_good m v i h);
}
