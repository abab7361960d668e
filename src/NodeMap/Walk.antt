-- ===== src/NodeMap/Walk.antt =====
-- `for_each_active_range_index_in_nid` visits each entry of the node once, in order.
use xc.Common.{ℕ, zero, suc, ◌+◌, ◌-◌, ◌≤◌, ◌≡◌, refl, inl, inr, arith, Bool-cases, if◌then◌else◌}
use xc.NodeMap.{
  ActiveRegion, NodeMap, in_nid, index_from, next_active_region_index_in_nid,
  first_active_region_index_in_nid, for_each, for_each_active_range,
}

module _ {ℓ} {S : Type ℓ} (body : ActiveRegion → S → S) (m : NodeMap) (nid : ℕ) where
  -- The entries from `i` on, one after the other.
  unfoldable pub visit : ℕ → ℕ → S → S
  visit zero i s = s
  visit (suc n) i s = visit n (suc i) (if in_nid nid (m.entries i) then body (m.entries i) s else s)

  for_each-visit :
      (n i fuel : ℕ) (s : S)
      → i + n ≡ m.nr
      → n ≤ fuel
      → for_each body m nid fuel (index_from n i m nid) s ≡ visit n i s
  unfolding for_each index_from visit next_active_region_index_in_nid
  for_each-visit zero i zero s e h = refl
  for_each-visit zero i (suc fuel) s e h = refl
  for_each-visit (suc n) i zero s e h = absurd (omega arith)
  for_each-visit (suc n) i (suc fuel) s e h = elim (Bool-cases (in_nid nid (m.entries i))) [
    | inl q ↦
        let left : m.nr - (i + 1) ≡ n = omega arith in
        let up : i + 1 ≡ suc i = omega arith in
        rw (q, left, up)
          (for_each-visit n (suc i) fuel (body (m.entries i) s) (omega arith) (omega arith))
    | inr q ↦ rw q (for_each-visit n (suc i) (suc fuel) s (omega arith) (omega arith))
  ]

  -- The loop ends, and it has run its body on each entry of the node, from the first to the last.
  pub for_each_active_range-visit : (s : S) → for_each_active_range body m nid s ≡ visit m.nr 0 s
  unfolding for_each_active_range first_active_region_index_in_nid
  for_each_active_range-visit s = for_each-visit m.nr 0 m.nr s (omega arith) (omega arith)
