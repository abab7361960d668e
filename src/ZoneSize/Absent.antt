-- ===== src/ZoneSize/Absent.antt =====
-- `__absent_pages_in_range` counts the pages of a range that no entry of the node holds.
use Prim.Native.Nat.{min, max}
use xc.Common.{
  ℕ, zero, suc, ◌+◌, ◌-◌, ◌≤◌, ◌<◌, ◌≡◌, refl, inl, inr, arith, true, false, Bool-cases, branch_on,
  leb, if◌then◌else◌, long_mod, long_add, long_sub,
}
use xc.NodeMap.{ActiveRegion, NodeMap, in_nid}
use xc.NodeMap.Walk.{visit, for_each_active_range-visit}
use xc.ZoneSize.{absent_body, absent_rest, absent_pages_in_range}

-- The pages of an entry in [start, end).
abbrev pub overlap : ℕ → ℕ → ActiveRegion → ℕ
overlap start end e = min e.end_pfn end - max e.start_pfn start

-- The pages in [start, end) of the entries of a node.
unfoldable pub present_from : ℕ → ℕ → NodeMap → ℕ → ℕ → ℕ → ℕ
present_from start end m nid zero i = 0
present_from start end m nid (suc n) i =
    (if in_nid nid (m.entries i) then overlap start end (m.entries i) else 0)
    + present_from start end m nid n (suc i)

abbrev pub present_in : NodeMap → ℕ → ℕ → ℕ → ℕ
present_in m nid start end = present_from start end m nid m.nr 0

-- The entries of the node ascend and do not overlap.
pub record IsAscending (m : NodeMap) (nid : ℕ) : Type 0 where
  pub ascends :
      (i j : ℕ)
      → i < j
      → j < m.nr
      → in_nid nid (m.entries i) ≡ true
      → in_nid nid (m.entries j) ≡ true
      → (m.entries i).end_pfn ≤ (m.entries j).start_pfn
  pub upward : (i : ℕ) → i < m.nr → (m.entries i).start_pfn ≤ (m.entries i).end_pfn
  pub fits : (i : ℕ) → i < m.nr → (m.entries i).end_pfn < long_mod

module _ (m : NodeMap) (nid : ℕ) (v : IsAscending m nid) (start end : ℕ) (h : start ≤ end)
    (k : end < long_mod) where
  -- No later entry of the node starts before the last page that was passed.
  abbrev Passed : ℕ → ℕ → Type 0
  Passed i prev =
      (j : ℕ) → i ≤ j → j < m.nr → in_nid nid (m.entries j) ≡ true → prev ≤ (m.entries j).start_pfn

  -- One round of the loop, at an entry that lies behind the last page passed.
  body_count :
      (e : ActiveRegion) (prev holes found : ℕ)
      → prev ≤ e.start_pfn
      → e.start_pfn ≤ e.end_pfn
      → holes + found + start ≡ max start (min prev end)
      → let s = absent_body start end e (prev, holes) in
        s.1 + (found + overlap start end e) + start ≡ max start (min s.0 end)
  unfolding absent_body long_add long_sub
  body_count e prev holes found p q r = ground arith

  body-Passed :
      (i : ℕ) (s : ℕ × ℕ)
      → i < m.nr
      → in_nid nid (m.entries i) ≡ true
      → Passed i s.0
      → Passed (suc i) (absent_body start end (m.entries i) s).0
  unfolding absent_body
  body-Passed i (prev, holes) p q passed j le lt here =
      branch_on (λ (s : ℕ × ℕ). s.0 ≤ (m.entries j).start_pfn) (leb end prev) _ _
        (λ e. passed j (omega arith) lt here) (λ e. v.ascends i j (omega arith) lt q here)

  abbrev walk : ℕ → ℕ → ℕ × ℕ → ℕ × ℕ
  walk n i s = visit (absent_body start end) m nid n i s

  abbrev pages : ℕ → ℕ → ℕ
  pages n i = present_from start end m nid n i

  walk_step :
      (n i : ℕ) (s : ℕ × ℕ)
      → (in_nid nid (m.entries i) ≡ true
          → (walk (suc n) i s ≡ walk n (suc i) (absent_body start end (m.entries i) s))
            × (pages (suc n) i ≡ overlap start end (m.entries i) + pages n (suc i)))
        × (in_nid nid (m.entries i) ≡ false
            → (walk (suc n) i s ≡ walk n (suc i) s) × (pages (suc n) i ≡ pages n (suc i)))
  unfolding visit present_from
  walk_step n i s = (λ q. (rw q refl, rw q refl), λ q. (rw q refl, rw q (omega arith)))

  visit_count :
      (n i found : ℕ) (s : ℕ × ℕ)
      → i + n ≡ m.nr
      → Passed i s.0
      → s.1 + found + start ≡ max start (min s.0 end)
      → (walk n i s).1 + (found + pages n i) + start ≡ max start (min (walk n i s).0 end)
  unfolding visit present_from
  visit_count zero i found s e passed r = omega (arith, r)
  visit_count (suc n) i found s e passed r = elim (Bool-cases (in_nid nid (m.entries i))) [
    | inr q ↦
        let (same, fewer) = (walk_step n i s).1 q in
        rw (same, fewer)
          (visit_count n (suc i) found s (omega arith)
            (λ j le lt here. passed j (omega arith) lt here) r)
    | inl q ↦
        let (same, more) = (walk_step n i s).0 q in
        let here =
          body_count (m.entries i) s.0 s.1 found (passed i (omega arith) (omega arith) q)
            (v.upward i (omega arith)) r in
        let rest =
          visit_count n (suc i) (found + overlap start end (m.entries i))
            (absent_body start end (m.entries i) s) (omega arith)
            (body-Passed i s (omega arith) q passed) here in
        rw (same, more) (omega (arith, rest))
  ]

-- Where the entries of a node ascend and do not overlap, and end below 2 ^ 32: the pages of a range that
-- `__absent_pages_in_range` counts and the pages of the node's entries in the range make up the range.
pub absent-present :
    (m : NodeMap) (nid start end : ℕ)
    → IsAscending m nid
    → start ≤ end
    → end < long_mod
    → absent_pages_in_range m nid start end + present_in m nid start end ≡ end - start
unfolding absent_pages_in_range absent_rest long_add long_sub
absent-present m nid start end v h k =
    let count =
      visit_count m nid v start end h k m.nr 0 0 (0, 0) (omega arith) (λ j le lt here. omega arith)
        (omega arith) in
    rw (for_each_active_range-visit (absent_body start end) m nid (0, 0)) (ground (arith, count))
