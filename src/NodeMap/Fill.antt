-- ===== src/NodeMap/Fill.antt =====
-- `add_from_early_node_map` fills an array of ranges with the entries of a node.
use xc.Common.{
  ℕ, zero, suc, ◌+◌, ◌≤◌, ◌<◌, ◌≡◌, ◌∙◌, refl, inl, inr, arith, Bool-cases, if◌then◌else◌, true,
  false, leb, Array, total, total-update, total_zero, total-le,
}
use xc.Ranges.{Range, add_range}
use xc.Ranges.Covers.{hit, covers, vacancies}
use xc.NodeMap.{ActiveRegion, NodeMap, in_nid, add_from_early_node_map, count_early_node_map}
use xc.NodeMap.Walk.{visit, for_each_active_range-visit}

-- How many entries of the node hold the page `p`.
abbrev pub active : NodeMap → ℕ → ℕ → ℕ
active m nid p =
    total (λ e. if in_nid nid e then hit p (record { start = e.start_pfn; end = e.end_pfn }) else 0)
      m.nr m.entries

-- How many of the first `i` entries are of the node.
abbrev tally : NodeMap → ℕ → ℕ → ℕ
tally m nid i = total (λ e. if in_nid nid e then 1 else 0) i m.entries

-- Every slot from `nr_range` on is vacant.
abbrev pub IsRest : ℕ → Array Range → Type 0
IsRest nr_range range = (k : ℕ) → nr_range ≤ k → (range k).end ≡ 0

vacancies_rest :
    (az nr_range : ℕ) (range : Array Range)
    → IsRest nr_range range
    → az ≤ vacancies az range + nr_range
unfolding total
vacancies_rest zero nr_range range rest = omega arith
vacancies_rest (suc az) nr_range range rest =
    ground (arith, rest az, vacancies_rest az nr_range range rest)

count_visit :
    (m : NodeMap) (nid n i : ℕ)
    → i + n ≡ m.nr
    → visit (λ e nr. nr + 1) m nid n i (tally m nid i) ≡ tally m nid m.nr
unfolding visit total
count_visit m nid zero i e = let s : i ≡ m.nr = omega arith in rw s refl
count_visit m nid (suc n) i e =
    let step : (if in_nid nid (m.entries i) then tally m nid i + 1 else tally m nid i)
        ≡ tally m nid (suc i) =
      ground arith in
    rw step (count_visit m nid n (suc i) (omega arith))

pub count_early_node_map-tally :
    (m : NodeMap) (nid : ℕ) → count_early_node_map m nid ≡ tally m nid m.nr
unfolding count_early_node_map total
count_early_node_map-tally m nid =
    for_each_active_range-visit (λ e nr. nr + 1) m nid 0 ∙ count_visit m nid m.nr 0 (omega arith)

module _ (m : NodeMap) (nid az : ℕ) where
  abbrev body : ActiveRegion → ℕ × Array Range → ℕ × Array Range
  body e s = add_range (s.1) az (s.0) e.start_pfn e.end_pfn

  abbrev held : ℕ → ℕ → ℕ
  held i p =
      total
        (λ e. if in_nid nid e then hit p (record { start = e.start_pfn; end = e.end_pfn }) else 0) i
        m.entries

  record IsFilled (i : ℕ) (s : ℕ × Array Range) : Type 0 where
    few : s.0 ≤ tally m nid i
    rest : IsRest (s.0) (s.1)
    same : (p : ℕ) → covers az (s.1) p ≡ held i p

  -- One entry of the node goes into the first vacant slot.
  add_range-IsFilled :
      (i : ℕ) (s : ℕ × Array Range)
      → in_nid nid (m.entries i) ≡ true
      → s.0 < az
      → IsFilled i s
      → IsFilled (suc i) (body (m.entries i) s)
  unfolding add_range total
  add_range-IsFilled i s mine room v =
      let e = m.entries i in
      let blank : (s.1 (s.0)).end ≡ 0 = v.rest (s.0) (omega arith) in
      elim (Bool-cases (leb e.end_pfn e.start_pfn)) [
        | inl q ↦ rw q (record {
          few = ground (arith, v.few);
          rest = v.rest;
          same = λ p. ground (arith, v.same p);
        })
        | inr q ↦
            let free : leb az (s.0) ≡ false = ground arith in
            let r : Range = record { start = e.start_pfn; end = e.end_pfn } in
            rw (q, free)
              (record {
                few = ground (arith, v.few);
                rest = λ k h. ground (arith, v.rest k (omega arith));
                same = λ p. ground (arith, v.same p, total-update (hit p) az (s.1) (s.0) r room);
              })
      ]

  visit_step-IsFilled :
      (i : ℕ) (s : ℕ × Array Range)
      → i < m.nr
      → tally m nid m.nr ≤ az
      → IsFilled i s
      → IsFilled (suc i) (if in_nid nid (m.entries i) then body (m.entries i) s else s)
  unfolding total
  visit_step-IsFilled i s inside room v = elim (Bool-cases (in_nid nid (m.entries i))) [
    | inl q ↦
        let more =
          total-le (λ e. if in_nid nid e then 1 else 0) (suc i) m.nr m.entries (omega arith) in
        rw q (add_range-IsFilled i s q (ground (arith, more, v.few)) v)
    | inr q ↦ rw q (record {
      few = ground (arith, v.few);
      rest = v.rest;
      same = λ p. ground (arith, v.same p);
    })
  ]

  visit-IsFilled :
      (n i : ℕ) (s : ℕ × Array Range)
      → i + n ≡ m.nr
      → tally m nid m.nr ≤ az
      → IsFilled i s
      → IsFilled m.nr (visit body m nid n i s)
  unfolding visit
  visit-IsFilled zero i s e room v = let s' : i ≡ m.nr = omega arith in rw s' at v
  visit-IsFilled (suc n) i s e room v =
      visit-IsFilled n (suc i) _ (omega arith) room (visit_step-IsFilled i s (omega arith) room v)

  -- From an array of vacant slots with a slot for each entry of the node: the ranges hold each page as
  -- often as the entries of the node do, and no more slots than there are entries are in use.
  pub add_from_early_node_map-covers :
      (range : Array Range)
      → count_early_node_map m nid ≤ az
      → IsRest 0 range
      → let s = add_from_early_node_map m range az 0 nid in
        ((p : ℕ) → covers az (s.1) p ≡ active m nid p)
        × (az ≤ vacancies az (s.1) + count_early_node_map m nid)
  unfolding add_from_early_node_map total
  add_from_early_node_map-covers range room blank =
      let count = count_early_node_map-tally m nid in
      let start : IsFilled 0 (0, range) = record {
        few = omega arith;
        rest = blank;
        same = λ p. total_zero (hit p) az range (λ k h. ground (arith, blank k));
      } in
      let s = visit body m nid m.nr 0 (0, range) in
      let v = visit-IsFilled m.nr 0 (0, range) (omega arith) (omega (arith, room, count)) start in
      rw (for_each_active_range-visit body m nid (0, range))
        (v.same, omega (arith, v.few, count, vacancies_rest az (s.0) (s.1) v.rest))
