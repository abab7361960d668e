-- ===== src/FreeMemory/Exact.antt =====
-- The ranges that `__get_free_all_memory_range` reports hold exactly the free pages.
use xc.Common.{
  ℕ, zero, suc, ◌+◌, ◌*◌, ◌-◌, ◌≤◌, ◌<◌, ◌≡◌, refl, sym, ap, inl, inr, arith, Option, none, some,
  Option-cases, Bool-cases, leb, ltb, ◌==◌, ◌&&◌, if◌then◌else◌, Array, total, total_zero, add64,
  u64_mod,
}
use xc.Ranges.{Range, subtract_range}
use xc.Ranges.Covers.{hit, covers, vacancies, cuts, is_cut}
use xc.Ranges.Subtract.{
  subtract_range_inside, subtract_range_outside, subtract_range_use, cuts-le-covers,
}
use xc.Ranges.Clean.{total-clean_sort_range}
use xc.Memblock.{Region, Table, Memblock}
use xc.NodeMap.{NodeMap, add_from_early_node_map, count_early_node_map}
use xc.Search.{memblock_error, memblock_find_in_range}
use xc.NodeMap.Fill.{IsRest, active, add_from_early_node_map-covers}
use xc.FreeMemory.{
  sizeof_range, pfn_down, pfn_up, find_range_array, subtract_reserved_loop,
  memblock_x86_subtract_reserved, fill_ranges, get_free_memory_range,
}

-- The page frames that a reserved region takes, whole or in part, if PFN_UP does not wrap.
abbrev pub taken_range : Region → Range
taken_range r = record { start = pfn_down r.base; end = pfn_up (add64 r.base r.size) }

-- How many of the first `n` reserved regions take the page.
abbrev pub taken : ℕ → Table → ℕ → ℕ
taken n reserved p = total (λ r. hit p (taken_range r)) n reserved.regions

-- No page is in two ranges, and `spare` slots are vacant.
record IsDisjoint (az spare : ℕ) (range : Array Range) : Type 0 where
  once : (p : ℕ) → covers az range p ≤ 1
  room : spare ≤ vacancies az range

-- A subtraction from disjoint ranges, which uses at most `used` vacant slots.
module _ (az whole used spare start end : ℕ) (range : Array Range) (v : IsDisjoint az whole range)
    (few : cuts az start end range ≤ used) (le : used + spare ≤ whole) where
  subtract-IsDisjoint :
      IsDisjoint az spare (subtract_range range az start end)
      × ((p : ℕ)
          → covers az (subtract_range range az start end) p
            ≡ (if leb start p && ltb p end then 0 else covers az range p))
  subtract-IsDisjoint =
      let fits : cuts az start end range ≤ vacancies az range = omega (arith, few, le, v.room) in
      let cell : (p : ℕ)
          → covers az (subtract_range range az start end) p
            ≡ (if leb start p && ltb p end then 0 else covers az range p) =
        λ p. elim (Bool-cases (leb start p && ltb p end)) [
          | inl e ↦ rw e (subtract_range_inside range az start end p (ground arith) (ground arith))
          | inr e ↦ rw e (subtract_range_outside range az start end p fits (ground arith))
        ] in
      (
        record {
          once = λ p. ground (arith, cell p, v.once p);
          room = omega (arith, few, le, v.room, subtract_range_use range az start end fits);
        },
        cell,
      )

-- The loop over the reserved regions.
subtract_reserved_loop-covers :
    (n i az : ℕ) (reserved : Table) (range : Array Range) (before : ℕ → ℕ)
    → IsDisjoint az n range
    → ((p : ℕ) → covers az range p ≡ (if taken i reserved p == 0 then before p else 0))
    → (p : ℕ)
    → covers az (subtract_reserved_loop n i reserved az range) p
      ≡ (if taken (i + n) reserved p == 0 then before p else 0)
unfolding subtract_reserved_loop total
subtract_reserved_loop-covers zero i az reserved range before v same p =
    let s : i + 0 ≡ i = omega arith in rw s (same p)
subtract_reserved_loop-covers (suc n) i az reserved range before v same p =
    let r = taken_range (reserved.regions i) in
    let s : i + suc n ≡ suc i + n = omega arith in
    rw s (elim (Bool-cases (leb r.end r.start)) [
      | inl e ↦ rw e (
          subtract_reserved_loop-covers n (suc i) az reserved range before
            (record { once = v.once; room = omega (arith, v.room) }) (λ q. ground (arith, same q))
            p)
      | inr e ↦
          let order : r.start < r.end = ground arith in
          let few : cuts az r.start r.end range ≤ 1 =
            omega (arith, (cuts-le-covers az r.start r.end range order).0, v.once r.start) in
          let (w, cell) =
            subtract-IsDisjoint az (suc n) 1 n r.start r.end range v few (omega arith) in
          rw e (
            subtract_reserved_loop-covers n (suc i) az reserved
              (subtract_range range az r.start r.end) before w (λ q. ground (arith, cell q, same q))
              p)
    ])

abbrev end_of : ℕ → Option (Array Range) → ℕ
end_of k none = 0
end_of k (some range) = (range k).end

-- The array that is found is all vacant.
find_range_array-IsRest :
    (m : Memblock) (count : ℕ) (range : Array Range)
    → find_range_array m count ≡ some range
    → IsRest 0 range
unfolding find_range_array
find_range_array-IsRest m count range found k h =
    elim (Option-cases
      (memblock_find_in_range m 0 m.current_limit (sizeof_range * count) sizeof_range)) [
        | inl e ↦ let found' = rw (e, find_range_array) at found in cc
        | inr (mem, e) ↦
            let found' = rw (e, find_range_array) at found in
            elim (Bool-cases (mem == memblock_error)) [
              | inl q ↦ let found'' = rw q at found' in cc
              | inr q ↦ sym (ap (end_of k) (rw q at found'))
            ]
      ]

module _ (m : Memblock) (map : NodeMap) (nid start_pfn end_pfn : ℕ) (range : Array Range)
    (blank : IsRest 0 range) (once : (p : ℕ) → active map nid p ≤ 1)
    (small : (k : ℕ) → k < map.nr → (map.entries k).end_pfn < u64_mod)
    (low : end_pfn < u64_mod - 1) where
  abbrev count : ℕ
  count = (m.reserved.cnt + count_early_node_map map nid) * 2

  abbrev filled : Array Range
  filled = (add_from_early_node_map map range count 0 nid).1

  abbrev from_start : Array Range
  from_start = subtract_range filled count 0 start_pfn

  abbrev to_end : Array Range
  to_end = subtract_range from_start count end_pfn (u64_mod - 1)

  -- No page from the last u64 on is active.
  active_past : (p : ℕ) → u64_mod - 1 ≤ p → active map nid p ≡ 0
  active_past p h = total_zero _ map.nr map.entries (λ k q. ground (arith, small k q))

  filled-IsDisjoint : IsDisjoint count m.reserved.cnt filled
  filled-IsDisjoint =
      let (same, room) = add_from_early_node_map-covers map nid count range (omega arith) blank in
      record { once = λ p. omega (arith, same p, once p); room = omega (arith, room) }

  no_cut : (az end' : ℕ) (r : Array Range) → cuts az 0 end' r ≤ 0
  no_cut az end' r = omega (arith, total_zero (is_cut 0 end') az r (λ k q. ground arith))

  from_start_total :
      IsDisjoint count m.reserved.cnt from_start
      × ((p : ℕ) → covers count from_start p ≡ (if ltb p start_pfn then 0 else active map nid p))
  from_start_total =
      let (same, room) = add_from_early_node_map-covers map nid count range (omega arith) blank in
      let (w, cell) =
        subtract-IsDisjoint count m.reserved.cnt 0 m.reserved.cnt 0 start_pfn filled
          filled-IsDisjoint (no_cut count start_pfn filled) (omega arith) in
      (w, λ p. ground (arith, cell p, same p))

  to_end_total :
      IsDisjoint count m.reserved.cnt to_end
      × ((p : ℕ)
          → covers count to_end p
            ≡ (if leb start_pfn p && ltb p end_pfn then active map nid p else 0))
  to_end_total =
      let (v, same) = from_start_total in
      let past : covers count from_start (u64_mod - 1) ≡ 0 =
        ground (arith, same (u64_mod - 1), active_past (u64_mod - 1) (omega arith)) in
      let few : cuts count end_pfn (u64_mod - 1) from_start ≤ 0 =
        omega (arith, (cuts-le-covers count end_pfn (u64_mod - 1) from_start low).1, past) in
      let (w, cell) =
        subtract-IsDisjoint count m.reserved.cnt 0 m.reserved.cnt end_pfn (u64_mod - 1) from_start v
          few (omega arith) in
      (w, λ p. ground (arith, cell p, same p, active_past p))

  fill_ranges-covers :
      (p : ℕ)
      → let s = fill_ranges m map nid start_pfn end_pfn count range in
        covers (s.0) (s.1) p ≡ (
          if taken m.reserved.cnt m.reserved p == 0 && (leb start_pfn p && ltb p end_pfn)
          then active map nid p
          else 0)
  unfolding fill_ranges memblock_x86_subtract_reserved total
  fill_ranges-covers p =
      let (v, same) = to_end_total in
      let before = λ (q : ℕ). if leb start_pfn q && ltb q end_pfn then active map nid q else 0 in
      let cleaned =
        total-clean_sort_range (subtract_reserved_loop m.reserved.cnt 0 m.reserved count to_end)
          count (hit p) (λ r e. ground (arith, e)) in
      let without =
        subtract_reserved_loop-covers m.reserved.cnt 0 count m.reserved to_end before v
          (λ q. ground (arith, same q)) p in
      ground (arith, cleaned, without)

-- What `__get_free_all_memory_range` reports when it found room for its array. Where no page is in two
-- entries of the node, each entry ends below 2 ^ 64, and `end_pfn` is below 2 ^ 64 - 1: a page is in
-- exactly one range reported if it is an active page of the node in [start_pfn, end_pfn) that
-- does not lie between PFN_DOWN and PFN_UP of a reserved region; and in none otherwise.
pub get_free_memory_range-covers :
    (m : Memblock) (map : NodeMap) (nid start_pfn end_pfn : ℕ) (range : Array Range)
    → find_range_array m ((m.reserved.cnt + count_early_node_map map nid) * 2) ≡ some range
    → ((p : ℕ) → active map nid p ≤ 1)
    → ((k : ℕ) → k < map.nr → (map.entries k).end_pfn < u64_mod)
    → end_pfn < u64_mod - 1
    → (nr_range : ℕ) × (found : Array Range) × (get_free_memory_range m map nid start_pfn end_pfn
        ≡ some (nr_range, found))
      × ((p : ℕ)
          → covers nr_range found p ≡ (
              if taken m.reserved.cnt m.reserved p == 0 && (leb start_pfn p && ltb p end_pfn)
              then active map nid p
              else 0))
unfolding get_free_memory_range
get_free_memory_range-covers m map nid start_pfn end_pfn range found_room once small low =
    let count = (m.reserved.cnt + count_early_node_map map nid) * 2 in
    let s = fill_ranges m map nid start_pfn end_pfn count range in
    (
      s.0,
      s.1,
      rw (found_room, get_free_memory_range) refl,
      fill_ranges-covers m map nid start_pfn end_pfn range
          (find_range_array-IsRest m count range found_room) once small low,
    )
