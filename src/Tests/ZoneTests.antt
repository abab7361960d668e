-- ===== src/Tests/ZoneTests.antt =====
-- mm/page_alloc.c: a node with a hole below 1 MB, in two zones.
use xc.Common.{
  ℕ, zero, suc, ◌+◌, ◌-◌, ◌/◌, ◌≤◌, ◌<◌, ◌≡◌, refl, ◌⊎◌, inl, inr, arith, [], ◌∷◌, Bool, true,
  false, leb, ltb, ◌==◌, if◌then◌else◌, of_list, long_sub,
}
use xc.Sort.{sort, heapify, sift, sort_down, swap, bigger_child}
use xc.NodeMap.{
  ActiveRegion, NodeMap, in_nid, get_pfn_range_for_nid, for_each_active_range, for_each, index_from,
  first_active_region_index_in_nid, next_active_region_index_in_nid,
}
use xc.ZoneSize.{
  Limits, zone_normal, zone_range_in_node, adjust_zone_range, absent_pages_in_range, absent_body,
  absent_rest, zone_spanned_pages_in_node, zone_absent_pages_in_node, sort_node_map, starts_before,
  wait_table_hash_nr_entries,
}
use xc.ZoneSize.Absent.{present_in, IsAscending, absent-present}
use xc.ZoneSize.Present.{zone_spanned-absent, IsDisjoint, sort_node_map-IsAscending}
use xc.ZoneSize.WaitTable.{IsTableSize, wait_table_hash_nr_entries-bounds}

abbrev region : ℕ → ℕ → ActiveRegion
region start end = record { start_pfn = start; end_pfn = end; nid = 0 }

abbrev low_high : NodeMap
low_high = record {
  entries = of_list (region 0 0x9f ∷ region 0x100 0x1000 ∷ []) (region 0 0);
  nr = 2;
}

abbrev high_low : NodeMap
high_low = record {
  entries = of_list (region 0x100 0x1000 ∷ region 0 0x9f ∷ []) (region 0 0);
  nr = 2;
}

abbrev two_zones : Limits
two_zones = record {
  lowest = of_list (0 ∷ 0x800 ∷ []) 0;
  highest = of_list (0x800 ∷ 0x1000 ∷ []) 0;
  movable_pfn = λ nid. 0;
  movable_zone = 1;
}

low_high-IsAscending : IsAscending low_high 0
low_high-IsAscending = record { ascends = ascends; upward = upward; fits = fits }
  where
    ascends :
        (i j : ℕ)
        → i < j
        → j < 2
        → in_nid 0 (low_high.entries i) ≡ true
        → in_nid 0 (low_high.entries j) ≡ true
        → (low_high.entries i).end_pfn ≤ (low_high.entries j).start_pfn
    ascends i zero h k p q = absurd (omega arith)
    ascends zero (suc zero) h k p q = omega arith
    ascends (suc i) (suc zero) h k p q = absurd (omega arith)
    ascends i (suc (suc j)) h k p q = absurd (omega arith)

    upward : (i : ℕ) → i < 2 → (low_high.entries i).start_pfn ≤ (low_high.entries i).end_pfn
    upward zero h = omega arith
    upward (suc zero) h = omega arith
    upward (suc (suc i)) h = absurd (omega arith)

    fits : (i : ℕ) → i < 2 → (low_high.entries i).end_pfn < 0x1_0000_0000
    fits zero h = omega arith
    fits (suc zero) h = omega arith
    fits (suc (suc i)) h = absurd (omega arith)

absent_run : absent_pages_in_range low_high 0 0 0x800 ≡ 0x61
unfolding absent_pages_in_range absent_body absent_rest for_each_active_range for_each index_from
    first_active_region_index_in_nid next_active_region_index_in_nid xc.Common.long_add long_sub
absent_run = refl

absent-present_example :
    absent_pages_in_range low_high 0 0x90 0x800 + present_in low_high 0 0x90 0x800 ≡ 0x800 - 0x90
absent-present_example =
    absent-present low_high 0 0x90 0x800 low_high-IsAscending (omega arith) (omega arith)

zone_spanned-absent_example :
    long_sub
      (zone_spanned_pages_in_node low_high two_zones 0 zone_normal)
      (zone_absent_pages_in_node low_high two_zones 0 zone_normal)
    ≡ present_in low_high 0
        (zone_range_in_node low_high two_zones 0 zone_normal).0
        (zone_range_in_node low_high two_zones 0 zone_normal).1
unfolding get_pfn_range_for_nid zone_range_in_node adjust_zone_range for_each_active_range for_each
    index_from first_active_region_index_in_nid next_active_region_index_in_nid
zone_spanned-absent_example =
    zone_spanned-absent low_high two_zones 0 zone_normal low_high-IsAscending (omega arith)
      (omega arith) (omega arith) (omega arith) (omega arith)

sorted_run :
    ((sort_node_map high_low).entries 0 ≡ region 0 0x9f)
    × ((sort_node_map high_low).entries 1 ≡ region 0x100 0x1000)
unfolding sort_node_map starts_before sort heapify sift sort_down swap bigger_child
sorted_run = (refl, refl)

high_low-IsDisjoint : IsDisjoint high_low
high_low-IsDisjoint = record { apart = apart; filled = filled; bounded = bounded }
  where
    apart :
        (i j : ℕ)
        → i < j
        → j < 2
        → ((high_low.entries i).end_pfn ≤ (high_low.entries j).start_pfn)
          ⊎ ((high_low.entries j).end_pfn ≤ (high_low.entries i).start_pfn)
    apart i zero h k = absurd (omega arith)
    apart zero (suc zero) h k = inr (omega arith)
    apart (suc i) (suc zero) h k = absurd (omega arith)
    apart i (suc (suc j)) h k = absurd (omega arith)

    filled : (i : ℕ) → i < 2 → (high_low.entries i).start_pfn < (high_low.entries i).end_pfn
    filled zero h = omega arith
    filled (suc zero) h = omega arith
    filled (suc (suc i)) h = absurd (omega arith)

    bounded : (i : ℕ) → i < 2 → (high_low.entries i).end_pfn < 0x1_0000_0000
    bounded zero h = omega arith
    bounded (suc zero) h = omega arith
    bounded (suc (suc i)) h = absurd (omega arith)

sort_node_map-IsAscending_example : IsAscending (sort_node_map high_low) 0
sort_node_map-IsAscending_example = sort_node_map-IsAscending high_low 0 high_low-IsDisjoint

wait_table_hash_nr_entries-bounds_example :
    IsTableSize (0x40000 / 256) (wait_table_hash_nr_entries 0x40000)
wait_table_hash_nr_entries-bounds_example = wait_table_hash_nr_entries-bounds 0x40000 (omega arith)
