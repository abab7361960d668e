-- ===== src/Tests/FreeTests.antt =====
-- The early node map and the hand-over of free memory, on two entries.
use xc.Common.{
  ◌^◌, ℕ, zero, suc, ◌+◌, ◌*◌, ◌≤◌, ◌<◌, ◌≡◌, refl, inl, inr, arith, List, [], ◌∷◌, Array, of_list,
  total, u64_mod, leb, ltb, ◌==◌, ◌&&◌, if◌then◌else◌, Option, some, none,
}
use xc.Ranges.{Range, vacant}
use xc.Ranges.Covers.{covers, vacancies}
use xc.Memblock.{Memblock, empty_region}
use xc.Search.{
  memblock_addrs_overlap, memblock_align_down, overlap_loop, memblock_overlaps_region,
  find_region_loop, memblock_find_region, find_base_loop, memblock_find_base,
  memblock_find_in_range,
}
use xc.NodeMap.{
  NodeMap, index_from, first_active_region_index_in_nid, next_active_region_index_in_nid, for_each,
  for_each_active_range, extend_loop, add_active_range, count_early_node_map,
  add_from_early_node_map, get_pfn_range_for_nid,
}
use xc.NodeMap.Walk.{visit, for_each_active_range-visit}
use xc.NodeMap.Fill.{active, add_from_early_node_map-covers}
use xc.BootFree.{Freed, long_down, free_pages, free_blocks, free_pages_memory}
use xc.BootFree.Once.{frees, inside, frees-free_pages_memory}
use xc.Search.{page_size}
use xc.Search.Region.{Fits}
use xc.EarlyAlloc.{find_memory_core_early}
use xc.EarlyAlloc.Inside.{IsInside, find_memory_core_early-IsInside}
use xc.FreeMemory.{find_range_array, get_free_memory_range}
use xc.FreeMemory.Exact.{taken, get_free_memory_range-covers}

abbrev freed : ℕ → ℕ → Freed
freed pfn order = record { pfn = pfn; order = order }

abbrev no_nodes : NodeMap
no_nodes = record { entries = λ k. record { start_pfn = 0; end_pfn = 0; nid = 0 }; nr = 0 }

abbrev two_nodes : NodeMap
two_nodes = record {
  entries =
      of_list
        (record { start_pfn = 0; end_pfn = 0x9f; nid = 0 }
          ∷ record { start_pfn = 0x100; end_pfn = 0x1000; nid = 0 }
          ∷ [])
        (record { start_pfn = 0; end_pfn = 0; nid = 0 });
  nr = 2;
}

add_run :
    (add_active_range (add_active_range no_nodes 0 0 0x9f) 0 0x100 0x1000).entries 0
    ≡ two_nodes.entries 0
unfolding add_active_range extend_loop
add_run = refl

add_run_nr : (add_active_range (add_active_range no_nodes 0 0 0x9f) 0 0x100 0x1000).nr ≡ 2
unfolding add_active_range extend_loop
add_run_nr = refl

range_run : get_pfn_range_for_nid two_nodes 0 ≡ (0, 0x1000)
unfolding get_pfn_range_for_nid for_each_active_range for_each first_active_region_index_in_nid
    next_active_region_index_in_nid index_from
range_run = refl

count_run : count_early_node_map two_nodes 0 ≡ 2
unfolding count_early_node_map for_each_active_range for_each first_active_region_index_in_nid
    next_active_region_index_in_nid index_from
count_run = refl

abbrev all_vacant : Array Range
all_vacant = λ k. vacant

abbrev kernel_reserved : Memblock
kernel_reserved = record {
  current_limit = 0x100_0000;
  memory_size = 0;
  memory = record {
    cnt = 1;
    max = 128;
    regions = of_list (record { base = 0x10_0000; size = 0xf0_0000 } ∷ []) empty_region;
  };
  reserved = record {
    cnt = 1;
    max = 128;
    regions = of_list (record { base = 0x10_0000; size = 0x20_0800 } ∷ []) empty_region;
  };
}

for_each_active_range-visit_example :
    for_each_active_range (λ e n. n + e.end_pfn) two_nodes 0 0
    ≡ visit (λ e n. n + e.end_pfn) two_nodes 0 2 0 0
for_each_active_range-visit_example =
    for_each_active_range-visit (λ e n. n + e.end_pfn) two_nodes 0 0

two_nodes-active : (p : ℕ) → active two_nodes 0 p ≤ 1
unfolding total
two_nodes-active p = ground arith

two_nodes-small : (k : ℕ) → k < 2 → (two_nodes.entries k).end_pfn < u64_mod
two_nodes-small zero h = omega arith
two_nodes-small (suc zero) h = omega arith
two_nodes-small (suc (suc k)) h = absurd (omega arith)

add_from_early_node_map-covers_example :
    let s = add_from_early_node_map two_nodes all_vacant 6 0 0 in
    ((p : ℕ) → covers 6 (s.1) p ≡ active two_nodes 0 p)
    × (6 ≤ vacancies 6 (s.1) + count_early_node_map two_nodes 0)
add_from_early_node_map-covers_example =
    add_from_early_node_map-covers two_nodes 0 6 all_vacant (omega (arith, count_run)) (λ k h. refl)

found_run :
    find_range_array kernel_reserved ((1 + count_early_node_map two_nodes 0) * 2) ≡ some all_vacant
unfolding find_range_array count_early_node_map for_each_active_range for_each
    first_active_region_index_in_nid next_active_region_index_in_nid index_from
    memblock_find_in_range memblock_find_base find_base_loop memblock_find_region find_region_loop
    memblock_overlaps_region overlap_loop memblock_addrs_overlap memblock_align_down xc.Common.add64
    xc.Common.sub64 xc.Common.not64
found_run = refl

get_free_memory_range-covers_example :
    (nr_range : ℕ) × (found : Array Range) × (get_free_memory_range kernel_reserved two_nodes 0 0
        0x1000
      ≡ some (nr_range, found))
    × ((p : ℕ)
        → covers nr_range found p ≡ (
            if taken 1 kernel_reserved.reserved p == 0 && (leb 0 p && ltb p 0x1000)
            then active two_nodes 0 p
            else 0))
get_free_memory_range-covers_example =
    get_free_memory_range-covers kernel_reserved two_nodes 0 0 0x1000 all_vacant found_run
      two_nodes-active two_nodes-small (omega arith)

-- Pages 30 and 31, one block of 32 pages, and page 64.
free_pages_run : free_pages_memory 30 65 ≡ freed 30 0 ∷ freed 31 0 ∷ freed 32 5 ∷ freed 64 0 ∷ []
unfolding free_pages_memory free_pages free_blocks long_down
free_pages_run = refl

frees-free_pages_memory_example : frees 40 (free_pages_memory 30 65) ≡ inside 40 30 65
frees-free_pages_memory_example = frees-free_pages_memory 30 65 40 (omega arith) (omega arith)

memory-Fits : Fits kernel_reserved.memory
memory-Fits zero h = omega arith
memory-Fits (suc k) h = absurd (omega arith)

reserved-Fits : Fits kernel_reserved.reserved
reserved-Fits zero h = omega arith
reserved-Fits (suc k) h = absurd (omega arith)

two_nodes-ends :
    (i : ℕ)
    → i < 2
    → ((two_nodes.entries i).start_pfn * page_size < u64_mod)
      × ((two_nodes.entries i).end_pfn * page_size < u64_mod)
two_nodes-ends zero h = (omega arith, omega arith)
two_nodes-ends (suc zero) h = (omega arith, omega arith)
two_nodes-ends (suc (suc i)) h = absurd (omega arith)

find_memory_core_early-IsInside_example :
    IsInside kernel_reserved two_nodes 0 0x2000 0x10_0000 0x100_0000
      (find_memory_core_early kernel_reserved two_nodes 0 0x2000 (2 ^ 12) 0x10_0000 0x100_0000)
find_memory_core_early-IsInside_example =
    find_memory_core_early-IsInside kernel_reserved two_nodes 0 0x2000 12 0x10_0000 0x100_0000
      memory-Fits reserved-Fits (omega arith) (omega arith) two_nodes-ends
