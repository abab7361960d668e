-- ===== src/FreeMemory.antt =====
-- The hand-over of memory in mm/memblock.c: the ranges of free page frames are those of the early node
-- map, without the pages that the early allocator has reserved.
pub mod Exact
use xc.Common.{
  ℕ, zero, suc, ◌+◌, ◌*◌, ◌/◌, ◌-◌, Option, none, some, leb, ◌==◌, if◌then◌else◌, Array, add64,
  u64_mod,
}
use xc.Ranges.{Range, vacant, subtract_range, clean_sort_range}
use xc.Memblock.{Region, Table, Memblock}
use xc.Search.{memblock_error, page_size, memblock_find_in_range}
use xc.NodeMap.{NodeMap, max_numnodes, add_from_early_node_map, count_early_node_map}

-- PFN_DOWN and PFN_UP of a u64.
abbrev pub pfn_down : ℕ → ℕ
pfn_down x = x / page_size

abbrev pub pfn_up : ℕ → ℕ
pfn_up x = add64 x (page_size - 1) / page_size

abbrev pub sizeof_range : ℕ
sizeof_range = 16

-- The array lies in memory that is found but not reserved, and is set to zero. `none` is the panic.
unfoldable pub find_range_array : Memblock → ℕ → Option (Array Range)
find_range_array m count =
    elim (memblock_find_in_range m 0 m.current_limit (sizeof_range * count) sizeof_range) [
      | none ↦ none
      | some mem ↦ if mem == memblock_error then none else some (λ k. vacant)
    ]

-- for_each_memblock(reserved, r), with `n` regions left.
unfoldable pub subtract_reserved_loop : ℕ → ℕ → Table → ℕ → Array Range → Array Range
subtract_reserved_loop zero i reserved az range = range
subtract_reserved_loop (suc n) i reserved az range =
    let r = reserved.regions i in
    let final_start = pfn_down r.base in
    let final_end = pfn_up (add64 r.base r.size) in
    subtract_reserved_loop n (suc i) reserved az
      (if leb final_end final_start then range else subtract_range range az final_start final_end)

unfoldable pub memblock_x86_subtract_reserved : Memblock → ℕ → Array Range → Array Range
memblock_x86_subtract_reserved m az range =
    subtract_reserved_loop m.reserved.cnt 0 m.reserved az range

-- What follows `find_range_array` in `__get_free_all_memory_range`.
unfoldable pub fill_ranges : Memblock → NodeMap → ℕ → ℕ → ℕ → ℕ → Array Range → ℕ × Array Range
fill_ranges m map nid start_pfn end_pfn count range =
    let filled = (add_from_early_node_map map range count 0 nid).1 in
    let from_start = subtract_range filled count 0 start_pfn in
    let to_end = subtract_range from_start count end_pfn (u64_mod - 1) in
    clean_sort_range (memblock_x86_subtract_reserved m count to_end) count

unfoldable pub get_free_memory_range : Memblock → NodeMap → ℕ → ℕ → ℕ → Option (ℕ × Array Range)
get_free_memory_range m map nid start_pfn end_pfn =
    let count = (m.reserved.cnt + count_early_node_map map nid) * 2 in
    elim (find_range_array m count) [
      | none ↦ none
      | some range ↦ some (fill_ranges m map nid start_pfn end_pfn count range)
    ]

unfoldable pub get_free_all_memory_range : Memblock → NodeMap → ℕ → ℕ → Option (ℕ × Array Range)
get_free_all_memory_range m map max_low_pfn nid = get_free_memory_range m map nid 0 max_low_pfn
