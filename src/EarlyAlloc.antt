-- ===== src/EarlyAlloc.antt =====
-- Early allocation: `find_memory_core_early` of mm/page_alloc.c, which asks for a free range in one entry
-- of the early node map after the other, from the last to the first.
pub mod Inside
use Prim.Native.Nat.{min, max}
use xc.Common.{
  ℕ, zero, suc, ◌+◌, ◌-◌, ◌*◌, ◌%◌, Option, none, some, leb, ◌==◌, if◌then◌else◌, u64_mod,
}
use xc.Memblock.{Memblock}
use xc.Search.{memblock_error, page_size, memblock_find_in_range}
use xc.NodeMap.{NodeMap, in_nid}

-- The scan down for an entry of the node below `index`.
unfoldable pub index_below : ℕ → NodeMap → ℕ → Option ℕ
index_below zero m nid = none
index_below (suc index) m nid =
    let rest = index_below index m nid in if in_nid nid (m.entries index) then some index else rest

unfoldable pub last_active_region_index_in_nid : NodeMap → ℕ → Option ℕ
last_active_region_index_in_nid m nid = index_below m.nr m nid

unfoldable pub previous_active_region_index_in_nid : NodeMap → ℕ → ℕ → Option ℕ
previous_active_region_index_in_nid m index nid = index_below index m nid

-- for_each_active_range_index_in_nid_reverse(i, nid), from `i` on with fuel. `none` is a loop, or a
-- search, that has not ended.
unfoldable pub find_memory_loop : ℕ → Memblock → NodeMap → ℕ → ℕ → ℕ → ℕ → ℕ → Option ℕ → Option ℕ
find_memory_loop zero m map nid size align goal limit i = none
find_memory_loop (suc fuel) m map nid size align goal limit none = some memblock_error
find_memory_loop (suc fuel) m map nid size align goal limit (some i) =
    let ei_last = (map.entries i).end_pfn * page_size % u64_mod in
    let ei_start = (map.entries i).start_pfn * page_size % u64_mod in
    let final_start = max ei_start goal in
    let final_end = min ei_last limit in
    let rest =
      find_memory_loop fuel m map nid size align goal limit
        (previous_active_region_index_in_nid map i nid) in
    let found = memblock_find_in_range m final_start final_end size align in
    if leb final_end final_start
    then rest
    else elim found [ none ↦ none | some addr ↦ if addr == memblock_error then rest else some addr ]

unfoldable pub find_memory_core_early : Memblock → NodeMap → ℕ → ℕ → ℕ → ℕ → ℕ → Option ℕ
find_memory_core_early m map nid size align goal limit =
    find_memory_loop (suc map.nr) m map nid size align goal limit
      (last_active_region_index_in_nid map nid)
