-- ===== src/ZoneSize.antt =====
-- How large the zones of a node are, in mm/page_alloc.c: which page frames of the node a zone spans, how
-- many of them are holes between the entries of the early node map, and so how many are present. Page
-- frames and numbers of pages are unsigned longs.
pub mod Absent
pub mod Present
pub mod WaitTable
use Prim.Native.Nat.{min, max}
use xc.Common.{
  ℕ, zero, suc, ◌+◌, ◌-◌, ◌*◌, ◌/◌, Bool, ◌&&◌, ltb, leb, ◌==◌, if◌then◌else◌, Array, update,
  long_add, long_sub,
}
use xc.Sort.{sort}
use xc.NodeMap.{
  ActiveRegion, NodeMap, for_each_active_range, find_min_pfn_for_node, get_pfn_range_for_nid,
  max_numnodes,
}

abbrev pub zone_dma : ℕ
zone_dma = 0

abbrev pub zone_normal : ℕ
zone_normal = 1

abbrev pub zone_movable : ℕ
zone_movable = 2

abbrev pub max_nr_zones : ℕ
max_nr_zones = 3

-- `arch_zone_lowest_possible_pfn`, `arch_zone_highest_possible_pfn`, `zone_movable_pfn` and `movable_zone`.
pub record Limits : Type 0 where
  pub lowest : Array ℕ
  pub highest : Array ℕ
  pub movable_pfn : Array ℕ
  pub movable_zone : ℕ

-- A range of page frames that is passed by its two addresses.
unfoldable pub adjust_zone_range : Limits → ℕ → ℕ → ℕ → ℕ × ℕ → ℕ × ℕ
adjust_zone_range limits nid zone_type node_end_pfn (zone_start_pfn, zone_end_pfn) =
    let movable = limits.movable_pfn nid in
    if movable == 0
    then (zone_start_pfn, zone_end_pfn)
    else if zone_type == zone_movable
    then (movable, min node_end_pfn (limits.highest limits.movable_zone))
    else if ltb zone_start_pfn movable && ltb movable zone_end_pfn
    then (zone_start_pfn, movable)
    else if leb movable zone_start_pfn
    then (zone_end_pfn, zone_end_pfn)
    else (zone_start_pfn, zone_end_pfn)

unfoldable pub zone_spanned_pages_in_node : NodeMap → Limits → ℕ → ℕ → ℕ
zone_spanned_pages_in_node m limits nid zone_type =
    let node = get_pfn_range_for_nid m nid in
    let zone =
      adjust_zone_range limits nid zone_type node.1
        (limits.lowest zone_type, limits.highest zone_type) in
    if ltb zone.1 node.0
    then 0
    else if ltb node.1 zone.0
    then 0
    else long_sub (min zone.1 node.1) (max zone.0 node.0)

-- The body of the loop over the entries of the node, on prev_end_pfn and hole_pages. After the break the
-- entries that are left change nothing.
unfoldable pub absent_body : ℕ → ℕ → ActiveRegion → ℕ × ℕ → ℕ × ℕ
absent_body range_start_pfn range_end_pfn e (prev_end_pfn, hole_pages) =
    let start_pfn = min e.start_pfn range_end_pfn in
    let prev_end_pfn' = max prev_end_pfn range_start_pfn in
    let hole_pages' =
      if ltb range_start_pfn start_pfn
      then long_add hole_pages (long_sub start_pfn prev_end_pfn')
      else hole_pages in
    if leb range_end_pfn prev_end_pfn then (prev_end_pfn, hole_pages) else (e.end_pfn, hole_pages')

unfoldable pub absent_rest : ℕ → ℕ → ℕ × ℕ → ℕ
absent_rest range_start_pfn range_end_pfn (prev_end_pfn, hole_pages) =
    if ltb prev_end_pfn range_end_pfn
    then long_add hole_pages (long_sub range_end_pfn (max prev_end_pfn range_start_pfn))
    else hole_pages

unfoldable pub absent_pages_in_range : NodeMap → ℕ → ℕ → ℕ → ℕ
absent_pages_in_range m nid range_start_pfn range_end_pfn =
    absent_rest range_start_pfn range_end_pfn
      (for_each_active_range (absent_body range_start_pfn range_end_pfn) m nid (0, 0))

-- `less` of `cmp_node_active_region`, and `sort_node_map`.
unfoldable pub starts_before : ActiveRegion → ActiveRegion → Bool
starts_before a b = ltb a.start_pfn b.start_pfn

unfoldable pub sort_node_map : NodeMap → NodeMap
sort_node_map m = record m { entries = sort starts_before m.entries m.nr }

-- The range of a zone, first cut to the node and then adjusted.
unfoldable pub zone_range_in_node : NodeMap → Limits → ℕ → ℕ → ℕ × ℕ
zone_range_in_node m limits nid zone_type =
    let node = get_pfn_range_for_nid m nid in
    adjust_zone_range limits nid zone_type node.1
      (max (limits.lowest zone_type) node.0, min (limits.highest zone_type) node.1)

unfoldable pub zone_absent_pages_in_node : NodeMap → Limits → ℕ → ℕ → ℕ
zone_absent_pages_in_node m limits nid zone_type =
    let zone = zone_range_in_node m limits nid zone_type in
    absent_pages_in_range m nid zone.0 zone.1

-- The loops over the zones, with the zones below `n`.
unfoldable pub total_spanned : ℕ → NodeMap → Limits → ℕ → ℕ
total_spanned zero m limits nid = 0
total_spanned (suc n) m limits nid =
    long_add (total_spanned n m limits nid) (zone_spanned_pages_in_node m limits nid n)

unfoldable pub subtract_absent : ℕ → NodeMap → Limits → ℕ → ℕ → ℕ
subtract_absent zero m limits nid total_pages = total_pages
subtract_absent (suc n) m limits nid total_pages =
    long_sub (subtract_absent n m limits nid total_pages) (zone_absent_pages_in_node m limits nid n)

-- `calculate_node_totalpages`: node_spanned_pages and node_present_pages.
unfoldable pub calculate_node_totalpages : NodeMap → Limits → ℕ → ℕ × ℕ
calculate_node_totalpages m limits nid =
    let total_pages = total_spanned max_nr_zones m limits nid in
    (total_pages, subtract_absent max_nr_zones m limits nid total_pages)

-- `wait_table_hash_nr_entries`: while (size < pages), with fuel.
unfoldable pub double_size : ℕ → ℕ → ℕ → ℕ
double_size zero size pages = size
double_size (suc fuel) size pages =
    let rest = double_size fuel (size * 2) pages in if ltb size pages then rest else size

abbrev pub pages_per_waitqueue : ℕ
pages_per_waitqueue = 256

unfoldable pub wait_table_hash_nr_entries : ℕ → ℕ
wait_table_hash_nr_entries pages = max (min (double_size 32 1 (pages / pages_per_waitqueue)) 4096) 4
