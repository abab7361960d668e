-- ===== src/NodeMap.antt =====
-- The early node map of mm/page_alloc.c: the ranges of page frames that hold memory, each with its node,
-- in the order in which they were found. An index that the source marks with -1 is `none`.
pub mod Walk
pub mod Fill
use Prim.Native.Nat.{min, max}
use xc.Common.{
  ℕ, zero, suc, ◌+◌, ◌-◌, Option, none, some, Bool, not, ◌&&◌, ◌||◌, ltb, leb, ◌==◌, if◌then◌else◌,
  Array, update,
}
use xc.Ranges.{Range, add_range}

pub record ActiveRegion : Type 0 where
  pub start_pfn : ℕ
  pub end_pfn : ℕ
  pub nid : ℕ

-- `early_node_map` and `nr_nodemap_entries`.
pub record NodeMap : Type 0 where
  pub entries : Array ActiveRegion
  pub nr : ℕ

abbrev pub max_active_regions : ℕ
max_active_regions = 256

-- As a node, every node.
abbrev pub max_numnodes : ℕ
max_numnodes = 1

abbrev pub in_nid : ℕ → ActiveRegion → Bool
in_nid nid e = nid == max_numnodes || e.nid == nid

-- The scan for an entry of the node from `index` on, with `n` entries left.
unfoldable pub index_from : ℕ → ℕ → NodeMap → ℕ → Option ℕ
index_from zero index m nid = none
index_from (suc n) index m nid =
    let rest = index_from n (suc index) m nid in
    if in_nid nid (m.entries index) then some index else rest

unfoldable pub first_active_region_index_in_nid : NodeMap → ℕ → Option ℕ
first_active_region_index_in_nid m nid = index_from m.nr 0 m nid

unfoldable pub next_active_region_index_in_nid : NodeMap → ℕ → ℕ → Option ℕ
next_active_region_index_in_nid m index nid = index_from (m.nr - (index + 1)) (index + 1) m nid

-- for_each_active_range_index_in_nid(i, nid), from `i` on with fuel: `body` on the state of the loop.
unfoldable pub for_each {ℓ} :
    {S : Type ℓ} → (ActiveRegion → S → S) → NodeMap → ℕ → ℕ → Option ℕ → S → S
for_each body m nid zero i s = s
for_each body m nid (suc fuel) none s = s
for_each body m nid (suc fuel) (some i) s =
    for_each body m nid fuel (next_active_region_index_in_nid m i nid) (body (m.entries i) s)

unfoldable pub for_each_active_range {ℓ} :
    {S : Type ℓ} → (ActiveRegion → S → S) → NodeMap → ℕ → S → S
for_each_active_range body m nid s =
    for_each body m nid m.nr (first_active_region_index_in_nid m nid) s

-- The first loop of `add_active_range`, from entry `i` on with `n` left: the map that the function
-- returns with, or `none` when the loop ends.
unfoldable pub extend_loop : ℕ → ℕ → NodeMap → ℕ → ℕ → ℕ → Option NodeMap
extend_loop zero i m nid start_pfn end_pfn = none
extend_loop (suc n) i m nid start_pfn end_pfn =
    let e = m.entries i in
    let rest = extend_loop n (suc i) m nid start_pfn end_pfn in
    let set = λ (e' : ActiveRegion). some (record m { entries = update m.entries i e' }) in
    if not (e.nid == nid)
    then rest
    else if leb e.start_pfn start_pfn && leb end_pfn (m.entries 0).end_pfn
    then some m
    else if leb start_pfn (m.entries 0).end_pfn && ltb e.end_pfn end_pfn
    then set (record e { end_pfn = end_pfn })
    else if ltb start_pfn e.start_pfn && leb e.start_pfn end_pfn
    then set (record e { start_pfn = start_pfn })
    else rest

unfoldable pub add_active_range : NodeMap → ℕ → ℕ → ℕ → NodeMap
add_active_range m nid start_pfn end_pfn = elim (extend_loop m.nr 0 m nid start_pfn end_pfn) [
  | some m' ↦ m'
  | none ↦ if leb max_active_regions m.nr then m else record m {
    entries =
        update m.entries m.nr (record { start_pfn = start_pfn; end_pfn = end_pfn; nid = nid });
    nr = m.nr + 1;
  }
]

unfoldable pub add_from_early_node_map : NodeMap → Array Range → ℕ → ℕ → ℕ → ℕ × Array Range
add_from_early_node_map m range az nr_range nid =
    for_each_active_range (λ e s. add_range (s.1) az (s.0) e.start_pfn e.end_pfn) m nid
      (nr_range, range)

-- `work_with_active_regions` with `count_work_fn`, which never asks to stop.
unfoldable pub count_early_node_map : NodeMap → ℕ → ℕ
count_early_node_map m nid = for_each_active_range (λ e nr. nr + 1) m nid 0

-- The least start, and the greatest end. A start that was not found is -1, and then 0.
abbrev pub ulong_max : ℕ
ulong_max = 0xffff_ffff

unfoldable pub find_min_pfn_for_node : NodeMap → ℕ → ℕ
find_min_pfn_for_node m nid =
    let min_pfn = for_each_active_range (λ e s. min s e.start_pfn) m nid ulong_max in
    if min_pfn == ulong_max then 0 else min_pfn

unfoldable pub get_pfn_range_for_nid : NodeMap → ℕ → ℕ × ℕ
get_pfn_range_for_nid m nid =
    let (start_pfn, end_pfn) =
      for_each_active_range (λ e s. (min (s.0) e.start_pfn, max (s.1) e.end_pfn)) m nid
        (ulong_max, 0) in
    (if start_pfn == ulong_max then 0 else start_pfn, end_pfn)
