-- ===== src/Search.antt =====
-- The search of mm/memblock.c for a free range: `memblock_find_in_range` walks the memory regions from
-- the top, and `memblock_find_region` steps down below each reserved region that is in the way.
pub mod Region
pub mod Safe
use Prim.Native.Nat.{bit_and, min, max}
use xc.Common.{
  ℕ, zero, suc, ◌+◌, ◌-◌, Option, none, some, Bool, ◌&&◌, ltb, leb, ◌==◌, if◌then◌else◌, add64,
  sub64, not64,
}
use xc.Memblock.{Table, Memblock}

abbrev pub memblock_error : ℕ
memblock_error = 0

abbrev pub page_size : ℕ
page_size = 4096

unfoldable pub memblock_addrs_overlap : ℕ → ℕ → ℕ → ℕ → Bool
memblock_addrs_overlap base1 size1 base2 size2 =
    ltb base1 (add64 base2 size2) && ltb base2 (add64 base1 size1)

-- addr & ~(size - 1)
unfoldable pub memblock_align_down : ℕ → ℕ → ℕ
memblock_align_down addr size = bit_and addr (not64 (sub64 size 1))

-- for (i = ...; i < cnt; i++), with `n` regions left: the first that overlaps; `none` is -1.
unfoldable pub overlap_loop : ℕ → ℕ → Table → ℕ → ℕ → Option ℕ
overlap_loop zero i type base size = none
overlap_loop (suc n) i type base size =
    let rest = overlap_loop n (suc i) type base size in
    let rgn = type.regions i in
    if memblock_addrs_overlap base size rgn.base rgn.size then some i else rest

unfoldable pub memblock_overlaps_region : Table → ℕ → ℕ → Option ℕ
memblock_overlaps_region type base size = overlap_loop type.cnt 0 type base size

-- while (start <= base), with fuel. `none` is a loop that has not ended; the source's result stands
-- under `some`.
unfoldable pub find_region_loop : ℕ → Table → ℕ → ℕ → ℕ → ℕ → Option ℕ
find_region_loop zero reserved start size align base = none
find_region_loop (suc fuel) reserved start size align base =
    if leb start base
    then elim (memblock_overlaps_region reserved base size) [
      | none ↦ some base
      | some j ↦
          let res_base = (reserved.regions j).base in
          let rest =
            find_region_loop fuel reserved start size align
              (memblock_align_down (sub64 res_base size) align) in
          if ltb res_base size then some memblock_error else rest
    ]
    else some memblock_error

unfoldable pub memblock_find_region : Table → ℕ → ℕ → ℕ → ℕ → Option ℕ
memblock_find_region reserved start end size align =
    let base = memblock_align_down (sub64 end size) align in
    let start' = if start == 0 then page_size else start in
    let found = find_region_loop (suc base) reserved start' size align base in
    if ltb end size then some memblock_error else found

-- for (i = n - 1; i >= 0; i--)
unfoldable pub find_base_loop : ℕ → Memblock → ℕ → ℕ → ℕ → ℕ → Option ℕ
find_base_loop zero m size align start end = some memblock_error
find_base_loop (suc i) m size align start end =
    let rest = find_base_loop i m size align start end in
    let rgn = m.memory.regions i in
    let rgn_end = add64 rgn.base rgn.size in
    let bottom = max rgn.base start in
    let top = min rgn_end end in
    let found = memblock_find_region m.reserved bottom top size align in
    if ltb rgn.size size
    then rest
    else if leb rgn_end start
    then some memblock_error
    else if leb top bottom
    then rest
    else elim found [ none ↦ none | some addr ↦ if addr == memblock_error then rest else some addr ]

unfoldable pub memblock_find_base : Memblock → ℕ → ℕ → ℕ → ℕ → Option ℕ
memblock_find_base m size align start end =
    find_base_loop m.memory.cnt m size align start (if end == 0 then m.current_limit else end)

unfoldable pub memblock_find_in_range : Memblock → ℕ → ℕ → ℕ → ℕ → Option ℕ
memblock_find_in_range m start end size align = memblock_find_base m size align start end
