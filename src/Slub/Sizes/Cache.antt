-- ===== src/Slub/Sizes/Cache.antt =====
-- mm/slub.c: `calculate_sizes`, which lays out the objects of a cache and the slabs that hold them.
use Prim.Native.Nat.{bit_and, bit_or}
use xc.Common.{
  ℕ, zero, suc, ◌+◌, ◌-◌, ◌/◌, Bool, true, false, not, ◌||◌, Option, none, some, ltb, leb, ◌==◌,
  if◌then◌else◌, long_add, long_mod, max,
}
use xc.Slub.{KmemCache, any_set}
use xc.Slub.Alloc.{oo_objects, slab_reclaim_account}
use xc.Slub.Sizes.{oo_make, get_order, calculate_order}

abbrev pub slab_hwcache_align : ℕ
slab_hwcache_align = 0x2000

abbrev pub slab_cache_dma : ℕ
slab_cache_dma = 0x4000

-- SLAB_DESTROY_BY_RCU | SLAB_POISON
abbrev pub slab_keeps_object : ℕ
slab_keeps_object = 0x8_0800

abbrev pub gfp_comp : ℕ
gfp_comp = 0x4000

abbrev pub gfp_dma : ℕ
gfp_dma = 0x1

abbrev pub gfp_reclaimable : ℕ
gfp_reclaimable = 0x8_0000

abbrev pub cache_line_size : ℕ
cache_line_size = 32

abbrev pub arch_slab_minalign : ℕ
arch_slab_minalign = 8

-- ALIGN
unfoldable pub align_up : ℕ → ℕ → ℕ
align_up x a = bit_and (long_add x (a - 1)) (long_mod - 1 - (a - 1))

-- while (size <= (ralign >> 1)) ralign >>= 1, with fuel.
unfoldable pub halve_align : ℕ → ℕ → ℕ → ℕ
halve_align zero size ralign = ralign
halve_align (suc n) size ralign =
    let rest = halve_align n size (ralign / 2) in if leb size (ralign / 2) then rest else ralign

unfoldable pub calculate_alignment : ℕ → ℕ → ℕ → ℕ
calculate_alignment flags align size =
    let align' =
      if any_set flags slab_hwcache_align
      then max align (halve_align 5 size cache_line_size)
      else align in
    align_up (if ltb align' arch_slab_minalign then arch_slab_minalign else align') 4

abbrev pub has_ctor : KmemCache → Bool
has_ctor s = elim s.ctor [ none ↦ false | some ctor ↦ true ]

-- Behind `if (order < 0) return 0`.
unfoldable pub with_order : KmemCache → ℕ → Bool × KmemCache
with_order s order =
    let oo = oo_make order s.size s.reserved in
    let dma = if any_set s.flags slab_cache_dma then gfp_dma else 0 in
    let reclaim = if any_set s.flags slab_reclaim_account then gfp_reclaimable else 0 in
    let comp = if order == 0 then 0 else gfp_comp in
    (
      not (oo_objects oo == 0),
      record s {
        allocflags = bit_or (bit_or comp dma) reclaim;
        oo = oo;
        min = oo_make (get_order s.size) s.size s.reserved;
        max = if ltb (oo_objects s.max) (oo_objects oo) then oo else s.max;
      },
    )

unfoldable pub with_some_order : KmemCache → Option ℕ → Bool × KmemCache
with_some_order s none = (false, s)
with_some_order s (some order) = with_order s order

-- `calculate_sizes`, for no forced order, which no caller asks for.
unfoldable pub calculate_sizes : KmemCache → Bool × KmemCache
calculate_sizes s =
    let inner = align_up s.objsize 4 in
    let apart = any_set s.flags slab_keeps_object || has_ctor s in
    let align = calculate_alignment s.flags s.align s.objsize in
    let size = align_up (if apart then inner + 4 else inner) align in
    let s' = record s {
      inuse = inner;
      offset = if apart then inner else s.offset;
      align = align;
      size = size;
    } in
    with_some_order s' (calculate_order size s.reserved)
