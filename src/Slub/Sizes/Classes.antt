-- ===== src/Slub/Sizes/Classes.antt =====
-- mm/slub.c: the caches for `kmalloc`, by the size that is asked for.
use xc.Common.{
  [], ℕ, zero, suc, ◌+◌, ◌-◌, ◌*◌, ◌/◌, ◌^◌, ◌≤◌, ◌<◌, ◌≡◌, Bool, true, ◌&&◌, Option, none, some,
  ltb, leb, ◌==◌, if◌then◌else◌, Array, of_list, ◌∷◌, ◌||◌,
}
use xc.Slub.Sizes.{fls, fls_rounds, page_shift}
use xc.Slub.Pages.{page_size}
use xc.Slub.{any_set}

abbrev pub slub_max_size : ℕ
slub_max_size = 2 * page_size

-- SLUB_DMA is __GFP_DMA.
abbrev pub slub_dma : ℕ
slub_dma = 1

abbrev pub slub_page_shift : ℕ
slub_page_shift = page_shift + 2

-- The table, as KMALLOC_MIN_SIZE is 8 and `kmem_cache_init` changes none of it.
abbrev pub size_index : Array ℕ
size_index =
    of_list
      (3 ∷ 4 ∷ 5 ∷ 5 ∷ 6 ∷ 6 ∷ 6 ∷ 6 ∷ 1 ∷ 1 ∷ 1 ∷ 1 ∷ 7 ∷ 7 ∷ 7 ∷ 7 ∷ 2 ∷ 2 ∷ 2 ∷ 2 ∷ 2 ∷ 2 ∷ 2 ∷ 2
        ∷ [])
      0

unfoldable pub size_index_elem : ℕ → ℕ
size_index_elem bytes = (bytes - 1) / 8

-- The index that `get_slab` computes: `none` is the return of ZERO_SIZE_PTR.
unfoldable pub get_slab_index : ℕ → Option ℕ
get_slab_index size =
    if leb size 192
    then if size == 0 then none else some (size_index (size_index_elem size))
    else some (fls (size - 1))

-- An entry of `kmalloc_caches` or of `kmalloc_dma_caches`.
pub data KmallocCache : Type 0 where
  kmalloc_cache : ℕ → KmallocCache
  kmalloc_dma_cache : ℕ → KmallocCache

unfoldable pub cache_at : ℕ → ℕ → KmallocCache
cache_at flags index =
    if any_set flags slub_dma then kmalloc_dma_cache index else kmalloc_cache index

abbrev choose_cache : ℕ → Option ℕ → Option KmallocCache
choose_cache flags none = none
choose_cache flags (some index) = some (cache_at flags index)

unfoldable pub get_slab : ℕ → ℕ → Option KmallocCache
get_slab size flags = choose_cache flags (get_slab_index size)

-- The size of the objects of a cache that `kmem_cache_init` creates.
unfoldable pub kmalloc_size : ℕ → ℕ
kmalloc_size index = if index == 1 then 96 else if index == 2 then 192 else 2 ^ index

-- `kmalloc_index`, for sizes that the compiler knows: `none` is -1.
unfoldable pub kmalloc_index : ℕ → Option ℕ
kmalloc_index size =
    if size == 0
    then some 0
    else if leb size 8
    then some 3
    else if ltb 64 size && leb size 96
    then some 1
    else if ltb 128 size && leb size 192
    then some 2
    else if leb size 16
    then some 4
    else if leb size 32
    then some 5
    else if leb size 64
    then some 6
    else if leb size 128
    then some 7
    else if leb size 256
    then some 8
    else if leb size 512
    then some 9
    else if leb size 1024
    then some 10
    else if leb size 2048
    then some 11
    else if leb size 4096
    then some 12
    else none

-- A test of all numbers below one.
unfoldable pub all_below : ℕ → (ℕ → Bool) → Bool
all_below zero test = true
all_below (suc n) test = test n && all_below n test

-- No class is between `low` and that of `index`.
abbrev gap : ℕ → ℕ → ℕ → Bool
gap low index k = k == 0 || (leb (kmalloc_size k) low || leb (kmalloc_size index) (kmalloc_size k))

-- The table has `index` for the sizes above `low` up to `high`.
abbrev in_table : ℕ → ℕ → ℕ → ℕ → Bool
in_table low high index e = (ltb (8 * e) low || ltb high (8 * e + 8)) || size_index e == index

-- The class `index` serves `size`, and no smaller one does.
abbrev pub IsClass : ℕ → ℕ → Type 0
IsClass size index =
    ((0 < index) × (index < slub_page_shift))
    × ((size ≤ kmalloc_size index)
        × ((other : ℕ)
            → 0 < other
            → other < slub_page_shift
            → size ≤ kmalloc_size other
            → kmalloc_size index ≤ kmalloc_size other))

abbrev Serves : ℕ → Type 0
Serves size = (index : ℕ) × ((get_slab_index size ≡ some index) × IsClass size index)

module _ (size : ℕ) (large : 192 < size) (fits : size ≤ slub_max_size) where
  abbrev top : ℕ
  top = fls_rounds 32 (size - 1)

-- Of the classes, only `index` has objects above `low` up to `high`.
abbrev only : ℕ → ℕ → ℕ → ℕ → Bool
only low high index k =
    k == 0 || ((leb (kmalloc_size k) low || ltb high (kmalloc_size k)) || k == index)
