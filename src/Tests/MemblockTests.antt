-- ===== src/Tests/MemblockTests.antt =====
-- mm/memblock.c on a table of two regions.
use xc.Common.{
  true, [], ℕ, zero, suc, ◌+◌, ◌<◌, ◌≡◌, refl, inr, arith, ◌∷◌, of_list, add64, sub64, some,
}
use xc.Memblock.{
  Region, Table, Memblock, empty_region, memblock_remove_region, shift_down, scan, finish_scan,
  insert_ended, insert_new, insert_loop, memblock_memory_can_coalesce, memblock_add_region,
}
use xc.Memblock.Separated.{IsSeparated}
use xc.Memblock.Insert.{IsAdded}
use xc.Memblock.Add.{memblock_add_region_lem}
use xc.Memblock.Fuel.{is_finished, scan_finished}
use xc.Search.{
  memblock_addrs_overlap, memblock_align_down, overlap_loop, memblock_overlaps_region,
  find_region_loop, memblock_find_region, find_base_loop, memblock_find_base,
  memblock_find_in_range,
}
use xc.Search.Region.{Fits}
use xc.Search.Safe.{Placed, memblock_find_in_range_lem}

abbrev region_of : ℕ → ℕ → Region
region_of base size = record { base = base; size = size }

abbrev two_regions : Table
two_regions = record {
  cnt = 2;
  max = 128;
  regions = of_list (region_of 0x1000 0x1000 ∷ region_of 0x4000 0x2000 ∷ []) empty_region;
}

below_two : (P : ℕ → Type 0) → P 0 → P 1 → (k : ℕ) → k < 2 → P k
below_two P p q zero h = p
below_two P p q (suc zero) h = q
below_two P p q (suc (suc k)) h = absurd (omega arith)

two_regions-IsSeparated : IsSeparated two_regions.regions 2
two_regions-IsSeparated = record {
  filled = below_two _ (omega arith) (omega arith);
  fits = below_two _ (omega arith) (omega arith);
  apart = λ j k p q. apart j k p q;
}
  where
    apart :
        (j k : ℕ)
        → j < k
        → k < 2
        → (two_regions.regions j).base + (two_regions.regions j).size < (two_regions.regions k).base
    apart j zero p q = absurd (omega arith)
    apart zero (suc zero) p q = omega arith
    apart (suc j) (suc zero) p q = absurd (omega arith)
    apart j (suc (suc k)) p q = absurd (omega arith)

-- The gap between the two regions is filled, and one region is left.
merge_run : (memblock_add_region two_regions 0x1800 0x2800).1.regions 0 ≡ region_of 0x1000 0x5000
unfolding memblock_add_region scan finish_scan insert_ended insert_new insert_loop
    memblock_remove_region shift_down memblock_memory_can_coalesce add64 sub64
merge_run = refl

memblock_add_region_example :
    IsAdded two_regions 0x1800 0x4000 (memblock_add_region two_regions 0x1800 0x2800)
memblock_add_region_example =
    memblock_add_region_lem two_regions 0x1800 0x2800 (inr (omega arith, two_regions-IsSeparated))
      (omega arith) (omega arith) (omega arith) (omega arith)

abbrev booted : Memblock
booted = record {
  current_limit = 0xffff_ffff_ffff_ffff;
  memory_size = 0;
  memory = record {
    cnt = 1;
    max = 128;
    regions = of_list (region_of 0 0x10_0000 ∷ []) empty_region;
  };
  reserved = two_regions;
}

find_run : memblock_find_in_range booted 0 0x5000 0x1000 0x1000 ≡ some 0x3000
unfolding memblock_find_in_range memblock_find_base find_base_loop memblock_find_region
    find_region_loop memblock_overlaps_region overlap_loop memblock_addrs_overlap
    memblock_align_down add64 sub64 xc.Common.not64
find_run = refl

two_regions-Fits : Fits two_regions
two_regions-Fits = two_regions-IsSeparated.fits

booted-Fits : Fits booted.memory
booted-Fits zero h = omega arith
booted-Fits (suc k) h = absurd (omega arith)

memblock_find_in_range_example :
    Placed booted 0 0x1000 12 0x5000 (memblock_find_in_range booted 0 0x5000 0x1000 0x1000)
memblock_find_in_range_example =
    memblock_find_in_range_lem booted 0 0x5000 0x1000 12 booted-Fits two_regions-Fits (omega arith)
      (omega arith)

scan_finished_example : is_finished (scan 4 two_regions 0 0x4000 0x1800 0x2800) ≡ true
scan_finished_example =
    scan_finished 4 two_regions 0 0x4000 0x1800 0x2800 (omega arith) (omega arith)
