-- ===== src/E820.antt =====
-- The BIOS memory map of kernel/e820.c, once its overlaps are gone: the memory that it gives to the early
-- allocator, and the last page frame of a type. Addresses are u64; `resource_size_t` is as wide, so that
-- the test of an end against it always passes.
pub mod Fill
pub mod EndPfn
pub mod Sanitize
use Prim.Native.Nat.{min, max}
use xc.Common.{
  ℕ, zero, suc, ◌+◌, ◌/◌, ◌%◌, Bool, not, ◌&&◌, ◌||◌, Option, none, some, ltb, leb, ◌==◌,
  if◌then◌else◌, Array, add64, long_mod,
}
use xc.Memblock.{Memblock, Status, success, failure, memblock_add, memblock_analyze}

abbrev pub e820_ram : ℕ
e820_ram = 1

abbrev pub e820_reserved_kern : ℕ
e820_reserved_kern = 128

pub record E820Entry : Type 0 where
  pub addr : ℕ
  pub size : ℕ
  pub type : ℕ

pub record E820Map : Type 0 where
  pub nr_map : ℕ
  pub map : Array E820Entry

unfoldable pub is_memory : E820Entry → Bool
is_memory ei = ei.type == e820_ram || ei.type == e820_reserved_kern

-- What follows a call of `memblock_add`: `none` is the panic.
unfoldable pub added_or_panic : Status × Memblock → Option Memblock
added_or_panic (success, m) = some m
added_or_panic (failure, m) = none

unfoldable pub fill_entry : Option Memblock → E820Entry → Option Memblock
fill_entry none ei = none
fill_entry (some m) ei =
    if not (is_memory ei) then some m else added_or_panic (memblock_add m ei.addr ei.size)

-- for (i = 0; i < nr_map; i++), after `n` entries.
unfoldable pub fill_loop : ℕ → Array E820Entry → Memblock → Option Memblock
fill_loop zero map m = some m
fill_loop (suc n) map m = fill_entry (fill_loop n map m) (map n)

unfoldable pub analyze_filled : Option Memblock → Option Memblock
analyze_filled none = none
analyze_filled (some m) = some (memblock_analyze m)

unfoldable pub memblock_x86_fill : E820Map → Memblock → Option Memblock
memblock_x86_fill e820 m = analyze_filled (fill_loop e820.nr_map e820.map m)

-- 1ULL << (32 - PAGE_SHIFT)
abbrev pub max_arch_pfn : ℕ
max_arch_pfn = 0x10_0000

-- A page frame number of an address, as an unsigned long.
unfoldable pub pfn_of : ℕ → ℕ
pfn_of addr = addr / 0x1000 % long_mod

-- for (i = ...; i < nr_map; i++), with `n` entries left.
unfoldable pub end_pfn_loop : ℕ → ℕ → Array E820Entry → ℕ → ℕ → ℕ → ℕ
end_pfn_loop zero i map limit_pfn type last_pfn = last_pfn
end_pfn_loop (suc n) i map limit_pfn type last_pfn =
    let ei = map i in
    let start_pfn = pfn_of ei.addr in
    let end_pfn = pfn_of (add64 ei.addr ei.size) in
    let same = end_pfn_loop n (suc i) map limit_pfn type last_pfn in
    let further = end_pfn_loop n (suc i) map limit_pfn type end_pfn in
    if not (ei.type == type)
    then same
    else if leb limit_pfn start_pfn
    then same
    else if ltb limit_pfn end_pfn
    then limit_pfn
    else if ltb last_pfn end_pfn
    then further
    else same

unfoldable pub e820_end_pfn : E820Map → ℕ → ℕ → ℕ
e820_end_pfn e820 limit_pfn type =
    let last_pfn = end_pfn_loop e820.nr_map 0 e820.map limit_pfn type 0 in
    if ltb max_arch_pfn last_pfn then max_arch_pfn else last_pfn

unfoldable pub e820_end_of_ram_pfn : E820Map → ℕ
e820_end_of_ram_pfn e820 = e820_end_pfn e820 max_arch_pfn e820_ram
