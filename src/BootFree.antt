-- ===== src/BootFree.antt =====
-- mm/nobootmem.c: how a range of free pages goes to the page allocator, page by page up to the first
-- page whose number is a multiple of BITS_PER_LONG, then in blocks of that many pages, then page by page.
pub mod Once
use Prim.Native.Nat.{bit_and}
use xc.Common.{ℕ, zero, suc, ◌+◌, ◌-◌, ◌%◌, List, [], ◌∷◌, ◌++◌, leb, ltb, if◌then◌else◌}

-- A call of `__free_pages_bootmem`.
pub record Freed : Type 0 where
  pub pfn : ℕ
  pub order : ℕ

-- On the 32-bit machine that the kernel is for; `block_order` is `ilog2(BITS_PER_LONG)`.
abbrev pub bits_per_long : ℕ
bits_per_long = 32

abbrev pub block_order : ℕ
block_order = 5

abbrev pub ulong_mod : ℕ
ulong_mod = 0x1_0000_0000

-- x & ~(BITS_PER_LONG - 1)
unfoldable pub long_down : ℕ → ℕ
long_down x = bit_and x (ulong_mod - 1 - (bits_per_long - 1))

-- for (i = ...; i < end; i++), with `n` pages left.
unfoldable pub free_pages : ℕ → ℕ → List Freed
free_pages zero i = []
free_pages (suc n) i = record { pfn = i; order = 0 } ∷ free_pages n (i + 1)

-- for (i = ...; i < end; i += BITS_PER_LONG), with fuel.
unfoldable pub free_blocks : ℕ → ℕ → ℕ → List Freed
free_blocks zero i end = []
free_blocks (suc fuel) i end =
    let rest = free_blocks fuel (i + bits_per_long) end in
    if ltb i end then record { pfn = i; order = block_order } ∷ rest else []

unfoldable pub free_pages_memory : ℕ → ℕ → List Freed
free_pages_memory start end =
    let start_aligned = long_down ((start + (bits_per_long - 1)) % ulong_mod) in
    let end_aligned = long_down end in
    if leb end_aligned start_aligned
    then free_pages (end - start) start
    else free_pages (start_aligned - start) start
      ++ (free_blocks (end_aligned - start_aligned) start_aligned end_aligned
          ++ free_pages (end - end_aligned) end_aligned)
