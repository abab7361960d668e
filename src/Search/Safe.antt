-- ===== src/Search/Safe.antt =====
-- `memblock_find_in_range` ends, and what it finds is memory that nobody has reserved.
use Prim.Native.Nat.{min, max}
use xc.Common.{
  ℕ, zero, suc, ◌+◌, ◌^◌, ◌≤◌, ◌<◌, ◌≡◌, refl, inl, inr, ◌⊎◌, arith, Option, none, some, ltb, leb,
  ◌==◌, if◌then◌else◌, Bool-cases, Option-cases, u64_mod, add64_exact,
}
use xc.Common.Bits.{IsAligned}
use xc.Memblock.{Table, Memblock}
use xc.Search.{
  memblock_error, page_size, memblock_find_region, find_base_loop, memblock_find_base,
  memblock_find_in_range,
}
use xc.Search.Region.{Fits, IsFree, Found, memblock_find_region_lem}

-- One of the memory regions holds all of [addr, addr + size).
abbrev pub Within : Table → ℕ → ℕ → Type 0
Within memory addr size =
    (i : ℕ) × (i < memory.cnt)
    × ((memory.regions i).base ≤ addr)
    × (addr + size ≤ (memory.regions i).base + (memory.regions i).size)

-- An error, or the base of a free and aligned range of memory in [start, limit).
abbrev pub Placed : Memblock → ℕ → ℕ → ℕ → ℕ → Option ℕ → Type 0
Placed m start size k limit none = ⊥
Placed m start size k limit (some addr) =
    (addr ≡ memblock_error)
    ⊎ ((start ≤ addr)
        × (addr + size ≤ limit)
        × IsAligned k addr
        × IsFree m.reserved addr size
        × Within m.memory addr size)

module _ (m : Memblock) (size start limit k : ℕ) (memory_fits : Fits m.memory)
    (reserved_fits : Fits m.reserved) (k-le : k ≤ 64) (small : limit < u64_mod) where
  Found-Placed :
      (i addr : ℕ)
      → i < m.memory.cnt
      → let rgn = m.memory.regions i in
        let bottom = max rgn.base start in
        let top = min (rgn.base + rgn.size) limit in
        Found m.reserved (if bottom == 0 then page_size else bottom) size k top (some addr)
        → Placed m start size k limit (some addr)
  Found-Placed i addr h (inl e) = inl e
  Found-Placed i addr h (inr (low, high, aligned, free)) =
      inr (ground arith, ground arith, aligned, free, (i, h, ground arith, ground arith))

  find_base_loop-Placed :
      (n : ℕ)
      → n ≤ m.memory.cnt
      → Placed m start size k limit (find_base_loop n m size (2 ^ k) start limit)
  unfolding find_base_loop
  find_base_loop-Placed zero h = inl refl
  find_base_loop-Placed (suc i) h =
      let rgn = m.memory.regions i in
      let rgn_end = rgn.base + rgn.size in
      let sum = add64_exact rgn.base rgn.size (memory_fits i h) in
      let rest = find_base_loop-Placed i (omega arith) in
      let bottom = max rgn.base start in
      let top = min rgn_end limit in
      let found =
        memblock_find_region_lem m.reserved bottom top size k reserved_fits k-le (omega arith) in
      elim (Bool-cases (ltb rgn.size size)) [
        | inl e1 ↦ rw e1 rest
        | inr e1 ↦ elim (Bool-cases (leb rgn_end start)) [
          | inl e2 ↦ rw (sum, e1, e2) (inl refl)
          | inr e2 ↦ elim (Bool-cases (leb top bottom)) [
            | inl e3 ↦ rw (sum, e1, e2, e3) rest
            | inr e3 ↦
                elim (Option-cases (memblock_find_region m.reserved bottom top size (2 ^ k))) [
                  | inl stuck ↦ absurd (rw stuck at found)
                  | inr (addr, got) ↦ elim (Bool-cases (addr == memblock_error)) [
                    | inl e4 ↦ rw (sum, e1, e2, e3, got, e4) rest
                    | inr e4 ↦
                        rw (sum, e1, e2, e3, got, e4) (Found-Placed i addr h (rw got at found))
                  ]
                ]
          ]
        ]
      ]

-- For an alignment that is a power of two, over regions that do not wrap, the search ends. It reports
-- an error, or the base of `size` bytes in [start, end) (up to `current_limit` for an `end` of 0) that
-- lie in one memory region, aligned, with no reserved address among them.
pub memblock_find_in_range_lem :
    (m : Memblock) (start end size k : ℕ)
    → Fits m.memory
    → Fits m.reserved
    → k ≤ 64
    → (if end == 0 then m.current_limit else end) < u64_mod
    → Placed m start size k
        (if end == 0 then m.current_limit else end)
        (memblock_find_in_range m start end size (2 ^ k))
unfolding memblock_find_in_range memblock_find_base
memblock_find_in_range_lem m start end size k memory_fits reserved_fits k-le small =
    find_base_loop-Placed m size start _ k memory_fits reserved_fits k-le small m.memory.cnt
      (omega arith)
