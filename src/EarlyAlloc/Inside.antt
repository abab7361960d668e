-- ===== src/EarlyAlloc/Inside.antt =====
-- What the early allocation finds is memory of the node, free and inside the bounds.
use Prim.Native.Nat.{min, max}
use xc.Common.{
  ℕ, zero, suc, ◌+◌, ◌*◌, ◌%◌, ◌^◌, ◌≤◌, ◌<◌, ◌≡◌, ◌⊎◌, refl, inl, inr, arith, Option, none, some,
  Option-cases, Bool-cases, leb, ◌==◌, true, false, u64_mod,
}
use xc.Memblock.{Memblock}
use xc.Search.{memblock_error, page_size, memblock_find_in_range}
use xc.Search.Region.{Fits, IsFree}
use xc.Search.Safe.{Placed, memblock_find_in_range_lem}
use xc.NodeMap.{NodeMap, in_nid}
use xc.EarlyAlloc.{
  index_below, last_active_region_index_in_nid, previous_active_region_index_in_nid,
  find_memory_loop, find_memory_core_early,
}

-- An error, or the base of `size` bytes in an entry of the node, not below `goal` nor past `limit`, which
-- no reserved region holds.
abbrev pub IsInside : Memblock → NodeMap → ℕ → ℕ → ℕ → ℕ → Option ℕ → Type 0
IsInside m map nid size goal limit none = ⊥
IsInside m map nid size goal limit (some addr) =
    (addr ≡ memblock_error)
    ⊎ ((goal ≤ addr)
        × (addr + size ≤ limit)
        × IsFree m.reserved addr size
        × ((i : ℕ) × (i < map.nr)
            × (in_nid nid (map.entries i) ≡ true)
            × ((map.entries i).start_pfn * page_size ≤ addr)
            × (addr + size ≤ (map.entries i).end_pfn * page_size)))

-- What the scan down tells.
Below : NodeMap → ℕ → ℕ → Option ℕ → Type 0
Below map nid n none = 0 ≤ n
Below map nid n (some i) = (i < n) × (in_nid nid (map.entries i) ≡ true)

index_below-Below : (n : ℕ) (map : NodeMap) (nid : ℕ) → Below map nid n (index_below n map nid)
unfolding index_below Below
index_below-Below zero map nid = omega arith
index_below-Below (suc n) map nid = elim (Bool-cases (in_nid nid (map.entries n))) [
  | inl e ↦ rw e (omega arith, e)
  | inr e ↦ rw e (up (index_below n map nid) (index_below-Below n map nid))
]
  where
    up : (o : Option ℕ) → Below map nid n o → Below map nid (suc n) o
    up none b = omega arith
    up (some i) b = (omega (arith, b.0), b.1)

module _ (m : Memblock) (map : NodeMap) (nid size k goal limit : ℕ) (memory_fits : Fits m.memory)
    (reserved_fits : Fits m.reserved) (k-le : k ≤ 64) (small : limit < u64_mod)
    (ends : (i : ℕ)
      → i < map.nr
      → ((map.entries i).start_pfn * page_size < u64_mod)
        × ((map.entries i).end_pfn * page_size < u64_mod)) where
  entry-IsInside :
      (i addr : ℕ)
      → i < map.nr
      → in_nid nid (map.entries i) ≡ true
      → Placed m
          (max ((map.entries i).start_pfn * page_size) goal)
          size
          k
          (min ((map.entries i).end_pfn * page_size) limit)
          (some addr)
      → IsInside m map nid size goal limit (some addr)
  entry-IsInside i addr h mine (inl e) = inl e
  entry-IsInside i addr h mine (inr (low, high, aligned, free, memory)) = inr (
    omega (arith, low),
    omega (arith, high),
    free,
    (i, h, mine, omega (arith, low), omega (arith, high)),
  )

  loop-IsInside :
      (fuel n : ℕ) (i : Option ℕ)
      → n < fuel
      → n ≤ map.nr
      → Below map nid n i
      → IsInside m map nid size goal limit
          (find_memory_loop fuel m map nid size (2 ^ k) goal limit i)
  unfolding find_memory_loop Below previous_active_region_index_in_nid
  loop-IsInside zero n i h le b = absurd (omega arith)
  loop-IsInside (suc fuel) n none h le b = inl refl
  loop-IsInside (suc fuel) n (some i) h le (low, mine) =
      let first = (map.entries i).start_pfn * page_size in
      let last = (map.entries i).end_pfn * page_size in
      let (first_fits, last_fits) = ends i (omega arith) in
      let first_exact : first % u64_mod ≡ first = omega (arith, first_fits) in
      let last_exact : last % u64_mod ≡ last = omega (arith, last_fits) in
      let from = max first goal in
      let to = min last limit in
      let rest =
        loop-IsInside fuel i (index_below i map nid) (omega arith) (omega arith)
          (index_below-Below i map nid) in
      elim (Bool-cases (leb to from)) [
        | inl e ↦ rw (first_exact, last_exact, e) rest
        | inr e ↦
            let bounded : (to == 0) ≡ false = ground arith in
            let placed : Placed m from size k to (memblock_find_in_range m from to size (2 ^ k)) =
              rw bounded at (
                memblock_find_in_range_lem m from to size k memory_fits reserved_fits k-le
                  (rw bounded (omega (arith, small)))) in
            elim (Option-cases (memblock_find_in_range m from to size (2 ^ k))) [
              | inl stuck ↦ absurd (rw stuck at placed)
              | inr (addr, got) ↦ elim (Bool-cases (addr == memblock_error)) [
                | inl q ↦ rw (first_exact, last_exact, e, got, q) rest
                | inr q ↦
                    rw (first_exact, last_exact, e, got, q)
                      (entry-IsInside i addr (omega arith) mine (rw got at placed))
              ]
            ]
      ]

  -- On regions that do not wrap, for entries that end below 2 ^ 64 bytes and an alignment that is a power
  -- of two: the early allocation ends. It reports an error, or the base of `size` bytes in an entry of
  -- the node, not below `goal` nor past `limit`, which no reserved region holds.
  pub find_memory_core_early-IsInside :
      IsInside m map nid size goal limit (find_memory_core_early m map nid size (2 ^ k) goal limit)
  unfolding find_memory_core_early last_active_region_index_in_nid
  find_memory_core_early-IsInside =
      loop-IsInside (suc map.nr) map.nr (index_below map.nr map nid) (omega arith) (omega arith)
        (index_below-Below map.nr map nid)
