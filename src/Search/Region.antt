-- ===== src/Search/Region.antt =====
-- `memblock_find_region` ends, and what it finds is free, aligned and in range.
use xc.Common.{
  ℕ, zero, suc, ◌+◌, ◌^◌, ◌≤◌, ◌<◌, ◌≡◌, refl, inl, inr, ◌⊎◌, arith, Option, none, some, ltb, leb,
  ◌==◌, if◌then◌else◌, ==_iff, ltb-false, Bool-cases, Option-cases, total_zero, u64_mod, sub64,
  add64_exact, sub64_exact,
}
use xc.Common.Bits.{bit_and-le, IsAligned, not64-IsAligned, bit_and-IsAligned}
use xc.Memblock.{Table}
use xc.Memblock.Separated.{hit, covers}
use xc.Search.{
  memblock_error, page_size, memblock_addrs_overlap, memblock_align_down, overlap_loop,
  memblock_overlaps_region, find_region_loop, memblock_find_region,
}

-- No live region wraps.
abbrev pub Fits : Table → Type 0
Fits type = (k : ℕ) → k < type.cnt → (type.regions k).base + (type.regions k).size < u64_mod

-- No live region holds an address of [base, base + size).
abbrev pub IsFree : Table → ℕ → ℕ → Type 0
IsFree type base size = (p : ℕ) → base ≤ p → p < base + size → covers type p ≡ 0

align_down-le : (addr size : ℕ) → memblock_align_down addr size ≤ addr
unfolding memblock_align_down
align_down-le addr size = bit_and-le addr _

align_down-IsAligned : (k addr : ℕ) → k ≤ 64 → IsAligned k (memblock_align_down addr (2 ^ k))
unfolding memblock_align_down
align_down-IsAligned k addr h = bit_and-IsAligned k addr _ (not64-IsAligned k h)

-- What the search for an overlap tells.
abbrev Overlaps : Table → ℕ → ℕ → ℕ → Type 0
Overlaps type base size k =
    (base < (type.regions k).base + (type.regions k).size) × ((type.regions k).base < base + size)

overlap_some :
    (n i : ℕ) (type : Table) (base size j : ℕ)
    → Fits type
    → i + n ≡ type.cnt
    → base + size < u64_mod
    → overlap_loop n i type base size ≡ some j
    → (j < type.cnt) × Overlaps type base size j
unfolding overlap_loop memblock_addrs_overlap
overlap_some zero i type base size j fits e fit found = cc
overlap_some (suc n) i type base size j fits e fit found = ground (
  arith,
  add64_exact (type.regions i).base (type.regions i).size (fits i (omega arith)),
  add64_exact base size fit,
  overlap_some n (suc i) type base size j fits (omega arith) fit,
)

overlap_none :
    (n i : ℕ) (type : Table) (base size k : ℕ)
    → Fits type
    → i + n ≡ type.cnt
    → base + size < u64_mod
    → overlap_loop n i type base size ≡ none
    → i ≤ k
    → k < type.cnt
    → ¬ Overlaps type base size k
unfolding overlap_loop memblock_addrs_overlap
overlap_none zero i type base size k fits e fit none_found p q = absurd (omega arith)
overlap_none (suc n) i type base size k fits e fit none_found p q = elim (Bool-cases (k == i)) [
  | inl same ↦
      let same' : k ≡ i = (==_iff k i).0 same in
      ground (
        arith,
        add64_exact (type.regions i).base (type.regions i).size (fits i (omega arith)),
        add64_exact base size fit,
      )
  | inr more ↦ ground (arith, overlap_none n (suc i) type base size k fits (omega arith) fit)
]

-- The range is free when the search for an overlap finds none.
overlap_none-IsFree :
    (type : Table) (base size : ℕ)
    → Fits type
    → base + size < u64_mod
    → memblock_overlaps_region type base size ≡ none
    → IsFree type base size
unfolding memblock_overlaps_region
overlap_none-IsFree type base size fits fit none_found p low high =
    total_zero (hit p) type.cnt type.regions (λ k q. ground (
      arith,
      overlap_none type.cnt 0 type base size k fits (omega arith) fit none_found (omega arith) q,
    ))

-- The result of the search below `limit`: an error, or the base of a free range.
abbrev pub Found : Table → ℕ → ℕ → ℕ → ℕ → Option ℕ → Type 0
Found reserved start size k limit none = ⊥
Found reserved start size k limit (some addr) =
    (addr ≡ memblock_error)
    ⊎ ((start ≤ addr) × (addr + size ≤ limit) × IsAligned k addr × IsFree reserved addr size)

module _ (reserved : Table) (start size : ℕ) (k : ℕ) (k-le : k ≤ 64) (fits : Fits reserved) where
  overlaps_at :
      (base j : ℕ)
      → memblock_overlaps_region reserved base size ≡ some j
      → overlap_loop reserved.cnt 0 reserved base size ≡ some j
  unfolding memblock_overlaps_region
  overlaps_at base j h = h

  find_region_loop-Found :
      (fuel limit base : ℕ)
      → base < fuel
      → base + size ≤ limit
      → limit < u64_mod
      → IsAligned k base
      → Found reserved start size k limit (find_region_loop fuel reserved start size (2 ^ k) base)
  unfolding find_region_loop
  find_region_loop-Found zero limit base enough fit small aligned = absurd (omega arith)
  find_region_loop-Found (suc fuel) limit base enough fit small aligned =
      elim (Bool-cases (leb start base)) [
        | inr e ↦ rw e (inl refl)
        | inl e ↦ elim (Option-cases (memblock_overlaps_region reserved base size)) [
          | inl free ↦
              rw (e, free)
                (inr (
                  ground arith,
                  fit,
                  aligned,
                  overlap_none-IsFree reserved base size fits (omega arith) free,
                ))
          | inr (j, hit_at) ↦
              let res_base = (reserved.regions j).base in
              elim (Bool-cases (ltb res_base size)) [
                | inl stop ↦ rw (e, hit_at, stop) (inl refl)
                | inr go ↦
                    let (in_table, over) =
                      overlap_some reserved.cnt 0 reserved base size j fits (omega arith)
                        (omega arith) (overlaps_at base j hit_at) in
                    let room = ltb-false res_base size go in
                    let next = sub64 res_base size in
                    let exact =
                      sub64_exact res_base size (omega (arith, fits j in_table)) (ground arith) in
                    let down = align_down-le next (2 ^ k) in
                    rw (e, hit_at, go)
                      (find_region_loop-Found fuel limit (memblock_align_down next (2 ^ k))
                        (omega (arith, over, down, exact, room))
                        (omega (arith, over, down, exact, room)) small
                        (align_down-IsAligned k next k-le))
              ]
        ]
      ]

-- For an alignment that is a power of two, over reserved regions that do not wrap, the search of
-- [start, end) ends. It reports an error, or the base of a free range of `size` bytes that lies in
-- [start, end) (for a `start` of 0, from the second page on), aligned, with no reserved address in it.
pub memblock_find_region_lem :
    (reserved : Table) (start end size k : ℕ)
    → Fits reserved
    → k ≤ 64
    → end < u64_mod
    → Found reserved
        (if start == 0 then page_size else start)
        size
        k
        end
        (memblock_find_region reserved start end size (2 ^ k))
unfolding memblock_find_region
memblock_find_region_lem reserved start end size k fits k-le small =
    elim (Bool-cases (ltb end size)) [
      | inl e ↦ rw e (inl refl)
      | inr e ↦
          let room = ltb-false end size e in
          let top = sub64 end size in
          let down = align_down-le top (2 ^ k) in
          rw e (
            find_region_loop-Found reserved (if start == 0 then page_size else start) size k k-le
              fits (suc (memblock_align_down top (2 ^ k))) end (memblock_align_down top (2 ^ k))
              (omega arith) (omega (arith, down, room, sub64_exact end size small room)) small
              (align_down-IsAligned k top k-le))
    ]
