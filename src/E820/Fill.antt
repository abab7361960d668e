-- ===== src/E820/Fill.antt =====
-- What the early allocator knows as memory once the BIOS map is entered.
use Prim.Native.Nat.{max}
use xc.Common.{
  ℕ, zero, suc, ◌+◌, ◌≤◌, ◌<◌, ◌≡◌, refl, ◌∙◌, inl, inr, arith, true, Bool-cases, if◌then◌else◌,
  Option, none, some, Array, u64_mod,
}
use xc.Memblock.{
  Table, Memblock, Status, success, failure, memblock_add_region, memblock_add, memblock_analyze,
}
use xc.Memblock.Separated.{hit, covers, IsTable}
use xc.Memblock.Insert.{IsAdded}
use xc.Memblock.Add.{memblock_add_region_lem}
use xc.Memblock.Room.{memblock_add_region-cnt}
use xc.E820.{
  E820Entry, E820Map, is_memory, added_or_panic, fill_entry, fill_loop, analyze_filled,
  memblock_x86_fill,
}

-- Whether an entry of memory holds the address.
abbrev pub memory_hit : ℕ → E820Entry → ℕ
memory_hit p ei = if is_memory ei then hit p (record { base = ei.addr; size = ei.size }) else 0

-- Whether one of the first `n` does.
unfoldable pub memory_at : ℕ → Array E820Entry → ℕ → ℕ
memory_at zero map p = 0
memory_at (suc n) map p = max (memory_at n map p) (memory_hit p (map n))

-- The entries of memory are not empty, and do not wrap.
abbrev pub IsProper : ℕ → Array E820Entry → Type 0
IsProper n map =
    (i : ℕ)
    → i < n
    → is_memory (map i) ≡ true
    → (0 < (map i).size) × ((map i).addr + (map i).size < u64_mod)

-- The memory after `n` entries: no panic, and the addresses of the entries added.
abbrev pub IsFilled : Memblock → ℕ → Array E820Entry → Option Memblock → Type 0
IsFilled m n map none = ⊥
IsFilled m n map (some m') =
    IsTable m'.memory
    × (m'.memory.max ≡ m.memory.max)
    × (m'.memory.cnt ≤ m.memory.cnt + n)
    × ((p : ℕ) → covers m'.memory p ≡ max (covers m.memory p) (memory_at n map p))

IsTable-cnt : (type : Table) → IsTable type → 1 ≤ type.cnt
IsTable-cnt type (inl (one, blank)) = omega (arith, one)
IsTable-cnt type (inr (h, v)) = h

module _ (m : Memblock) (map : Array E820Entry) (n : ℕ) (proper : IsProper (suc n) map)
    (wide : 1 < m.memory.max) (room : m.memory.cnt + suc n ≤ m.memory.max) where
  -- An entry that is added.
  added-IsFilled :
      (m' : Memblock) (r : Status × Table)
      → is_memory (map n) ≡ true
      → IsFilled m n map (some m')
      → IsAdded m'.memory (map n).addr ((map n).addr + (map n).size) r
      → r.1.cnt ≤ suc m'.memory.cnt
      → IsFilled m (suc n) map (added_or_panic (r.0, record m' { memory = r.1 }))
  unfolding added_or_panic memory_at
  added-IsFilled m' (success, table) e (v, same, few, covered) (w, same', covered') grown = (
    w,
    same' ∙ same,
    omega (arith, few, grown),
    λ p. rw e (ground (arith, covered p, covered' p)),
  )
  added-IsFilled m' (failure, table) e (v, same, few, covered) (kept, full) grown =
      omega (arith, same, few, full, room)

  fill_entry-IsFilled :
      (r : Option Memblock) → IsFilled m n map r → IsFilled m (suc n) map (fill_entry r (map n))
  unfolding fill_entry memory_at memblock_add
  fill_entry-IsFilled none v = absurd v
  fill_entry-IsFilled (some m') (v, same, few, covered) = elim (Bool-cases (is_memory (map n))) [
    | inr e ↦ rw (e, e) (v, same, omega (arith, few), λ p. omega (arith, covered p))
    | inl e ↦
        let (pos, fit) = proper n (omega arith) e in
        rw e (
          added-IsFilled m' (memblock_add_region m'.memory (map n).addr (map n).size) e
            (v, same, few, covered)
            (memblock_add_region_lem m'.memory (map n).addr (map n).size v
              (omega (arith, same, few, room)) (omega (arith, same, wide)) pos fit)
            (memblock_add_region-cnt m'.memory (map n).addr (map n).size (IsTable-cnt m'.memory v)
              (omega (arith, same, few, room))).0)
  ]

fill_loop-IsFilled :
    (n : ℕ) (map : Array E820Entry) (m : Memblock)
    → IsProper n map
    → IsTable m.memory
    → 1 < m.memory.max
    → m.memory.cnt + n ≤ m.memory.max
    → IsFilled m n map (fill_loop n map m)
unfolding fill_loop memory_at
fill_loop-IsFilled zero map m proper v wide room = (v, refl, omega arith, λ p. omega arith)
fill_loop-IsFilled (suc n) map m proper v wide room =
    fill_entry-IsFilled m map n proper wide room (fill_loop n map m)
      (fill_loop-IsFilled n map m (λ i h. proper i (omega arith)) v wide (omega (arith, room)))

analyzed-IsFilled :
    (m : Memblock) (n : ℕ) (map : Array E820Entry) (r : Option Memblock)
    → IsFilled m n map r
    → IsFilled m n map (analyze_filled r)
unfolding analyze_filled memblock_analyze
analyzed-IsFilled m n map none v = v
analyzed-IsFilled m n map (some m') v = v

-- From a table of memory in order, with a free slot for each entry of the BIOS map, whose entries of memory
-- are not empty and end below 2 ^ 64: `memblock_x86_fill` does not panic, and the table that it leaves is in
-- order and covers, besides what it covered, exactly the addresses of the entries of memory.
pub memblock_x86_fill-IsFilled :
    (e820 : E820Map) (m : Memblock)
    → IsProper e820.nr_map e820.map
    → IsTable m.memory
    → 1 < m.memory.max
    → m.memory.cnt + e820.nr_map ≤ m.memory.max
    → IsFilled m e820.nr_map e820.map (memblock_x86_fill e820 m)
unfolding memblock_x86_fill
memblock_x86_fill-IsFilled e820 m proper v wide room =
    analyzed-IsFilled m e820.nr_map e820.map (fill_loop e820.nr_map e820.map m)
      (fill_loop-IsFilled e820.nr_map e820.map m proper v wide room)
