-- ===== src/Memblock.antt =====
-- mm/memblock.c and include/Xc/memblock.h: the early allocator's two tables of regions, sorted by
-- base. Addresses are `phys_addr_t`, which is u64. A table's array is a function from indexes, of
-- which the first `cnt` are live.
pub mod Shift
pub mod Separated
pub mod Insert
pub mod Add
pub mod Fuel
pub mod Room
use xc.Common.{
  ℕ, zero, suc, ◌+◌, ◌-◌, Bool, true, false, ◌&&◌, ◌||◌, ltb, leb, ◌==◌, if◌then◌else◌, Array,
  update, add64, sub64,
}

pub record Region : Type 0 where
  pub base : ℕ
  pub size : ℕ

pub record Table : Type 0 where
  pub cnt : ℕ
  pub max : ℕ
  pub regions : Array Region

pub record Memblock : Type 0 where
  pub current_limit : ℕ
  pub memory_size : ℕ
  pub memory : Table
  pub reserved : Table

abbrev pub empty_region : Region
empty_region = record { base = 0; size = 0 }

abbrev pub init_memblock_regions : ℕ
init_memblock_regions = 128

-- The array of a table as `memblock_init` leaves it: one empty region, and the mark behind the end.
unfoldable pub init_table : Table
init_table = record {
  cnt = 1;
  max = init_memblock_regions;
  regions =
      update (λ k. empty_region) init_memblock_regions
        (record { base = 0x09f9_1102_9d74_e35b; size = 0 });
}

-- With the static `init_done`. The arrays of regions are static, so all zero at the first call.
unfoldable pub memblock_init : Bool → Memblock → Bool × Memblock
unfolding init_table
memblock_init true m = (true, m)
memblock_init false m = (
  true,
  record m { current_limit = 0xffff_ffff_ffff_ffff; memory = init_table; reserved = init_table },
)

-- for (i = ...; i < cnt - 1; i++) regions[i] = regions[i + 1], with `n` rounds left.
unfoldable pub shift_down : ℕ → ℕ → Array Region → Array Region
shift_down zero i a = a
shift_down (suc n) i a = shift_down n (suc i) (update a i (a (i + 1)))

unfoldable pub memblock_remove_region : Table → ℕ → Table
memblock_remove_region type r =
    let moved = shift_down (type.cnt - 1 - r) r type.regions in
    if type.cnt - 1 == 0
    then record type { cnt = 1; regions = update moved 0 empty_region }
    else record type { cnt = type.cnt - 1; regions = moved }

unfoldable pub memblock_memory_can_coalesce : ℕ → ℕ → ℕ → ℕ → Bool
memblock_memory_can_coalesce addr1 size1 addr2 size2 = true

-- The loop of `memblock_analyze`, with `n` regions left.
unfoldable pub sum_sizes : ℕ → ℕ → Array Region → ℕ → ℕ
sum_sizes zero i a acc = acc
sum_sizes (suc n) i a acc = sum_sizes n (suc i) a (add64 acc (a i).size)

unfoldable pub memblock_analyze : Memblock → Memblock
memblock_analyze m = record m { memory_size = sum_sizes m.memory.cnt 0 m.memory.regions 0 }

-- What the first loop of `memblock_add_region` leads to: the function returns 0, the loop ends, or it
-- jumps to `new_block`. These two carry the region that is left to insert. `unfinished` is a loop that has
-- not ended with the fuel it had.
pub data Scan : Type 0 where
  returned : Table → Scan
  ended : Table → ℕ → ℕ → Scan
  new_block : Table → ℕ → ℕ → Scan
  unfinished : Table → Scan

-- for (i = ...; i < cnt; i++), with fuel. A round may stretch the region `i` down to `base`, and take it
-- out of the table when the new region reaches past it; `i` then stays, as a region moved there.
unfoldable pub scan : ℕ → Table → ℕ → ℕ → ℕ → ℕ → Scan
scan zero type i end base size = unfinished type
scan (suc fuel) type i end base size =
    let rgn = type.regions i in
    let rend = add64 rgn.base rgn.size in
    let lower : Region = record { base = base; size = sub64 rend base } in
    let extended = record type { regions = update type.regions i lower } in
    let absorb_above =
      scan fuel (memblock_remove_region extended i) i end base
        (add64 (sub64 end rend) (sub64 rend base)) in
    let merge_above =
      if memblock_memory_can_coalesce base (sub64 rend base) rend (sub64 end rend)
      then absorb_above
      else new_block extended rend (sub64 end rend) in
    let absorb_below =
      scan fuel (memblock_remove_region type i) i end rgn.base (add64 size (sub64 base rgn.base)) in
    let skip = scan fuel type (suc i) end base size in
    if leb type.cnt i
    then ended type base size
    else if ltb end rgn.base || rgn.size == 0
    then ended type base size
    else if leb rgn.base base && leb end rend
    then returned type
    else if ltb base rgn.base && leb rgn.base end
    then (if memblock_memory_can_coalesce base size rgn.base rgn.size
        then (if leb end rend then returned extended else merge_above)
        else new_block type base size)
    else if leb base rend && leb rend end
    then (if memblock_memory_can_coalesce rgn.base rgn.size base size
        then absorb_below
        else new_block type base size)
    else skip

pub data Status : Type 0 where
  success failure : Status

-- for (i = n - 1; i >= 0; i--): the regions above `rgn` move up by one.
unfoldable pub insert_loop : ℕ → Region → Array Region → Array Region
insert_loop zero rgn a = a
insert_loop (suc i) rgn a =
    let rest = insert_loop i rgn (update a (i + 1) (a i)) in
    if ltb rgn.base (a i).base then rest else update a (i + 1) rgn

-- The part of `memblock_add_region` from `new_block` on.
unfoldable pub insert_new : Table → ℕ → ℕ → Status × Table
insert_new type base size =
    let rgn : Region = record { base = base; size = size } in
    let a = insert_loop type.cnt rgn type.regions in
    let a' = if ltb base (a 0).base then update a 0 rgn else a in
    if leb type.max type.cnt
    then (failure, type)
    else (success, record type { cnt = type.cnt + 1; regions = a' })

-- The part behind the first loop.
unfoldable pub insert_ended : Table → ℕ → ℕ → Status × Table
insert_ended type base size =
    if type.cnt == 1 && (type.regions 0).size == 0
    then (
      success,
      record type { regions = update type.regions 0 (record { base = base; size = size }) },
    )
    else insert_new type base size

unfoldable pub finish_scan : Scan → Status × Table
finish_scan (returned type) = (success, type)
finish_scan (ended type base size) = insert_ended type base size
finish_scan (new_block type base size) = insert_new type base size
finish_scan (unfinished type) = (failure, type)

unfoldable pub memblock_add_region : Table → ℕ → ℕ → Status × Table
memblock_add_region type base size =
    finish_scan (scan (type.cnt + 2) type 0 (add64 base size) base size)

-- `memblock_add` and `memblock_reserve` add to one table of the allocator.
unfoldable pub memblock_add : Memblock → ℕ → ℕ → Status × Memblock
memblock_add m base size =
    let (status, table) = memblock_add_region m.memory base size in
    (status, record m { memory = table })

unfoldable pub memblock_reserve : Memblock → ℕ → ℕ → Status × Memblock
memblock_reserve m base size =
    let (status, table) = memblock_add_region m.reserved base size in
    (status, record m { reserved = table })

unfoldable pub memblock_x86_reserve_range : Memblock → ℕ → ℕ → Memblock
memblock_x86_reserve_range m start end =
    if start == end then m else (memblock_reserve m start (sub64 end start)).1
