-- ===== src/Slub/Sizes.antt =====
-- mm/slub.c: how large the slabs and the objects of a cache are, and which cache serves a size.
pub mod Powers
pub mod Classes
pub mod Orders
pub mod Cache
pub mod Plain
use xc.Common.{
  ℕ, zero, suc, ◌+◌, ◌-◌, ◌*◌, ◌/◌, ◌%◌, ◌^◌, Option, none, some, ltb, leb, ◌==◌, if◌then◌else◌,
  long_sub, max, min,
}
use xc.Buddy.{max_order}
use xc.Slub.{KmemCache, oo_shift}
use xc.Slub.Pages.{page_size}

abbrev pub page_shift : ℕ
page_shift = 12

abbrev pub slub_max_order : ℕ
slub_max_order = 3

abbrev pub max_objs_per_page : ℕ
max_objs_per_page = 0x7fff

-- `bsrl` gives the index of the highest bit that is set; for 0 the function gives 0.
unfoldable pub fls_rounds : ℕ → ℕ → ℕ
fls_rounds zero x = 0
fls_rounds (suc n) x = let rest = fls_rounds n (x / 2) in if x == 0 then 0 else rest + 1

unfoldable pub fls : ℕ → ℕ
fls x = fls_rounds 32 x

-- do { size >>= 1; order++; } while (size), with fuel, from the order -1 on.
unfoldable pub get_order_loop : ℕ → ℕ → ℕ → ℕ
get_order_loop zero size order = order
get_order_loop (suc n) size order =
    let rest = get_order_loop n (size / 2) (order + 1) in if size / 2 == 0 then order else rest

unfoldable pub get_order : ℕ → ℕ
get_order size = get_order_loop 32 (long_sub size 1 / 2 ^ (page_shift - 1)) 0

unfoldable pub order_objects : ℕ → ℕ → ℕ → ℕ
order_objects order size reserved = long_sub (page_size * 2 ^ order) reserved / size

unfoldable pub oo_make : ℕ → ℕ → ℕ → ℕ
oo_make order size reserved = order * 2 ^ oo_shift + order_objects order size reserved

-- The loop of `slab_order` over the orders up to `max_order`, with a round for each that is left.
unfoldable pub slab_order_loop : ℕ → (order size min_objects fract_leftover reserved : ℕ) → ℕ
slab_order_loop zero order size min_objects fract_leftover reserved = order
slab_order_loop (suc n) order size min_objects fract_leftover reserved =
    let slab_size = page_size * 2 ^ order in
    let rem = long_sub slab_size reserved % size in
    let next = slab_order_loop n (order + 1) size min_objects fract_leftover reserved in
    if ltb slab_size (min_objects * size + reserved)
    then next
    else if leb rem (slab_size / fract_leftover)
    then order
    else next

-- `slub_min_order` is 0. The first order is no less, also where the difference is negative.
unfoldable pub slab_order : (size min_objects max_order fract_leftover reserved : ℕ) → ℕ
slab_order size min_objects max fract_leftover reserved =
    let first = fls (min_objects * size - 1) - page_shift in
    if ltb max_objs_per_page (order_objects 0 size reserved)
    then get_order (size * max_objs_per_page) - 1
    else slab_order_loop (max + 1 - first) first size min_objects fract_leftover reserved

-- while (fraction >= 4), for 16, 8 and 4.
unfoldable pub try_fractions : (size min_objects reserved : ℕ) → Option ℕ
try_fractions size min_objects reserved =
    let at = λ (fraction : ℕ). slab_order size min_objects slub_max_order fraction reserved in
    if leb (at 16) slub_max_order
    then some (at 16)
    else if leb (at 8) slub_max_order
    then some (at 8)
    else if leb (at 4) slub_max_order
    then some (at 4)
    else none

-- The first order that was returned.
abbrev pub or_else : Option ℕ → Option ℕ → Option ℕ
or_else (some order) rest = some order
or_else none rest = rest

-- while (min_objects > 1), with `n` objects above one.
unfoldable pub try_objects : (n size reserved : ℕ) → Option ℕ
try_objects zero size reserved = none
try_objects (suc n) size reserved =
    or_else (try_fractions size (n + 2) reserved) (try_objects n size reserved)

-- `calculate_order`, for one processor: `none` is -ENOSYS.
unfoldable pub calculate_order : ℕ → ℕ → Option ℕ
calculate_order size reserved =
    let min_objects = min (4 * (fls 1 + 1)) (order_objects slub_max_order size reserved) in
    let one = slab_order size 1 slub_max_order 1 reserved in
    let any = slab_order size 1 max_order 1 reserved in
    or_else (try_objects (min_objects - 1) size reserved)
      (if leb one slub_max_order then some one else if ltb any max_order then some any else none)

abbrev pub min_partial_bound : ℕ
min_partial_bound = 5

abbrev pub max_partial_bound : ℕ
max_partial_bound = 10

unfoldable pub set_min_partial : KmemCache → ℕ → KmemCache
set_min_partial s n = record s {
  min_partial =
      if ltb n min_partial_bound
      then min_partial_bound
      else if ltb max_partial_bound n
      then max_partial_bound
      else n;
}
