-- ===== src/Watermark.antt =====
-- mm/page_alloc.c, `__zone_watermark_ok`: whether a zone has free pages enough for a block. A `long` is
-- its 32 bits; the second comparison is signed, and the first one is unsigned, since the reserve is an
-- `unsigned long`.
pub mod Enough
use xc.Common.{
  ℕ, zero, suc, ◌+◌, ◌-◌, ◌*◌, ◌/◌, ◌%◌, ◌^◌, Bool, true, false, leb, ltb, if◌then◌else◌, Array,
  long_mod, long_add, long_sub,
}

abbrev pub long_sign : ℕ
long_sign = 0x8000_0000

-- a <= b, on signed numbers.
unfoldable pub long_le : ℕ → ℕ → Bool
long_le a b = leb ((a + long_sign) % long_mod) ((b + long_sign) % long_mod)

-- a / n, which rounds to zero.
unfoldable pub long_div : ℕ → ℕ → ℕ
long_div a n = if ltb a long_sign then a / n else long_sub 0 (long_sub 0 a / n)

-- a >> 1, which keeps the sign.
unfoldable pub long_half : ℕ → ℕ
long_half a = if ltb a long_sign then a / 2 else (a + long_mod) / 2

-- ALLOC_HIGH and ALLOC_HARDER.
pub record AllocFlags : Type 0 where
  pub high : Bool
  pub harder : Bool

unfoldable pub watermark_min : ℕ → AllocFlags → ℕ
watermark_min mark flags =
    let min = if flags.high then long_sub mark (long_div mark 2) else mark in
    if flags.harder then long_sub min (long_div min 4) else min

-- for (o = 0; o < order; o++), with `n` orders left.
unfoldable pub watermark_loop : ℕ → ℕ → Array ℕ → ℕ → ℕ → Bool
watermark_loop zero o nr_free free_pages min = true
watermark_loop (suc n) o nr_free free_pages min =
    let free_pages' = long_sub free_pages (nr_free o * 2 ^ o) in
    let min' = long_half min in
    let rest = watermark_loop n (suc o) nr_free free_pages' min' in
    if long_le free_pages' min' then false else rest

-- `nr_free` has the counters of the zone's orders, and `reserve` is lowmem_reserve[classzone_idx].
unfoldable pub zone_watermark_ok : Array ℕ → ℕ → ℕ → ℕ → AllocFlags → ℕ → Bool
zone_watermark_ok nr_free reserve order mark flags free =
    let free_pages = long_sub free (2 ^ order + 1) in
    let min = watermark_min mark flags in
    if leb free_pages (long_add min reserve)
    then false
    else watermark_loop order 0 nr_free free_pages min
