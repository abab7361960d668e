-- ===== src/Tests/WatermarkTests.antt =====
-- mm/page_alloc.c: the watermark of a small zone, and of one that is all but empty.
use xc.Common.{
  ℕ, zero, suc, ◌+◌, ◌*◌, ◌/◌, ◌^◌, ◌<◌, ◌≡◌, ◌↔◌, refl, arith, true, false, Array, ◌==◌,
  if◌then◌else◌, long_add, long_sub,
}
use xc.Watermark.{
  AllocFlags, long_le, long_div, long_half, watermark_min, watermark_loop, zone_watermark_ok,
}
use xc.Watermark.Enough.{in_small, lowered, zone_watermark_ok_iff, zone_watermark_ok-scarce}

abbrev no_flags : AllocFlags
no_flags = record { high = false; harder = false }

abbrev all_flags : AllocFlags
all_flags = record { high = true; harder = true }

-- Two single pages, a block of two and one of four.
abbrev few : Array ℕ
few o = if o == 0 then 2 else if o == 1 then 1 else if o == 2 then 1 else 0

enough_run : zone_watermark_ok few 1 2 4 all_flags 10 ≡ true
unfolding zone_watermark_ok watermark_loop watermark_min long_add long_sub long_le long_div
    long_half
enough_run = refl

short_run : zone_watermark_ok few 1 2 4 no_flags 10 ≡ false
unfolding zone_watermark_ok watermark_loop watermark_min long_add long_sub long_le long_div
    long_half
short_run = refl

few_small : (o : ℕ) → o < 2 → few o * 2 ^ o < 0x8000_0000
few_small zero h = omega arith
few_small (suc zero) h = omega arith
few_small (suc (suc o)) h = absurd (omega arith)

zone_watermark_ok_iff_example : (zone_watermark_ok few 1 2 4 all_flags 10 ≡ true) ↔ (
    (2 ^ 2 + 1 + lowered 4 all_flags + 1 < 10)
    × ((i : ℕ) → i < 2 → 2 ^ 2 + 1 + in_small few (suc i) + lowered 4 all_flags / 2 ^ (suc i) < 10))
zone_watermark_ok_iff_example =
    zone_watermark_ok_iff few 1 2 4 all_flags 10 (omega arith) (omega arith) (omega arith) few_small

zone_watermark_ok-scarce_example : zone_watermark_ok few 100 0 1000 no_flags 1 ≡ true
zone_watermark_ok-scarce_example =
    zone_watermark_ok-scarce few 100 1000 no_flags 1 (omega arith) (omega arith)
