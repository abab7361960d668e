-- ===== src/Ranges.antt =====
-- kernel/range.c and include/Xc/range.h: half-open ranges [start, end) of page frame numbers, in an
-- array of `az` slots. A slot with `end` 0 is vacant. The array is a function from indexes, so an
-- operation returns the array that it leaves; `int` indexes are natural numbers.
pub mod Covers
pub mod Subtract
pub mod Clean
pub mod Fuel
use xc.Common.{
  ℕ, zero, suc, ◌+◌, ◌-◌, ◌%◌, ◌^◌, Bool, ◌&&◌, ltb, leb, ◌==◌, if◌then◌else◌, Array, update,
}
use xc.Sort.{sort}

pub record Range : Type 0 where
  pub start : ℕ
  pub end : ℕ

abbrev pub vacant : Range
vacant = record { start = 0; end = 0 }

-- The new number of ranges, and the array: a range behind the last, if there is room.
unfoldable pub add_range : Array Range → ℕ → ℕ → ℕ → ℕ → ℕ × Array Range
add_range range az nr_range start end =
    if leb end start
    then (nr_range, range)
    else if leb az nr_range
    then (nr_range, range)
    else (nr_range + 1, update range nr_range (record { start = start; end = end }))

-- The scan for a free slot from `i` on, with `n` slots left: the index of the first, or the end.
unfoldable pub find_slot : ℕ → ℕ → Array Range → ℕ
find_slot zero i range = i
find_slot (suc n) i range =
    let rest = find_slot n (suc i) range in if (range i).end == 0 then i else rest

-- A range that [start, end) lies inside of is cut in two: the upper part goes to a free slot.
unfoldable pub split_slot : ℕ → ℕ → ℕ → Array Range → ℕ → Array Range
split_slot az start end range j =
    let i = find_slot az 0 range in
    let range' =
      if ltb i az then update range i (record { start = end; end = (range j).end }) else range in
    update range' j (record { start = (range' j).start; end = start })

-- The body of the loop of `subtract_range` at slot `j`.
unfoldable pub subtract_slot : ℕ → ℕ → ℕ → Array Range → ℕ → Array Range
subtract_slot az start end range j =
    if (range j).end == 0
    then range
    else if leb start (range j).start && leb (range j).end end
    then update range j vacant
    else if leb start (range j).start && (ltb end (range j).end && ltb (range j).start end)
    then update range j (record { start = end; end = (range j).end })
    else if ltb (range j).start start && (leb (range j).end end && ltb start (range j).end)
    then update range j (record { start = (range j).start; end = start })
    else if ltb (range j).start start && ltb end (range j).end
    then split_slot az start end range j
    else range

-- for (j = ...; j < az; j++), with `n` slots left.
unfoldable pub subtract_loop : ℕ → ℕ → ℕ → ℕ → ℕ → Array Range → Array Range
subtract_loop zero j az start end range = range
subtract_loop (suc n) j az start end range =
    subtract_loop n (suc j) az start end (subtract_slot az start end range j)

unfoldable pub subtract_range : Array Range → ℕ → ℕ → ℕ → Array Range
subtract_range range az start end =
    if leb end start then range else subtract_loop az 0 az start end range

-- `cmp_range(x1, x2) < 0`: the difference of two `s64` returned as an `int`, so its low 32 bits.
unfoldable pub cmp_range : Range → Range → Bool
cmp_range r1 r2 = leb (2 ^ 31) ((r1.start + 2 ^ 64 - r2.start) % 2 ^ 32)

-- for (j = i + n; j > i; j--): the last slot in use among the `n` behind `i`, or `i`.
unfoldable pub find_last : ℕ → ℕ → Array Range → ℕ
find_last zero i range = i
find_last (suc n) i range =
    let rest = find_last n i range in if (range (i + suc n)).end == 0 then rest else i + suc n

-- for (; i < k; i++), with fuel: each vacant slot takes the last range in use.
unfoldable pub compact : ℕ → ℕ → ℕ → Array Range → Array Range
compact zero i k range = range
compact (suc fuel) i k range =
    let skip = compact fuel (suc i) k range in
    let j = find_last (k - i) i range in
    let fill = compact fuel (suc i) (j - 1) (update (update range i (range j)) j vacant) in
    if leb k i then range else if (range i).end == 0 then (if j == i then range else fill) else skip

-- The number of ranges, and the array.
unfoldable pub clean_sort_range : Array Range → ℕ → ℕ × Array Range
clean_sort_range range az =
    let range' = compact az 0 (az - 1) range in
    let nr_range = find_slot az 0 range' in (nr_range, sort cmp_range range' nr_range)
