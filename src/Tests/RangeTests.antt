-- ===== src/Tests/RangeTests.antt =====
-- kernel/range.c and lib/sort.c on an array of four slots.
use xc.Common.{
  [], ℕ, zero, suc, ◌^◌, ◌≤◌, ◌<◌, ◌≡◌, ◌≢◌, refl, inr, arith, ◌∷◌, Array, of_list, total, ltb,
  ◌==◌, if◌then◌else◌,
}
use xc.Sort.{swap, bigger_child, sift, heapify, sort_down, sort}
use xc.Sort.Order.{IsOrder}
use xc.Sort.Sorted.{IsSorted, sort-IsSorted, total-sort}
use xc.Ranges.{
  Range, vacant, find_slot, split_slot, subtract_slot, subtract_loop, subtract_range, cmp_range,
  find_last, compact, clean_sort_range,
}
use xc.Ranges.Covers.{covers}
use xc.Ranges.Subtract.{subtract_range_inside, subtract_range_outside}
use xc.Ranges.Clean.{less_start, total-clean_sort_range, clean_sort_range-IsSorted}

abbrev range_of : ℕ → ℕ → Range
range_of start end = record { start = start; end = end }

abbrev free_pages : Array Range
free_pages = of_list (range_of 20 30 ∷ vacant ∷ range_of 2 9 ∷ vacant ∷ []) vacant

subtract_run : subtract_range free_pages 4 4 6 1 ≡ range_of 6 9
unfolding subtract_range subtract_loop subtract_slot split_slot find_slot
subtract_run = refl

clean_run : (clean_sort_range free_pages 4).0 ≡ 2
unfolding clean_sort_range compact find_last find_slot
clean_run = refl

clean_first : (clean_sort_range free_pages 4).1 0 ≡ range_of 2 9
unfolding clean_sort_range compact find_last find_slot sort sort_down heapify sift bigger_child swap
    cmp_range
clean_first = refl

subtract_range_inside_example : covers 4 (subtract_range free_pages 4 4 6) 5 ≡ 0
subtract_range_inside_example = subtract_range_inside free_pages 4 4 6 5 (omega arith) (omega arith)

subtract_range_outside_example :
    covers 4 (subtract_range free_pages 4 4 6) 7 ≡ covers 4 free_pages 7
unfolding total
subtract_range_outside_example =
    subtract_range_outside free_pages 4 4 6 7 (omega arith) (inr (omega arith))

abbrev length_of : Range → ℕ
length_of r = if r.end == 0 then 0 else 1

total-clean_sort_range_example :
    total length_of (clean_sort_range free_pages 4).0 (clean_sort_range free_pages 4).1
    ≡ total length_of 4 free_pages
total-clean_sort_range_example = total-clean_sort_range free_pages 4 length_of (λ r e. ground arith)

free_pages_near : (k : ℕ) → k < 4 → (free_pages k).start < 2 ^ 31
free_pages_near zero h = omega arith
free_pages_near (suc zero) h = omega arith
free_pages_near (suc (suc zero)) h = omega arith
free_pages_near (suc (suc (suc zero))) h = omega arith
free_pages_near (suc (suc (suc (suc k)))) h = absurd (omega arith)

clean_sort_range-IsSorted_example :
    IsSorted less_start (clean_sort_range free_pages 4).1 (clean_sort_range free_pages 4).0
    × ((k : ℕ)
        → k < (clean_sort_range free_pages 4).0
        → ((clean_sort_range free_pages 4).1 k).end ≢ 0)
    × ((clean_sort_range free_pages 4).0 ≤ 4)
clean_sort_range-IsSorted_example = clean_sort_range-IsSorted free_pages 4 free_pages_near

ltb-IsOrder : IsOrder ltb
ltb-IsOrder = record { asym = λ x y h. ground arith; trans = λ x y z p q. ground arith }

abbrev digits : Array ℕ
digits = of_list (3 ∷ 1 ∷ 4 ∷ 1 ∷ 5 ∷ 9 ∷ []) 0

sort-IsSorted_example : IsSorted ltb (sort ltb digits 6) 6
sort-IsSorted_example = sort-IsSorted ltb ltb-IsOrder digits 6

total-sort_example : total (λ x. x) 6 (sort ltb digits 6) ≡ 23
unfolding total
total-sort_example = total-sort ltb (λ x. x) digits 6
