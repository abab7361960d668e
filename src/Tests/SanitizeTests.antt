-- ===== src/Tests/SanitizeTests.antt =====
-- kernel/e820.c: a reserved entry inside an entry of memory.
use xc.Common.{ℕ, ◌≡◌, refl, Option, none, some, [], ◌∷◌, Array, of_list, add64, sub64}
use xc.Sort.{swap}
use xc.E820.{E820Entry}
use xc.E820.Sanitize.{
  ChangeMember, push, is_reasonable, record_changes, comes_before, bubble_pass, bubble_sort,
  drop_overlap, track_overlap, greatest_type, close_entry, open_entry, build_point, build_points,
  copy_entries, sanitize_e820_map,
}
use xc.E820.Sanitize.Bubble.{IsSortedOf, bubble_sort-IsSorted}

abbrev entry : ℕ → ℕ → ℕ → E820Entry
entry addr size type = record { addr = addr; size = size; type = type }

abbrev overlapping : Array E820Entry
overlapping = of_list (entry 0x2000 0x1000 2 ∷ entry 0 0x8000 1 ∷ []) (entry 0 0 0)

abbrev point : ℕ → ℕ → ChangeMember
point pbios addr = record { pbios = pbios; addr = addr }

-- The entry of memory is cut in two.
abbrev result : Option (Array E820Entry × ℕ) → ℕ → E820Entry × ℕ
result none k = (entry 0 0 0, 0)
result (some (entries, nr)) k = (entries k, nr)

cut_run :
    result (sanitize_e820_map (λ k. point 0 0) (λ k. 0) (λ k. entry 0 0 0) overlapping 128 2) 2
    ≡ (entry 0x3000 0x5000 1, 3)
unfolding sanitize_e820_map push is_reasonable record_changes comes_before bubble_pass bubble_sort
    drop_overlap track_overlap greatest_type close_entry open_entry build_point build_points
    copy_entries add64 sub64 swap
cut_run = refl

abbrev points : Array ChangeMember
points = of_list (point 0 0x2000 ∷ point 0 0x3000 ∷ point 1 0 ∷ point 1 0x8000 ∷ []) (point 0 0)

bubble_sort-IsSorted_example :
    IsSortedOf overlapping 4 points (bubble_sort (comes_before overlapping) 4 4 points)
bubble_sort-IsSorted_example = bubble_sort-IsSorted overlapping 4 points
