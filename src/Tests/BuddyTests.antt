-- ===== src/Tests/BuddyTests.antt =====
-- mm/page_alloc.c on a zone that starts with no free page.
use xc.Common.{ℕ, ◌+◌, ◌≡◌, refl, arith, [], ◌∷◌, true, false, ◌==◌, some, if◌then◌else◌, total}
use xc.Buddy.{
  Page, Zone, page_compound, free_one_page, free_block, merge, put_block, destroy_compound_page,
  destroy_tails, compound_order, higher_buddy_free, buddy_of, combined_of, find_buddy_index,
  page_is_buddy, set_page_order, rmv_page_order, list_del, list_add, list_add_tail,
  rmqueue_smallest, rmqueue_loop, take_block, expand,
}
use xc.Buddy.Lists.{held, at_order, sum}
use xc.Buddy.ZoneState.{block_hit, free_at, IsZone, free_one_page_lem}
use xc.Buddy.Merged.{IsMerged, free_one_page-IsMerged}
use xc.Buddy.Compound.{IsFreedOrLeft, free_one_page_compound}
use xc.Buddy.Alloc.{IsTaken, rmqueue_smallest_lem, free_one_page-rmqueue_smallest}

abbrev pub used_page : Page
used_page = record {
  zone_id = 0;
  buddy = false;
  private = 0;
  head = false;
  tail = false;
  compound = 0;
}

abbrev pub no_free : Zone
no_free = record { page = λ p. used_page; free_list = λ o t. []; nr_free = λ o. 0 }

no_free-IsZone : IsZone no_free
unfolding at_order sum held total
no_free-IsZone = record {
  consistent = record {
    flagged = λ o p h. refl;
    ordered = λ p e. absurd (ground (arith, e));
    counted = λ o h. refl;
  };
  disjoint = λ q. omega arith;
}

pub no_free-free_at : (q : ℕ) → free_at no_free q ≡ 0
unfolding at_order sum held total
no_free-free_at q = refl

-- Pages 4 and 5 are free.
abbrev pub two_free : Zone
two_free = free_one_page no_free 4 1 0

pub two_free_total :
    IsZone two_free × ((q : ℕ) → free_at two_free q ≡ free_at no_free q + block_hit q 1 4)
two_free_total =
    free_one_page_lem no_free 4 1 0 no_free-IsZone (omega arith) (omega arith) refl
      (λ q low up. no_free-free_at q)

two_free-single : page_compound (two_free.page 6) ≡ false
unfolding free_one_page free_block merge put_block higher_buddy_free buddy_of combined_of
    find_buddy_index page_is_buddy set_page_order rmv_page_order list_del list_add list_add_tail
two_free-single = refl

-- Pages 6 and 7 come back, and the two blocks make one of order 2.
merge_run : (free_one_page two_free 6 1 0).free_list 2 0 ≡ 4 ∷ []
unfolding free_one_page free_block merge put_block higher_buddy_free buddy_of combined_of
    find_buddy_index page_is_buddy set_page_order rmv_page_order list_del list_add list_add_tail
merge_run = refl

no_free-IsMerged : IsMerged no_free
no_free-IsMerged o q h m = absurd (ground (arith, m))

two_free-IsMerged : IsMerged two_free
two_free-IsMerged =
    (free_one_page-IsMerged no_free 4 1 0 no_free-IsZone no_free-IsMerged (omega arith)
      (omega arith) refl (λ q low up. no_free-free_at q)).2

free_one_page-IsMerged_example :
    let z' = free_one_page two_free 6 1 0 in
    IsZone z' × ((q : ℕ) → free_at z' q ≡ free_at two_free q + block_hit q 1 6) × IsMerged z'
free_one_page-IsMerged_example =
    free_one_page-IsMerged two_free 6 1 0 two_free_total.0 two_free-IsMerged (omega arith)
      (omega arith) two_free-single
      (λ q low up. ground (arith, two_free_total.1 q, no_free-free_at q))

rmqueue_smallest_example : IsTaken two_free 0 0 0 (rmqueue_smallest two_free 0 0)
rmqueue_smallest_example =
    rmqueue_smallest_lem two_free 0 0 two_free_total.0 (omega arith) (omega arith)

-- Page 4 is taken from the block of 4 and 5, and page 5 stays free.
abbrev one_free : Zone
one_free = (rmqueue_smallest two_free 0 0).1

one_free_run : rmqueue_smallest two_free 0 0 ≡ (some 4, one_free)
unfolding free_one_page free_block merge put_block higher_buddy_free buddy_of combined_of
    find_buddy_index page_is_buddy set_page_order rmv_page_order list_del list_add list_add_tail
    rmqueue_smallest rmqueue_loop take_block expand
one_free_run = refl

one_free-single : page_compound (one_free.page 4) ≡ false
unfolding free_one_page free_block merge put_block higher_buddy_free buddy_of combined_of
    find_buddy_index page_is_buddy set_page_order rmv_page_order list_del list_add list_add_tail
    rmqueue_smallest rmqueue_loop take_block expand
one_free-single = refl

free_one_page-rmqueue_smallest_example :
    IsZone (free_one_page one_free 4 0 0)
    × ((q : ℕ) → free_at (free_one_page one_free 4 0 0) q ≡ free_at two_free q)
free_one_page-rmqueue_smallest_example =
    free_one_page-rmqueue_smallest two_free one_free 0 0 0 4 two_free_total.0 (omega arith)
      (omega arith) (omega arith) one_free_run one_free-single

-- Pages 4 and 5 are one compound page in use.
abbrev compound_in_use : Zone
compound_in_use = record no_free {
  page = λ p.
      if p == 4
      then record used_page { head = true }
      else if p == 5
      then record used_page { tail = true; private = 4; compound = 1 }
      else used_page;
}

compound_in_use-IsZone : IsZone compound_in_use
unfolding at_order sum held total
compound_in_use-IsZone = record {
  consistent = record {
    flagged = λ o p h. ground arith;
    ordered = λ p e. absurd (ground (arith, e));
    counted = λ o h. refl;
  };
  disjoint = λ q. omega arith;
}

compound_in_use-free_at : (q : ℕ) → free_at compound_in_use q ≡ 0
unfolding at_order sum held total
compound_in_use-free_at q = refl

compound_run : (destroy_compound_page compound_in_use 4 1).0 ≡ 0
unfolding destroy_compound_page destroy_tails compound_order
compound_run = refl

-- The tail page is still marked as one when the pages are free.
compound_tail_run : ((free_one_page compound_in_use 4 1 0).page 5).tail ≡ true
unfolding free_one_page free_block merge put_block higher_buddy_free buddy_of combined_of
    find_buddy_index page_is_buddy set_page_order rmv_page_order list_del list_add list_add_tail
    destroy_compound_page destroy_tails compound_order
compound_tail_run = refl

free_one_page_compound_example :
    IsZone (free_one_page compound_in_use 4 1 0)
    × IsFreedOrLeft compound_in_use 4 1 (free_one_page compound_in_use 4 1 0)
free_one_page_compound_example =
    free_one_page_compound compound_in_use 4 1 0 compound_in_use-IsZone (omega arith) (omega arith)
      refl (λ q low up. compound_in_use-free_at q)
