-- ===== src/Tests/FallbackTests.antt =====
-- mm/page_alloc.c: a movable page is asked for, and only unmovable pages are free.
use xc.Common.{◌≡◌, refl, arith, some, false}
use xc.Buddy.{
  free_one_page, free_block, merge, put_block, higher_buddy_free, buddy_of, combined_of,
  find_buddy_index, page_is_buddy, set_page_order, rmv_page_order, list_del, list_add,
  list_add_tail, rmqueue_smallest, rmqueue_loop, take_block, expand,
}
use xc.Fallback.{
  Area, rmqueue, or_fallback, or_reserve, with_zone, rmqueue_fallback, rmqueue_fallback_loop,
  find_fallback, take_fallback, takes_pageblock, fallbacks, migrate_movable,
}
use xc.Fallback.Taken.{IsGot, rmqueue_lem}
use xc.Tests.BuddyTests.{two_free, two_free_total}

abbrev pub two_area : Area
two_area = record {
  zone = two_free;
  zone_start_pfn = 0;
  spanned_pages = 1024;
  pageblock_flags = λ i. 0;
  mobility_disabled = false;
}

-- Page 4 is taken, and its list is the unmovable one: the pages of the block do not move.
fallback_run : (rmqueue two_area 0 migrate_movable).0 ≡ some 4
unfolding free_one_page free_block merge put_block higher_buddy_free buddy_of combined_of
    find_buddy_index page_is_buddy set_page_order rmv_page_order list_del list_add list_add_tail
    rmqueue_smallest rmqueue_loop take_block expand rmqueue or_fallback or_reserve with_zone
    rmqueue_fallback rmqueue_fallback_loop find_fallback take_fallback takes_pageblock fallbacks
fallback_run = refl

rmqueue_lem_example : IsGot two_area 0 migrate_movable (rmqueue two_area 0 migrate_movable)
rmqueue_lem_example =
    rmqueue_lem two_area 0 migrate_movable (two_free_total.0) (omega arith) (omega arith)
