-- ===== src/Fallback.antt =====
-- mm/page_alloc.c above the free lists: `__rmqueue`, which falls back on the blocks of other migrate
-- types, and moves the free pages of a whole page block to the type that it takes for. A page block is
-- 2 ^ pageblock_order pages, and has a migrate type of its own in the zone's `pageblock_flags`.
pub mod Moved
pub mod Out
pub mod Taken
use xc.Common.{
  ℕ, zero, suc, ◌+◌, ◌-◌, ◌*◌, ◌/◌, ◌%◌, ◌^◌, Bool, true, false, not, ◌&&◌, ◌||◌, Option, none,
  some, List, [], ◌∷◌, ltb, leb, ◌==◌, if◌then◌else◌, Array, update,
}
use xc.Buddy.{
  Page, Zone, max_order, migrate_types, rmv_page_order, list_del, list_add, dec_nr_free, expand,
  rmqueue_smallest,
}

abbrev pub migrate_unmovable : ℕ
migrate_unmovable = 0

abbrev pub migrate_reclaimable : ℕ
migrate_reclaimable = 1

abbrev pub migrate_movable : ℕ
migrate_movable = 2

abbrev pub migrate_reserve : ℕ
migrate_reserve = 3

abbrev pub migrate_isolate : ℕ
migrate_isolate = 4

abbrev pub pageblock_order : ℕ
pageblock_order = 10

abbrev pub pageblock_nr_pages : ℕ
pageblock_nr_pages = 1024

-- A zone with what the fallback reads besides its blocks. `pageblock_flags` holds a migrate type for each
-- page block, from that of `zone_start_pfn` on.
pub record Area : Type 0 where
  pub zone : Zone
  pub zone_start_pfn : ℕ
  pub spanned_pages : ℕ
  pub pageblock_flags : Array ℕ
  pub mobility_disabled : Bool

-- The table `fallbacks`: what its initialiser leaves out is 0, which is MIGRATE_UNMOVABLE.
unfoldable pub fallbacks : ℕ → ℕ → ℕ
fallbacks start i =
    if leb 3 i || ltb migrate_reserve start
    then 0
    else if i == 2 || start == migrate_reserve
    then migrate_reserve
    else if i == 0
    then (if start == migrate_unmovable
        then migrate_reclaimable
        else if start == migrate_reclaimable
        then migrate_unmovable
        else migrate_reclaimable)
    else if start == migrate_movable
    then migrate_unmovable
    else migrate_movable

-- The index of a page's block; the source counts its flag bits.
unfoldable pub pfn_to_bitidx : Area → ℕ → ℕ
pfn_to_bitidx a pfn = (pfn - a.zone_start_pfn) / pageblock_nr_pages

unfoldable pub get_pageblock_migratetype : Area → ℕ → ℕ
get_pageblock_migratetype a p = a.pageblock_flags (pfn_to_bitidx a p)

unfoldable pub set_pageblock_flags_group : Area → ℕ → ℕ → Area
set_pageblock_flags_group a p flags = record a {
  pageblock_flags = update a.pageblock_flags (pfn_to_bitidx a p) (flags % 2 ^ 3);
}

unfoldable pub set_pageblock_migratetype : Area → ℕ → ℕ → Area
set_pageblock_migratetype a p migratetype =
    set_pageblock_flags_group a p (if a.mobility_disabled then migrate_unmovable else migratetype)

unfoldable pub list_move : Zone → ℕ → ℕ → ℕ → Zone
list_move z p order migratetype = list_add (list_del z p order) p order migratetype

-- for (page = start_page; page <= end_page; ...), with fuel: how many pages moved, and the zone.
unfoldable pub move_freepages : ℕ → Zone → ℕ → ℕ → ℕ → ℕ × Zone
move_freepages zero z p end_page migratetype = (0, z)
move_freepages (suc fuel) z p end_page migratetype =
    let order = (z.page p).private in
    let skip = move_freepages fuel z (p + 1) end_page migratetype in
    let rest =
      move_freepages fuel (list_move z p order migratetype) (p + 2 ^ order) end_page migratetype in
    if ltb end_page p
    then (0, z)
    else if not (z.page p).buddy
    then skip
    else (rest.0 + 2 ^ order, rest.1)

unfoldable pub move_freepages_block : Area → Zone → ℕ → ℕ → ℕ × Zone
move_freepages_block a z p migratetype =
    let start_pfn = p - p % pageblock_nr_pages in
    let end_pfn = start_pfn + pageblock_nr_pages - 1 in
    let start_page = if ltb start_pfn a.zone_start_pfn then p else start_pfn in
    if leb (a.zone_start_pfn + a.spanned_pages) end_pfn
    then (0, z)
    else move_freepages (end_pfn + 1 - start_page) z start_page end_pfn migratetype

-- while (nr_pageblocks--)
unfoldable pub set_pageblocks : ℕ → Area → ℕ → ℕ → Area
set_pageblocks zero a p migratetype = a
set_pageblocks (suc n) a p migratetype =
    set_pageblocks n (set_pageblock_migratetype a p migratetype) (p + pageblock_nr_pages)
      migratetype

unfoldable pub change_pageblock_range : Area → ℕ → ℕ → ℕ → Area
change_pageblock_range a p start_order migratetype =
    set_pageblocks (2 ^ (start_order - pageblock_order)) a p migratetype

-- for (i = ...; i < MIGRATE_TYPES; i++), with `n` types left: the first list that is not empty.
unfoldable pub find_fallback : ℕ → ℕ → Zone → ℕ → ℕ → Option (ℕ × ℕ)
find_fallback zero i z current_order start_migratetype = none
find_fallback (suc n) i z current_order start_migratetype =
    let migratetype = fallbacks start_migratetype i in
    let rest = find_fallback n (suc i) z current_order start_migratetype in
    if migratetype == migrate_reserve
    then rest
    else elim (z.free_list current_order migratetype) [ [] ↦ rest | p ∷ l ↦ some (migratetype, p) ]

-- Whether the free pages of the page block move with the block that is taken.
unfoldable pub takes_pageblock : Area → ℕ → ℕ → Bool
takes_pageblock a current_order start_migratetype =
    leb (pageblock_order / 2) current_order
    || (start_migratetype == migrate_reclaimable || a.mobility_disabled)

-- The body of `__rmqueue_fallback` at the first page `p` of a list of `migratetype`.
unfoldable pub take_fallback : Area → ℕ → ℕ → ℕ → ℕ → ℕ → Area
take_fallback a p order current_order start_migratetype migratetype =
    let z = dec_nr_free a.zone current_order in
    let moved = move_freepages_block a z p start_migratetype in
    let claims = leb (2 ^ (pageblock_order - 1)) moved.0 || a.mobility_disabled in
    let whole = takes_pageblock a current_order start_migratetype in
    let z' = if whole then moved.1 else z in
    let a' = if whole && claims then set_pageblock_migratetype a p start_migratetype else a in
    let migratetype' = if whole then start_migratetype else migratetype in
    let z'' = rmv_page_order (list_del z' p current_order) p in
    let a'' =
      if leb pageblock_order current_order
      then change_pageblock_range a' p current_order start_migratetype
      else a' in
    record a'' { zone = expand (current_order - order) z'' p order migratetype' }

-- for (current_order = MAX_ORDER - 1; current_order >= order; --current_order), with `n` orders left.
unfoldable pub rmqueue_fallback_loop : ℕ → Area → ℕ → ℕ → Option ℕ × Area
rmqueue_fallback_loop zero a order start_migratetype = (none, a)
rmqueue_fallback_loop (suc n) a order start_migratetype =
    let current_order = order + n in
    elim (find_fallback migrate_types 0 a.zone current_order start_migratetype) [
      | none ↦ rmqueue_fallback_loop n a order start_migratetype
      | some (migratetype, p) ↦
          (some p, take_fallback a p order current_order start_migratetype migratetype)
    ]

unfoldable pub rmqueue_fallback : Area → ℕ → ℕ → Option ℕ × Area
rmqueue_fallback a order start_migratetype =
    rmqueue_fallback_loop (max_order - order) a order start_migratetype

unfoldable pub with_zone : Area → Option ℕ × Zone → Option ℕ × Area
with_zone a (page, z) = (page, record a { zone = z })

-- `goto retry_reserve`, when the fallback found no page.
unfoldable pub or_reserve : ℕ → Option ℕ × Area → Option ℕ × Area
or_reserve order (some p, a) = (some p, a)
or_reserve order (none, a) = with_zone a (rmqueue_smallest a.zone order migrate_reserve)

unfoldable pub or_fallback : ℕ → ℕ → Option ℕ × Area → Option ℕ × Area
or_fallback order migratetype (some p, a) = (some p, a)
or_fallback order migratetype (none, a) =
    if migratetype == migrate_reserve
    then (none, a)
    else or_reserve order (rmqueue_fallback a order migratetype)

-- `__rmqueue`: the lists of the type, those of the types to fall back on, and the reserve.
unfoldable pub rmqueue : Area → ℕ → ℕ → Option ℕ × Area
rmqueue a order migratetype =
    or_fallback order migratetype (with_zone a (rmqueue_smallest a.zone order migratetype))
