-- ===== src/Lib.antt =====
-- Verification of the memory management of Xc, a small x86 kernel, with the array routines under it,
-- and of its interrupt lines and their controller.
--
-- The parts, in the order in which a boot uses them:
-- * Memblock models the tables of mm/memblock.c and include/Xc/memblock.h. The BIOS map is added with
--   `memblock_add`, what is in use with `memblock_reserve`; both go through `memblock_add_region`,
--   which merges a new region with its neighbours. A table is its counters and an array, which is a
--   function from indexes. Addresses are u64: `add64` and `sub64` of Common/Words wrap.
-- * Search models the search for a free range in those tables, `memblock_find_in_range` downward.
--   The alignment goes through bit masks, on which Common/Bits has the lemmas.
-- * Ranges models kernel/range.c, which turns memory minus reservations into the list of free ranges
--   that the boot gives to the page allocator, and Sort models lib/sort.c, which `clean_sort_range`
--   calls. The comparison of `sort` is a parameter, of which only "less than 0" is asked.
-- * NodeMap models the early node map of mm/page_alloc.c, which the memory regions are entered in, and
--   FreeMemory what mm/memblock.c makes of it: `__get_free_all_memory_range` fills an array of ranges
--   from the map and subtracts what is reserved.
-- * EarlyAlloc models `find_memory_core_early` of mm/page_alloc.c, which looks for free memory in the
--   entries of the map, from the last to the first, through Search.
-- * BootFree models `__free_pages_memory` of mm/nobootmem.c, which cuts each of these ranges into pages
--   and blocks of 32 pages. Their sizes are those of the 32-bit machine.
-- * Buddy models the free lists of mm/page_alloc.c: `__free_one_page` with `destroy_compound_page`,
--   and `__rmqueue_smallest` with `expand`. The state is a Zone: the fields of `struct page` that these
--   functions use, by frame number; the chain of each free list, as a list; the counters `nr_free`.
--   The zone lock is held around all of them, so they are steps that do not interleave.
-- * Fallback models `__rmqueue`: the fallback on blocks of other migrate types, with the move of the free
--   pages of a page block, and on the reserve. An Area is a Zone with the types of its page blocks.
-- * Watermark models `__zone_watermark_ok`, which asks whether a zone has pages enough for a block. A long
--   is its 32 bits, signed where the source compares signed numbers.
-- * ZoneSize models how the zones of a node are measured from the node map: the range that a zone spans,
--   the holes in it, the totals of the node, and the size of the table of wait queues. The limits of the
--   zones are a record that the functions are given.
-- * ZoneList models the zone list of the node, which mm/page_alloc.c builds, and the walk over it of
--   mm/mmzone.c and `for_each_zone_zonelist`.
-- * Slub models mm/slub.c, the slab allocator, for one cache on the one processor. The state is the words of
--   memory that link free objects, the fields of `struct page` that a slab uses, `kmem_cache_cpu` and
--   `kmem_cache_node`. Slub/Alloc has `slab_alloc` down to `new_slab`, Slub/Release `slab_free` and
--   `deactivate_slab`; Slub/Sizes the order of a slab and the cache that serves a size. The allocator of pages
--   is an interface, Slub/Pages, whose laws say that a block given out
--   was free and leaves the others alone, and, asked for as a compound page from a memory map without stale
--   marks, has its own addresses. They are what Slub relies on: Buddy and Fallback are not shown to have them,
--   and after `destroy_compound_page` the memory map may have such marks.
-- * E820 models what kernel/e820.c does with the BIOS map: `memblock_x86_fill`, which adds its memory to
--   Memblock, and `e820_end_pfn`. E820/Sanitize models `sanitize_e820_map`, which removes overlaps.
-- * Irq models the state of one interrupt line in kernel/irq/chip.c and kernel/irq/manage.c: what
--   `__disable_irq`, `__enable_irq` and `irq_startup` do to a `struct irq_desc`. The chip is which
--   callbacks it has; the calls of them are recorded, and what a chip does then is not modelled.
--   Irq/Flow models `handle_level_irq` of kernel/irq/chip.c with the loop over the handlers in
--   kernel/irq/handle.c, and the choice of chip and flow handler; Irq/Setup models `__setup_irq` of
--   kernel/irq/manage.c with `__irq_set_trigger`. A Line is a descriptor with the list of its actions. What a
--   handler returns, and which calls it makes on its line, is a parameter.
-- * Pic models kernel/i8259.c, the two interrupt controllers: the copy of the mask, the bytes last written to
--   the mask registers, and the writes to the ports. What the ports hold when they are read is a parameter.
--
-- Loops that count an index are structural. The others run on fuel: `scan` of Memblock on cnt + 2
-- rounds, with a result of its own for a loop that has not ended, which its theorem excludes; `compact` of Ranges on a round per slot, `sift` of Sort on a round per element, each with a
-- theorem that more fuel changes nothing; `find_region_loop` of Search on base + 1 rounds and returns
-- an option, which its theorem shows to be there. The walks of NodeMap and
-- EarlyAlloc over a node have a round per entry; `free_blocks` of BootFree has one per page, and its
-- theorem shows that it ends with the last page. `move_freepages` of Fallback has a round per page of the
-- page block, and `double_size` of ZoneSize 32, within which its theorem shows that it ends. The
-- walk of ZoneList has a round per place of the list, and its theorem shows that it reaches the end.
-- The loops of Slub around an exchange of two words end in their first round, as the theorems show, but
-- for the one that does not end at all; `link_objects` has a round per object of the slab.
-- `bubble_sort` of E820/Sanitize has a round per point, after which none would change anything.
--
-- Abstractions. Array indexes that the source keeps in an `int` or a `long` are natural numbers: the
-- arrays are far smaller than 2 ^ 31. `pfn_valid_within` is true, as the flat memory map makes it, and
-- `bad_page` only reports. Nothing interrupts an operation on a cache. A `list_head` chain is the list of its pages, so that links are not shown.
--
-- Not modelled: the lists of pages of each CPU, the start-up of the slab caches, soft interrupts, and
-- what talks to hardware: page tables, boot code, the screen. The scheduler is not: kernel/sched.c is
-- switched off by the preprocessor but for a few lines, and kernel/sched_fair.c is not built.
pub mod Common
pub mod Sort
pub mod Ranges
pub mod Memblock
pub mod Search
pub mod NodeMap
pub mod FreeMemory
pub mod BootFree
pub mod EarlyAlloc
pub mod Buddy
pub mod Irq
pub mod Fallback
pub mod Watermark
pub mod Pic
pub mod ZoneSize
pub mod ZoneList
pub mod E820
pub mod Slub
mod Tests
