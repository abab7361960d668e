-- ===== src/Slub/Allocated.antt =====
-- `slab_alloc` as a whole: from the list of the processor, its page, the list of pages, or a new slab.
