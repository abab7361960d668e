-- ===== src/Tests/SlubTests.antt =====
-- Runs of the slab allocator, on an allocator of pages that gives out blocks of eight pages in turn.
use xc.Common.{
  [], ℕ, zero, suc, ◌+◌, ◌-◌, ◌*◌, ◌/◌, ◌%◌, ◌^◌, ◌≤◌, ◌<◌, ◌≡◌, ◌⊎◌, refl, sym, ap, ◌∙◌, inl, inr,
  arith, Bool, true, false, ◌&&◌, Option, none, some, if◌then◌else◌, ltb, ◌==◌, Bool-cases,
  long_add,
}
use xc.Slub.{KmemCache, SlabPage}
use xc.Slub.Pages.{PageAllocator, page_offset, page_size}
use xc.Slub.Release.{State, slab_free}
use xc.Slub.Sizes.{fls, fls_rounds}
use xc.Slub.Sizes.Classes.{
  get_slab, get_slab_index, cache_at, kmalloc_cache, kmalloc_dma_cache, kmalloc_index,
  size_index_elem,
}
use xc.Slub.Stuck.{slab_free-none}

abbrev give_block : ℕ → ℕ → Option ℕ × ℕ
give_block a order = if ltb order 4 && ltb a (2 ^ 15) then (some (8 * a), a + 1) else (none, a)

abbrev is_given : ℕ → ℕ → Bool
is_given a p = ltb p (8 * a) && p % 8 == 0

abbrev block_of : ℕ → ℕ
block_of x = (x - page_offset) / 32768 * 8

-- A block is given in one case only.
give_block-cases :
    (a order : ℕ) (o : Option ℕ) (a' : ℕ)
    → give_block a order ≡ (o, a')
    → ((o ≡ some (8 * a)) × ((a' ≡ a + 1) × ((order < 4) × (a < 2 ^ 15)))) ⊎ ((o ≡ none) × (a' ≡ a))
give_block-cases a order o a' e = elim (Bool-cases (ltb order 4 && ltb a (2 ^ 15))) [
  | inl h ↦
      let r : (some (8 * a), a + 1) ≡ (o, a') =
        sym (ap (λ b. if b then (some (8 * a), a + 1) else (none, a)) h) ∙ e in
      inl (sym (ap (λ q. q.0) r), (sym (ap (λ q. q.1) r), (ground arith, ground arith)))
  | inr h ↦
      let r : (none, a) ≡ (o, a') =
        sym (ap (λ b. if b then (some (8 * a), a + 1) else (none, a)) h) ∙ e in
      inr (sym (ap (λ q. q.0) r), sym (ap (λ q. q.1) r))
]

abbrev get_or : Option ℕ → ℕ
get_or none = 0
get_or (some p) = p

abbrev is_some : Option ℕ → Bool
is_some none = false
is_some (some p) = true

block_given :
    (a order p a' : ℕ)
    → give_block a order ≡ (some p, a')
    → (p ≡ 8 * a) × ((a' ≡ a + 1) × ((order < 4) × (a < 2 ^ 15)))
block_given a order p a' e = elim (give_block-cases a order (some p) a' e) [
  | inl (o, rest) ↦ (ap get_or o, rest)
  | inr (o, rest) ↦ absurd (ground (arith, ap is_some o))
]

not_less : (a order a' : ℕ) (o : Option ℕ) → give_block a order ≡ (o, a') → a ≤ a'
not_less a order a' o e = elim (give_block-cases a order o a' e) [
  | inl (h, (k, rest)) ↦ omega (arith, k)
  | inr (h, k) ↦ omega (arith, k)
]

block_size : (order : ℕ) → order < 4 → page_size * 2 ^ order ≤ 32768
block_size zero h = omega arith
block_size (suc zero) h = omega arith
block_size (suc (suc zero)) h = omega arith
block_size (suc (suc (suc zero))) h = omega arith
block_size (suc (suc (suc (suc n)))) h = absurd (omega arith)

blocks : PageAllocator
unfolding long_add
blocks = record {
  State = ℕ;
  alloc_pages = λ a flags order. give_block a order;
  free_pages = λ a p order. a;
  compound_order = λ a p. 0;
  virt_to_head_page = λ a x. block_of x;
  used = is_given;
  clean = λ a. true;
  alloc-clean = λ a flags order o a' e h. refl;
  alloc-fresh = λ a flags order p a' e.
      let (at, (next, rest)) = block_given a order p a' e in (ground arith, ground arith);
  alloc-lowmem = λ a flags order p a' e.
      let (at, (next, (small, low))) = block_given a order p a' e in omega arith;
  alloc-own = λ a flags order p a' e none_stale compound k h.
      let (at, (next, (small, low))) = block_given a order p a' e in
      omega (arith, block_size order small);
  alloc-used = λ a flags order o a' e p h. let more = not_less a order a' o e in ground arith;
  alloc-head = λ a flags order o a' e x h. refl;
  free-used = λ a p order q ne h. h;
  free-head = λ a p order x ne h. refl;
}

-- Objects of 64 bytes, 64 of them on one page.
abbrev cache : KmemCache
cache = record {
  self = 0xc100_0000;
  flags = 0;
  min_partial = 5;
  size = 64;
  objsize = 64;
  offset = 0;
  oo = 64;
  min = 64;
  max = 0;
  allocflags = 0;
  inuse = 64;
  align = 8;
  reserved = 0;
  ctor = none;
}

abbrev blank : SlabPage
blank = record {
  freelist = 0;
  counters = record { inuse = 0; objects = 0; frozen = false };
  is_slab = false;
  slab = 0;
}

abbrev empty_cache : State blocks
unfolding blocks
empty_cache = record {
  memory = λ a. 0;
  page = λ p. blank;
  cpu = record { freelist = 0; tid = 0; page = none; node = 0 };
  node = record { nr_partial = 0; partial = [] };
  buddy = 0;
  vm_stat = λ k. 0;
  irqs_on = true;
  preempt_count = 0;
  reclaimed_slab = none;
}

-- All objects of page 0 are given out.
abbrev full_page : SlabPage
full_page = record {
  freelist = 0;
  counters = record { inuse = 64; objects = 64; frozen = false };
  is_slab = true;
  slab = 0xc100_0000;
}

abbrev full_cache : State blocks
unfolding blocks empty_cache
full_cache = record empty_cache { page = λ p. if p == 0 then full_page else blank; buddy = 1 }

-- A cache whose slabs are changed by the instruction, as `kmem_cache_open` makes them.
abbrev double_cache : KmemCache
double_cache = record cache { flags = 0x4000_0000 }

slab_free-none_example :
    slab_free blocks 100 double_cache (λ p. 0xc200_0000 + 32 * p) 0 full_cache 0 0xc000_0000 ≡ none
unfolding full_cache
slab_free-none_example =
    slab_free-none blocks double_cache (λ p. 0xc200_0000 + 32 * p) 0 0 0xc000_0000 refl 100
      full_cache refl (λ e. absurd (omega arith))

get_slab_100 : get_slab 100 1 ≡ some (kmalloc_dma_cache 7)
unfolding get_slab get_slab_index cache_at size_index_elem
get_slab_100 = refl

get_slab_200 : get_slab 200 0 ≡ some (kmalloc_cache 8)
unfolding get_slab get_slab_index cache_at fls fls_rounds
get_slab_200 = refl

-- A size that is at most SLUB_MAX_SIZE, for which `kmalloc_index` has no cache.
kmalloc_index_5000 : kmalloc_index 5000 ≡ none
unfolding kmalloc_index
kmalloc_index_5000 = refl
