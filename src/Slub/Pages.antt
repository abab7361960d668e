-- ===== src/Slub/Pages.antt =====
-- What the slab allocator takes from the allocator of pages: blocks of 2 ^ order pages, and the way from
-- an address to the first page of its block, which the memory map holds.
use xc.Common.Flags.{bit}
use xc.Common.{ℕ, ◌+◌, ◌*◌, ◌^◌, ◌<◌, ◌≡◌, ◌≢◌, ◌⊎◌, Bool, true, false, Option, some, long_add}

-- The bit of __GFP_COMP, 0x4000.
abbrev pub comp_bit : ℕ
comp_bit = 14

abbrev pub page_offset : ℕ
page_offset = 0xc000_0000

abbrev pub page_size : ℕ
page_size = 4096

-- The addresses of the low memory start at PAGE_OFFSET.
abbrev pub page_address : ℕ → ℕ
page_address p = long_add (p * page_size) page_offset

-- `used a p` is whether `p` is the first page of a block that is given out, and `clean a` whether the
-- memory map has no stale marks of compound pages on pages that are not in use, as `destroy_compound_page`
-- leaves them. The laws are those of blocks: one that is given out was free, is low memory, and leaves the
-- others alone; and, of one page or asked for as a compound page from a clean memory map, it has its own
-- addresses.
pub record PageAllocator : Type 1 where
  pub State : Type 0
  pub alloc_pages : State → (flags order : ℕ) → Option ℕ × State
  pub free_pages : State → (p order : ℕ) → State
  pub compound_order : State → ℕ → ℕ
  pub virt_to_head_page : State → ℕ → ℕ
  pub used : State → ℕ → Bool
  pub clean : State → Bool
  pub alloc-fresh :
      (a : State) (flags order p : ℕ) (a' : State)
      → alloc_pages a flags order ≡ (some p, a')
      → (used a p ≡ false) × (used a' p ≡ true)
  pub alloc-lowmem :
      (a : State) (flags order p : ℕ) (a' : State)
      → alloc_pages a flags order ≡ (some p, a')
      → p < 2 ^ 18
  pub alloc-own :
      (a : State) (flags order p : ℕ) (a' : State)
      → alloc_pages a flags order ≡ (some p, a')
      → clean a ≡ true
      → (order ≡ 0) ⊎ (bit comp_bit flags ≡ 1)
      → (k : ℕ) → k < page_size * 2 ^ order
      → virt_to_head_page a' (page_address p + k) ≡ p
  pub alloc-clean :
      (a : State) (flags order : ℕ) (o : Option ℕ) (a' : State)
      → alloc_pages a flags order ≡ (o, a')
      → clean a ≡ true
      → clean a' ≡ true
  pub alloc-used :
      (a : State) (flags order : ℕ) (o : Option ℕ) (a' : State)
      → alloc_pages a flags order ≡ (o, a')
      → (p : ℕ) → used a p ≡ true
      → used a' p ≡ true
  pub alloc-head :
      (a : State) (flags order : ℕ) (o : Option ℕ) (a' : State)
      → alloc_pages a flags order ≡ (o, a')
      → (x : ℕ) → used a (virt_to_head_page a x) ≡ true
      → virt_to_head_page a' x ≡ virt_to_head_page a x
  pub free-used :
      (a : State) (p order q : ℕ) → q ≢ p → used a q ≡ true → used (free_pages a p order) q ≡ true
  pub free-head :
      (a : State) (p order x : ℕ)
      → virt_to_head_page a x ≢ p
      → used a (virt_to_head_page a x) ≡ true
      → virt_to_head_page (free_pages a p order) x ≡ virt_to_head_page a x
