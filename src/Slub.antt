-- ===== src/Slub.antt =====
-- mm/slub.c, the slab allocator: the data, the words that objects are linked by, and the changes to one
-- slab page. There is one cache, one processor and one memory node, as CONFIG_NR_CPUS is 1. A pointer to
-- a `struct page` is its frame number, where NULL has its own value; a pointer to an object is its
-- address, and NULL is 0. Memory is read and written a word at a time.
pub mod Pages
pub mod Alloc
pub mod Release
pub mod Sizes
pub mod Chain
pub mod Valid
pub mod Apart
pub mod Taken
pub mod Acquired
pub mod Fresh
pub mod NewSlab
pub mod Allocated
pub mod Given
pub mod Freed
pub mod Stuck
use Prim.Native.Nat.{bit_and}
use xc.Common.{
  [], ℕ, ◌+◌, ◌-◌, ◌*◌, ◌%◌, ◌^◌, Bool, not, ◌&&◌, Option, none, some, List, ◌∷◌, ◌++◌, ◌==◌,
  if◌then◌else◌, Array, update, long_add, long_sub,
}

-- Whether a word of flags has one of the bits of a mask.
abbrev pub any_set : ℕ → ℕ → Bool
any_set flags mask = not (bit_and flags mask == 0)

abbrev pub cmpxchg_double_flag : ℕ
cmpxchg_double_flag = 0x4000_0000

-- The parts of `struct page` that the page of a slab uses. `inuse`, `objects` and `frozen` are the bit
-- fields that `counters` reads and writes at once; `is_slab` is the flag PG_slab.
pub record Counters : Type 0 where
  pub inuse : ℕ
  pub objects : ℕ
  pub frozen : Bool

pub record SlabPage : Type 0 where
  pub freelist : ℕ
  pub counters : Counters
  pub is_slab : Bool
  pub slab : ℕ

pub record KmemCacheCpu : Type 0 where
  pub freelist : ℕ
  pub tid : ℕ
  pub page : Option ℕ
  pub node : ℕ

pub record KmemCacheNode : Type 0 where
  pub nr_partial : ℕ
  pub partial : List ℕ

-- `kmem_cache_order_objects`: an order and a number of objects in one word.
abbrev pub oo_shift : ℕ
oo_shift = 16

abbrev pub oo_mask : ℕ
oo_mask = 0xffff

-- What the operations read of a cache. `self` is its own address, and `ctor` what its constructor does
-- to the memory of an object.
pub record KmemCache : Type 0 where
  pub self : ℕ
  pub flags : ℕ
  pub min_partial : ℕ
  pub size : ℕ
  pub objsize : ℕ
  pub offset : ℕ
  pub oo : ℕ
  pub min : ℕ
  pub max : ℕ
  pub allocflags : ℕ
  pub inuse : ℕ
  pub align : ℕ
  pub reserved : ℕ
  pub ctor : Option (Array ℕ → ℕ → Array ℕ)

-- The state that the operations on one cache change. `buddy` is that of the page allocator, `vm_stat` the
-- counters of pages by item, `irqs_on` whether the processor takes interrupts, `preempt_count` the depth
-- of the spin locks, which on one processor only count it, and `reclaimed_slab` the pages that the current
-- process reclaimed, if it has a `reclaim_state`.
pub record Slabs {ℓ} (A : Type ℓ) : Type ℓ where
  pub memory : Array ℕ
  pub page : Array SlabPage
  pub cpu : KmemCacheCpu
  pub node : KmemCacheNode
  pub buddy : A
  pub vm_stat : Array ℕ
  pub irqs_on : Bool
  pub preempt_count : ℕ
  pub reclaimed_slab : Option ℕ

abbrev pub set_freepointer : KmemCache → Array ℕ → ℕ → ℕ → Array ℕ
set_freepointer s memory object fp = update memory (object + s.offset) fp

abbrev pub get_freepointer : KmemCache → Array ℕ → ℕ → ℕ
get_freepointer s memory object = memory (object + s.offset)

-- TID_STEP is 1 for one processor.
abbrev pub next_tid : ℕ → ℕ
next_tid tid = long_add tid 1

-- The bit field `inuse` has 16 bits.
abbrev pub dec_inuse : Counters → Counters
dec_inuse c = record c { inuse = (c.inuse + (2 ^ 16 - 1)) % 2 ^ 16 }

-- The word that the bit fields make.
abbrev pub counters_word : Counters → ℕ
counters_word c = c.inuse + c.objects * 2 ^ 16 + (if c.frozen then 2 ^ 31 else 0)

abbrev pub same_counters : Counters → Counters → Bool
same_counters c d =
    c.inuse == d.inuse && (c.objects == d.objects && (if c.frozen then d.frozen else not d.frozen))

-- list_del(&page->lru), for a page on the list.
abbrev pub delete_page : ℕ → List ℕ → List ℕ
delete_page p [] = []
delete_page p (x ∷ xs) = if x == p then xs else x ∷ delete_page p xs

abbrev pub add_partial : KmemCacheNode → ℕ → Bool → KmemCacheNode
add_partial n p tail = record n {
  nr_partial = long_add n.nr_partial 1;
  partial = if tail then n.partial ++ p ∷ [] else p ∷ n.partial;
}

abbrev pub remove_partial : KmemCacheNode → ℕ → KmemCacheNode
remove_partial n p = record n {
  nr_partial = long_sub n.nr_partial 1;
  partial = delete_page p n.partial;
}

module _ {ℓ} {A : Type ℓ} where
  abbrev pub with_page : Slabs A → ℕ → SlabPage → Slabs A
  with_page st p v = record st { page = update st.page p v }

  abbrev pub spin_lock : Slabs A → Slabs A
  spin_lock st = record st { preempt_count = long_add st.preempt_count 1 }

  abbrev pub spin_unlock : Slabs A → Slabs A
  spin_unlock st = record st { preempt_count = long_sub st.preempt_count 1 }

  -- Both branches of `__cmpxchg_double_slab`: the instruction compares and writes the two words at
  -- `page->freelist`, and the lock of the other branch is taken and given back.
  unfoldable pub try_cmpxchg_double_slab :
      Slabs A → ℕ → ℕ → Counters → ℕ → Counters → Option (Slabs A)
  try_cmpxchg_double_slab st p freelist_old counters_old freelist_new counters_new =
      let now = st.page p in
      if now.freelist == freelist_old && same_counters now.counters counters_old
      then some (with_page st p (record now { freelist = freelist_new; counters = counters_new }))
      else none

  -- `cmpxchg_double_slab`, whose instruction has `&page`, the address of the local pointer: what it
  -- compares is `pointer`, the address of the `struct page`, and `above`, the word above it on the stack.
  unfoldable pub cmpxchg_double_slab :
      KmemCache → (pointer above : ℕ) → Slabs A → ℕ → ℕ → Counters → ℕ → Counters → Option (Slabs A)
  cmpxchg_double_slab s pointer above st p freelist_old counters_old freelist_new counters_new =
      if any_set s.flags cmpxchg_double_flag
      then if pointer == freelist_old && above == counters_word counters_old then some st else none
      else try_cmpxchg_double_slab st p freelist_old counters_old freelist_new counters_new
