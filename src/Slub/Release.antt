-- ===== src/Slub/Release.antt =====
-- mm/slub.c: what gives objects and slabs back. An object goes on the list of the processor or on that of
-- its page, a page whose objects are all free goes back to the allocator of pages, and the page of the
-- processor can be put away.
use xc.Common.{
  ℕ, zero, suc, ◌-◌, ◌^◌, Bool, true, false, not, ◌&&◌, ◌||◌, Option, none, some, long_add, ltb,
  ◌==◌, if◌then◌else◌,
}
use xc.Slub.{
  KmemCache, Slabs, any_set, set_freepointer, get_freepointer, next_tid, dec_inuse, add_partial,
  remove_partial, with_page, spin_lock, spin_unlock, try_cmpxchg_double_slab, cmpxchg_double_slab,
}
use xc.Slub.Pages.{PageAllocator}

abbrev pub slab_destroy_by_rcu : ℕ
slab_destroy_by_rcu = 0x8_0000

abbrev pub is_locked : Option Bool → Bool
is_locked none = false
is_locked (some irqs) = true

-- page == c->page
abbrev pub is_cpu_page : ℕ → Option ℕ → Bool
is_cpu_page p none = false
is_cpu_page p (some q) = p == q

-- What a page was left as: `m_none` is before the first try.
pub data SlabMode : Type 0 where
  m_none : SlabMode
  m_partial : SlabMode
  m_full : SlabMode
  m_free : SlabMode

-- if (current->reclaim_state) current->reclaim_state->reclaimed_slab += pages
abbrev pub count_reclaimed : ℕ → Option ℕ → Option ℕ
count_reclaimed order none = none
count_reclaimed order (some n) = some (long_add n (2 ^ order))

module _ (P : PageAllocator) where
  abbrev pub State : Type 0
  State = Slabs P.State

  -- `__free_slab`. `_mapcount` shares its word with the counters: -1 sets all their bits.
  unfoldable pub free_slab_pages : State → ℕ → State
  free_slab_pages st p =
      let order = P.compound_order st.buddy p in
      record (with_page st p (record (st.page p) {
        is_slab = false;
        counters = record { inuse = 2 ^ 16 - 1; objects = 2 ^ 15 - 1; frozen = true };
      })) {
        reclaimed_slab = count_reclaimed order st.reclaimed_slab;
        buddy = P.free_pages st.buddy p order;
      }

  -- `free_slab`, which `discard_slab` calls: where RCU is to free the pages, nothing does.
  unfoldable pub discard_slab : KmemCache → State → ℕ → State
  discard_slab s st p = if any_set s.flags slab_destroy_by_rcu then st else free_slab_pages st p

  -- One object of the processor's list on that of its page.
  unfoldable pub drain_object : ℕ → KmemCache → State → (p object : ℕ) → Option State
  drain_object zero s st p object = none
  drain_object (suc fuel) s st p object =
      let v = st.page p in
      let st' = record st { memory = set_freepointer s st.memory object v.freelist } in
      elim (try_cmpxchg_double_slab st' p v.freelist v.counters object (dec_inuse v.counters)) [
        | none ↦ drain_object fuel s st' p object
        | some st'' ↦ some st''
      ]

  -- All objects of the processor's list but the last, which is the result.
  unfoldable pub drain_freelist : ℕ → KmemCache → State → (p freelist : ℕ) → Option (ℕ × State)
  drain_freelist zero s st p freelist = none
  drain_freelist (suc fuel) s st p freelist =
      let nextfree = get_freepointer s st.memory freelist in
      if freelist == 0 || nextfree == 0
      then some (freelist, st)
      else elim (drain_object 1 s st p freelist) [
        | none ↦ none
        | some st' ↦ drain_freelist fuel s st' p nextfree
      ]

  unfoldable pub slab_mode : KmemCache → State → (inuse freelist : ℕ) → SlabMode
  slab_mode s st inuse freelist =
      if inuse == 0 && ltb s.min_partial st.node.nr_partial
      then m_free
      else if freelist == 0
      then m_full
      else m_partial

  -- if (l != m)
  unfoldable pub change_lists : State → ℕ → (tail : Bool) → (l m : SlabMode) → State
  change_lists st p tail m_partial m_partial = st
  change_lists st p tail m_partial m_full = record st { node = remove_partial st.node p }
  change_lists st p tail m_partial m_free = record st { node = remove_partial st.node p }
  change_lists st p tail m_partial m_none = record st { node = remove_partial st.node p }
  change_lists st p tail l m_partial = record st { node = add_partial st.node p tail }
  change_lists st p tail l m = st

  unfoldable pub locks : SlabMode → Bool → Bool
  locks m_partial lock = not lock
  locks m lock = false

  -- What follows the loop. A list that was locked is locked once more, where the source means to unlock.
  unfoldable pub put_away : KmemCache → State → ℕ → (lock : Bool) → SlabMode → State
  put_away s st p lock m =
      let st' = if lock then spin_lock st else st in
      elim m [ m_free ↦ discard_slab s st' p | _ ↦ st' ]

  -- redo:, with fuel.
  unfoldable pub unfreeze_slab :
      ℕ → KmemCache → State → (p freelist : ℕ) → (tail lock : Bool) → SlabMode → Option State
  unfreeze_slab zero s st p freelist tail lock l = none
  unfreeze_slab (suc fuel) s st p freelist tail lock l =
      let old = st.page p in
      let some_left = not (freelist == 0) in
      let counters = if some_left then dec_inuse old.counters else old.counters in
      let memory =
        if some_left then set_freepointer s st.memory freelist old.freelist else st.memory in
      let head = if some_left then freelist else old.freelist in
      let st' = record st { memory = memory } in
      let m = slab_mode s st' counters.inuse head in
      let st'' = if locks m lock then spin_lock st' else st' in
      let changed = change_lists st'' p tail l m in
      let lock' = lock || locks m lock in
      let tried =
        try_cmpxchg_double_slab changed p old.freelist old.counters head
          (record counters { frozen = false }) in
      elim tried [
        | none ↦ unfreeze_slab fuel s changed p freelist tail lock' m
        | some done ↦ some (put_away s done p lock' m)
      ]

  -- `deactivate_slab` at the page `p` of the processor. There is fuel for each object of a page.
  unfoldable pub deactivate_slab : KmemCache → State → ℕ → Option State
  deactivate_slab s st p =
      let v = st.page p in
      let c = st.cpu in
      let st' = record st { cpu = record c { tid = next_tid c.tid; page = none; freelist = 0 } } in
      elim (drain_freelist (2 ^ 15) s st' p c.freelist) [
        | none ↦ none
        | some (freelist, st'') ↦
            unfreeze_slab 1 s st'' p freelist (not (v.freelist == 0)) false m_none
      ]

  unfoldable pub unlock_irqrestore : State → Bool → State
  unlock_irqrestore st irqs = spin_unlock (record st { irqs_on = irqs })

  -- `__slab_free` behind its loop, where the list of pages was locked: `irqs` is what the lock saved.
  unfoldable pub finish_free : KmemCache → State → ℕ → (prior inuse : ℕ) → (irqs : Bool) → State
  finish_free s st p prior inuse irqs =
      if inuse == 0 && ltb s.min_partial st.node.nr_partial
      then discard_slab s
          (unlock_irqrestore
            (if prior == 0 then st else record st { node = remove_partial st.node p }) irqs)
          p
      else unlock_irqrestore
          (if prior == 0 then record st { node = add_partial st.node p true } else st) irqs

  -- spin_lock_irqsave, where the list of pages is to be locked, and what it saves.
  unfoldable pub lock_irqsave_if : Bool → State → State
  lock_irqsave_if true st = spin_lock (record st { irqs_on = false })
  lock_irqsave_if false st = st

  unfoldable pub saved_if : Bool → Bool → Option Bool → Option Bool
  saved_if true irqs locked = some irqs
  saved_if false irqs locked = locked

  -- if (!n) return, and what follows.
  unfoldable pub after_free :
      KmemCache → ℕ → (prior inuse : ℕ) → (was_frozen : Bool) → Option Bool → State → State
  after_free s p prior inuse was_frozen none st = st
  after_free s p prior inuse was_frozen (some irqs) st =
      if was_frozen then unlock_irqrestore st irqs else finish_free s st p prior inuse irqs

  -- The loop of `__slab_free`, with fuel. `locked` is whether `n` is set, with the interrupts' state then.
  -- `pointer` gives the address of a `struct page`, and `above` the word above the local pointer.
  unfoldable pub slab_free_loop :
      ℕ
      → KmemCache
      → (pointer : ℕ → ℕ) → (above : ℕ) → State
      → (p object : ℕ) → Option Bool
      → Option State
  slab_free_loop zero s pointer above st p object locked = none
  slab_free_loop (suc fuel) s pointer above st p object locked =
      let v = st.page p in
      let counters = dec_inuse v.counters in
      let st' = record st { memory = set_freepointer s st.memory object v.freelist } in
      let needs = (counters.inuse == 0 || v.freelist == 0) && not v.counters.frozen in
      let locks_now = needs && not (is_locked locked) in
      let st'' = lock_irqsave_if locks_now st' in
      let locked' = saved_if locks_now st'.irqs_on locked in
      let tried =
        cmpxchg_double_slab s (pointer p) above st'' p v.freelist v.counters object counters in
      elim tried [
        | none ↦ slab_free_loop fuel s pointer above st'' p object locked'
        | some done ↦ some (after_free s p v.freelist counters.inuse v.counters.frozen locked' done)
      ]

  -- `slab_free`. The exchange on the processor's list compares it with what was just read from it.
  unfoldable pub slab_free :
      ℕ → KmemCache → (pointer : ℕ → ℕ) → (above : ℕ) → State → (p object : ℕ) → Option State
  slab_free fuel s pointer above st p object =
      let c = st.cpu in
      if is_cpu_page p c.page
      then some (record st {
        memory = set_freepointer s st.memory object c.freelist;
        cpu = record c { freelist = object; tid = next_tid c.tid };
      })
      else slab_free_loop fuel s pointer above st p object none

  -- `kmem_cache_free` finds the page by the address.
  unfoldable pub kmem_cache_free :
      ℕ → KmemCache → (pointer : ℕ → ℕ) → (above : ℕ) → State → ℕ → Option State
  kmem_cache_free fuel s pointer above st object =
      slab_free fuel s pointer above st (P.virt_to_head_page st.buddy object) object
