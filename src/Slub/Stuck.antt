-- ===== src/Slub/Stuck.antt =====
-- `slab_free` on a cache whose slabs are changed by the instruction for two words.
use xc.Common.{
  ℕ, zero, suc, ◌≡◌, ◌≢◌, refl, ap, ◌∙◌, Bool, true, false, not, ◌&&◌, ◌||◌, Option, none, some,
  if◌then◌else◌, ◌==◌, ==_ne,
}
use xc.Slub.{
  KmemCache, Counters, any_set, cmpxchg_double_flag, dec_inuse, counters_word,
  try_cmpxchg_double_slab, cmpxchg_double_slab, set_freepointer, next_tid,
}
use xc.Slub.Pages.{PageAllocator}
use xc.Slub.Release.{
  State, is_cpu_page, is_locked, slab_free, slab_free_loop, lock_irqsave_if, saved_if, after_free,
}

module _ (P : PageAllocator) (s : KmemCache) where
  module _ (pointer : ℕ → ℕ) (above p object : ℕ)
      (flag : any_set s.flags cmpxchg_double_flag ≡ true) where
    cmpxchg_none :
        (st : State P) (f : ℕ) (c c' : Counters)
        → pointer p ≢ f
        → cmpxchg_double_slab s (pointer p) above st p f c object c' ≡ none
    unfolding cmpxchg_double_slab
    cmpxchg_none st f c c' ne =
        let locked = try_cmpxchg_double_slab st p f c object c' in
        ap
          (λ b.
            if b
            then if pointer p == f && above == counters_word c then some st else none
            else locked)
          flag
        ∙ ap (λ b. if b && above == counters_word c then some st else none) (==_ne (pointer p) f ne)

    locked_page : (b : Bool) (st : State P) → (lock_irqsave_if P b st).page ≡ st.page
    unfolding lock_irqsave_if
    locked_page true st = refl
    locked_page false st = refl

    slab_free_loop-none :
        (fuel : ℕ) (st : State P) (locked : Option Bool)
        → pointer p ≢ (st.page p).freelist
        → slab_free_loop P fuel s pointer above st p object locked ≡ none
    unfolding slab_free_loop
    slab_free_loop-none zero st locked ne = refl
    slab_free_loop-none (suc fuel) st locked ne =
        let v = st.page p in
        let counters = dec_inuse v.counters in
        let st' = record st { memory = set_freepointer s st.memory object v.freelist } in
        let locks_now =
          ((counters.inuse == 0 || v.freelist == 0) && not v.counters.frozen)
          && not (is_locked locked) in
        let st'' = lock_irqsave_if P locks_now st' in
        let locked' = saved_if P locks_now st'.irqs_on locked in
        let ne' : pointer p ≢ (st''.page p).freelist =
          λ e. ne (e ∙ ap (λ g. (g p).freelist) (locked_page locks_now st')) in
        ap
          (λ o. elim o [
            | none ↦ slab_free_loop P fuel s pointer above st'' p object locked'
            | some done ↦
                some (after_free P s p v.freelist counters.inuse v.counters.frozen locked' done)
          ])
          (cmpxchg_none st'' v.freelist v.counters counters ne)
        ∙ slab_free_loop-none fuel st'' locked' ne'

    -- Where the instruction exchanges two words, it is given the address of the local pointer: unless the
    -- address of the `struct page` is that of the page's first free object, `slab_free` of an object of
    -- another page than the processor's does not end, with any fuel.
    pub slab_free-none :
        (fuel : ℕ) (st : State P)
        → is_cpu_page p st.cpu.page ≡ false
        → pointer p ≢ (st.page p).freelist
        → slab_free P fuel s pointer above st p object ≡ none
    unfolding slab_free
    slab_free-none fuel st there ne =
        let c = st.cpu in
        ap
          (λ b.
            if b
            then some (record st {
              memory = set_freepointer s st.memory object c.freelist;
              cpu = record c { freelist = object; tid = next_tid c.tid };
            })
            else slab_free_loop P fuel s pointer above st p object none)
          there
        ∙ slab_free_loop-none fuel st none ne
