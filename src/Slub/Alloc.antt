-- ===== src/Slub/Alloc.antt =====
-- mm/slub.c: a new slab with its free list, a slab from the partial list, and the allocation of an
-- object, on the list of the processor and behind it.
use Prim.Native.Nat.{bit_and, bit_or}
use xc.Common.{
  [], ℕ, zero, suc, ◌+◌, ◌-◌, ◌*◌, ◌/◌, ◌%◌, ◌^◌, Bool, true, false, not, ◌&&◌, Option, none, some,
  List, ◌∷◌, ltb, leb, ◌==◌, if◌then◌else◌, Array, update, long_add,
}
use xc.Slub.{
  KmemCache, Slabs, any_set, oo_shift, oo_mask, set_freepointer, get_freepointer, next_tid,
  remove_partial, with_page, spin_lock, spin_unlock, try_cmpxchg_double_slab,
}
use xc.Slub.Pages.{PageAllocator, page_address, page_size}
use xc.Slub.Release.{deactivate_slab}

abbrev pub gfp_wait : ℕ
gfp_wait = 0x10

abbrev pub gfp_zero : ℕ
gfp_zero = 0x8000

-- __GFP_NOWARN | __GFP_NORETRY
abbrev pub gfp_quiet : ℕ
gfp_quiet = 0x1200

-- All 32 bits but __GFP_NOFAIL.
abbrev pub gfp_may_fail : ℕ
gfp_may_fail = 0xffff_f7ff

-- GFP_RECLAIM_MASK | GFP_CONSTRAINT_MASK
abbrev pub gfp_slab_mask : ℕ
gfp_slab_mask = 0x71ef0

abbrev pub slab_poison : ℕ
slab_poison = 0x800

abbrev pub slab_reclaim_account : ℕ
slab_reclaim_account = 0x2_0000

abbrev pub nr_slab_reclaimable : ℕ
nr_slab_reclaimable = 12

abbrev pub nr_slab_unreclaimable : ℕ
nr_slab_unreclaimable = 13

unfoldable pub oo_order : ℕ → ℕ
oo_order x = x / 2 ^ oo_shift

unfoldable pub oo_objects : ℕ → ℕ
oo_objects x = bit_and oo_mask x

-- memset(start, v, n), where every byte of the word `v` is the same.
unfoldable pub memset : Array ℕ → ℕ → ℕ → ℕ → Array ℕ
memset memory start v n k = if leb start k && ltb k (start + n) then v else memory k

unfoldable pub setup_object : KmemCache → Array ℕ → ℕ → Array ℕ
setup_object s memory object = elim s.ctor [ none ↦ memory | some ctor ↦ ctor memory object ]

-- for_each_object(p, s, start, objects), with fuel: the memory, and the last object seen.
unfoldable pub link_objects : ℕ → KmemCache → ℕ → Array ℕ → (p last : ℕ) → Array ℕ × ℕ
link_objects zero s stop memory p last = (memory, last)
link_objects (suc fuel) s stop memory p last =
    let memory' = set_freepointer s (setup_object s memory last) last p in
    let rest = link_objects fuel s stop memory' (p + s.size) p in
    if ltb p stop then rest else (memory, last)

-- `gfp_allowed_mask` is a variable of the kernel.
module _ (P : PageAllocator) (gfp_allowed_mask : ℕ) where
  abbrev pub State : Type 0
  State = Slabs P.State

  unfoldable pub alloc_slab_page : State → ℕ → ℕ → Option ℕ × State
  alloc_slab_page st flags oo =
      let r = P.alloc_pages st.buddy flags (oo_order oo) in (r.0, record st { buddy = r.1 })

  -- page->objects has 15 bits.
  unfoldable pub slab_allocated : KmemCache → State → ℕ → ℕ → State
  slab_allocated s st p oo =
      let v = st.page p in
      let item =
        if any_set s.flags slab_reclaim_account
        then nr_slab_reclaimable
        else nr_slab_unreclaimable in
      record (with_page st p
        (record v { counters = record v.counters { objects = oo_objects oo % 2 ^ 15 } })) {
          vm_stat = update st.vm_stat item (long_add (st.vm_stat item) (2 ^ oo_order oo));
        }

  unfoldable pub irqs_for : ℕ → Bool → State → State
  irqs_for flags on st = record st { irqs_on = if any_set flags gfp_wait then on else st.irqs_on }

  -- What is left to do when a page was found at `oo`, or none at all.
  unfoldable pub finish_slab : KmemCache → ℕ → ℕ → Option ℕ × State → Option ℕ × State
  finish_slab s flags oo (none, st) = (none, irqs_for flags false st)
  finish_slab s flags oo (some p, st) = (some p, slab_allocated s (irqs_for flags false st) p oo)

  -- if (!page), a second try at the smallest order.
  unfoldable pub or_smallest : KmemCache → ℕ → Option ℕ × State → Option ℕ × State
  or_smallest s flags (some p, st) = finish_slab s flags s.oo (some p, st)
  or_smallest s flags (none, st) = finish_slab s flags s.min (alloc_slab_page st flags s.min)

  unfoldable pub allocate_slab : KmemCache → State → ℕ → Option ℕ × State
  allocate_slab s st gfp =
      let allowed = bit_and gfp gfp_allowed_mask in
      let flags = bit_or allowed s.allocflags in
      let alloc_gfp = bit_and (bit_or flags gfp_quiet) gfp_may_fail in
      or_smallest s flags (alloc_slab_page (irqs_for allowed true st) alloc_gfp s.oo)

  -- The body of `new_slab` behind `if (!page) goto out`. The loop has fuel for each object.
  unfoldable pub format_slab : KmemCache → State → ℕ → State
  format_slab s st p =
      let v = st.page p in
      let start = page_address p in
      let poisoned =
        if any_set s.flags slab_poison
        then memset st.memory start 0x5a5a_5a5a (page_size * 2 ^ P.compound_order st.buddy p)
        else st.memory in
      let objects = v.counters.objects in
      let linked = link_objects objects s (start + objects * s.size) poisoned start start in
      let memory' = set_freepointer s (setup_object s linked.0 linked.1) linked.1 0 in
      record (with_page st p (record v {
        freelist = start;
        counters = record v.counters { inuse = 0; frozen = true };
        is_slab = true;
        slab = s.self;
      })) { memory = memory' }

  unfoldable pub format_allocated : KmemCache → Option ℕ × State → Option ℕ × State
  format_allocated s (none, st) = (none, st)
  format_allocated s (some p, st) = (some p, format_slab s st p)

  unfoldable pub new_slab : KmemCache → State → ℕ → Option ℕ × State
  new_slab s st flags = format_allocated s (allocate_slab s st (bit_and flags gfp_slab_mask))

  -- The do-while loops around `__cmpxchg_double_slab`, with fuel: the free list of the page is taken as a
  -- whole, and all its objects count as in use.
  unfoldable pub freeze_slab : ℕ → State → ℕ → (frozen : ℕ → Bool) → Option (ℕ × State)
  freeze_slab zero st p frozen = none
  freeze_slab (suc fuel) st p frozen =
      let v = st.page p in
      let c = v.counters in
      let tried =
        try_cmpxchg_double_slab st p v.freelist c 0
          (record c { inuse = c.objects; frozen = frozen v.freelist }) in
      elim tried [ none ↦ freeze_slab fuel st p frozen | some st' ↦ some (v.freelist, st') ]

  -- The rest of `acquire_slab`: whether the page had a free object.
  unfoldable pub acquired : ℕ → ℕ → State → Bool × State
  acquired p freelist st =
      let st' = record st { node = remove_partial st.node p } in
      if freelist == 0 then (false, st') else (
        true,
        record st' { cpu = record st.cpu { freelist = freelist; page = some p; node = 0 } },
      )

  unfoldable pub acquire_slab : ℕ → State → ℕ → Option (Bool × State)
  acquire_slab fuel st p = elim (freeze_slab fuel st p (λ freelist. true)) [
    | none ↦ none
    | some (freelist, st') ↦ some (acquired p freelist st')
  ]

  -- `acquire_slab` deletes the page that the walk over the list stands on, so that there is no next page
  -- when it returns 0.
  unfoldable pub from_acquired : ℕ → Option (Bool × State) → Option (Option ℕ × State)
  from_acquired p none = none
  from_acquired p (some (true, st)) = some (some p, spin_unlock st)
  from_acquired p (some (false, st)) = none

  -- list_for_each_entry, at the first page.
  unfoldable pub acquire_first : ℕ → State → List ℕ → Option (Option ℕ × State)
  acquire_first fuel st [] = some (none, st)
  acquire_first fuel st (p ∷ l) = from_acquired p (acquire_slab fuel (spin_lock st) p)

  unfoldable pub get_partial_node : ℕ → State → Option (Option ℕ × State)
  get_partial_node fuel st =
      if st.node.nr_partial == 0 then some (none, st) else acquire_first fuel st st.node.partial

  -- load_freelist: the object is given out, the objects behind it are those of the processor.
  unfoldable pub load_freelist : KmemCache → Bool → State → ℕ → ℕ × State
  load_freelist s irqs st object =
      let c = st.cpu in
      (
        object,
        record st {
          cpu = record c { freelist = get_freepointer s st.memory object; tid = next_tid c.tid };
          irqs_on = irqs;
        },
      )

  -- The page of a new slab is the processor's, with all its objects.
  unfoldable pub adopt_slab : State → ℕ → State
  adopt_slab st p =
      let v = st.page p in
      let c = v.counters in
      record (with_page st p
        (record v { freelist = 0; counters = record c { inuse = c.objects } })) {
          cpu = record st.cpu { node = 0; page = some p };
        }

  -- Behind `if (page)`, where a new slab was made.
  unfoldable pub use_slab : KmemCache → Bool → State → ℕ → ℕ × State
  use_slab s irqs st p = load_freelist s irqs (adopt_slab st p) (st.page p).freelist

  -- if (c->page) flush_slab(s, c)
  unfoldable pub flushed : KmemCache → Bool → State → ℕ → Option (ℕ × State)
  flushed s irqs st p = elim st.cpu.page [
    | none ↦ some (use_slab s irqs st p)
    | some q ↦ elim (deactivate_slab P s st q) [
      | none ↦ none
      | some st' ↦ some (use_slab s irqs st' p)
    ]
  ]

  unfoldable pub from_new_slab : KmemCache → Bool → Option ℕ × State → Option (ℕ × State)
  from_new_slab s irqs (some p, st) = flushed s irqs st p
  from_new_slab s irqs (none, st) = some (0, record st { irqs_on = irqs })

  -- new_slab: a page of the list, or a new one. No message is printed, as `printk_ratelimit` is 0.
  unfoldable pub from_partial :
      KmemCache → Bool → ℕ → Option (Option ℕ × State) → Option (ℕ × State)
  from_partial s irqs flags none = none
  from_partial s irqs flags (some (some p, st)) = some (load_freelist s irqs st st.cpu.freelist)
  from_partial s irqs flags (some (none, st)) = from_new_slab s irqs (new_slab s st flags)

  unfoldable pub refill : ℕ → KmemCache → Bool → State → ℕ → Option (ℕ × State)
  refill fuel s irqs st flags = from_partial s irqs flags (get_partial_node fuel st)

  -- The page of the processor gave its list, or had none.
  unfoldable pub from_page : ℕ → KmemCache → Bool → ℕ → Option (ℕ × State) → Option (ℕ × State)
  from_page fuel s irqs flags none = none
  from_page fuel s irqs flags (some (object, st)) =
      if object == 0
      then refill fuel s irqs (record st { cpu = record st.cpu { page = none } }) flags
      else some (load_freelist s irqs st object)

  -- `__slab_alloc`, where `node_match` is always 1. `fuel` is for the loops around the exchange.
  unfoldable pub slab_alloc_slow : ℕ → KmemCache → State → ℕ → Option (ℕ × State)
  slab_alloc_slow fuel s st gfpflags =
      let irqs = st.irqs_on in
      let st' = record st { irqs_on = false } in
      let flags = bit_and gfpflags (0xffff_ffff - gfp_zero) in
      elim st.cpu.page [
        | none ↦ refill fuel s irqs st' flags
        | some p ↦
            from_page fuel s irqs flags (freeze_slab fuel st' p (λ freelist. not (freelist == 0)))
      ]

  -- if ((gfpflags & __GFP_ZERO) && object) memset(object, 0, s->objsize)
  unfoldable pub zeroed : KmemCache → ℕ → Option (ℕ × State) → Option (ℕ × State)
  zeroed s gfpflags none = none
  zeroed s gfpflags (some (object, st)) =
      if any_set gfpflags gfp_zero && not (object == 0)
      then some (object, record st { memory = memset st.memory object 0 s.objsize })
      else some (object, st)

  -- `slab_alloc`. The exchange on the processor's list compares it with what was just read from it.
  unfoldable pub slab_alloc : ℕ → KmemCache → State → ℕ → Option (ℕ × State)
  slab_alloc fuel s st gfpflags =
      let object = st.cpu.freelist in
      zeroed s gfpflags (
        if object == 0
        then slab_alloc_slow fuel s st gfpflags
        else some (load_freelist s st.irqs_on st object))
